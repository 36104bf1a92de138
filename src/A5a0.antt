-- ===== src/A5a0.antt =====
-- The codec of protocols/a5a0.py, for the routed `01 A5 A0` purifiers of wire type 2.
pub mod Decode
pub mod Reading
pub mod Encoding
use ha_352air_legacy_local.Base.{
  ℕ, ◌+◌, ◌*◌, ◌/◌, ◌%◌, Bool, true, false, Option, none, some, List, [], ◌∷◌, ◌++◌, ◌==◌, leb,
  ◌&&◌, not, if◌then◌else◌, one_of, length, get_or, take, drop, Result, ok, err, Error,
  invalid_command, ◌>>=◌, ◌>>◌, require, required,
}
use ha_352air_legacy_local.Base.Bytes.{Bytes, at, slice, bytes_of, bytes_eq, sum}
use ha_352air_legacy_local.Models.{
  HeaderIdentity, Command, CommandContext, CommandOperation, mode_op, speed_op, ptc_op, timer_op,
  child_lock_op, display_op, filter_op, power_op, PowerState, on, off,
}
use ha_352air_legacy_local.Outer.{build_outer_frame}

abbrev pub route : ℕ
route = 0x01

-- _PREFIX
abbrev pub command_prefix : Bytes
command_prefix = 0xA5 ∷ 0xA0 ∷ []

abbrev pub state_payload_length : ℕ
state_payload_length = 33

abbrev pub double_state_payload_length : ℕ
double_state_payload_length = 65

abbrev pub state_response_prefix : Bytes
state_response_prefix = 0x02 ∷ 0x5A ∷ 0xA1 ∷ []

-- _COMMAND_CODES.get
abbrev pub command_code : CommandOperation → Option ℕ
command_code mode_op = some 0x51
command_code speed_op = some 0x52
command_code ptc_op = some 0x53
command_code timer_op = some 0x54
command_code child_lock_op = some 0x55
command_code display_op = some 0x56
command_code filter_op = some 0x57
command_code power_op = some 0x5E
command_code _ = none

-- valid_values of `_validate_a5_value`; its table has the keys of _COMMAND_CODES.
abbrev pub valid_values : CommandOperation → List ℕ
valid_values mode_op = 1 ∷ 2 ∷ 3 ∷ 5 ∷ []
valid_values speed_op = 1 ∷ 2 ∷ 3 ∷ 4 ∷ 5 ∷ 6 ∷ []
valid_values ptc_op = 0 ∷ 1 ∷ 2 ∷ []
valid_values timer_op = 0 ∷ 1 ∷ 2 ∷ 3 ∷ 5 ∷ 8 ∷ []
valid_values child_lock_op = 0x00 ∷ 0x11 ∷ []
valid_values display_op = 0x00 ∷ 0x11 ∷ []
valid_values filter_op = 1 ∷ 2 ∷ 3 ∷ []
valid_values power_op = 0x35 ∷ 0x11 ∷ []
valid_values _ = []

-- _validate_a5_value
abbrev pub validate_a5_value : Command → Result (Unit {0})
validate_a5_value command =
    require (one_of command.value (valid_values command.operation)) invalid_command

-- _check_identity
abbrev pub check_identity : HeaderIdentity → Result (Unit {0})
check_identity identity = require (identity.wire_type == 2) invalid_command

unfoldable pub encode_query : CommandContext → Result Bytes
encode_query context = do
  check_identity context.identity
  build_outer_frame context (0x01 ∷ 0xA5 ∷ 0xA0 ∷ 0x11 ∷ 0x11 ∷ 0x00 ∷ 0x00 ∷ []) none none

unfoldable pub encode_command : CommandContext → Command → Result Bytes
encode_command context command = do
  check_identity context.identity
  code ← required (command_code command.operation) invalid_command
  validate_a5_value command
  inner_without_checksum ← bytes_of (0xA5 ∷ 0xA0 ∷ code ∷ command.value ∷ 0 ∷ [])
  routed ← bytes_of (route ∷ [])
  checksum ← bytes_of (sum inner_without_checksum % 256 ∷ [])
  build_outer_frame context (routed ++ (inner_without_checksum ++ checksum)) none none

-- _valid_control_checksum
unfoldable pub valid_control_checksum : Bytes → Result Bool
valid_control_checksum payload = do
  checksum ← at payload 6
  ok (sum (slice payload 1 6) % 256 == checksum)

-- _a5_bool, _a5_display, _a5_power
unfoldable pub a5_bool : ℕ → Option Bool
a5_bool value = if value == 0x00 then some false else if value == 0x11 then some true else none

unfoldable pub a5_display : ℕ → Option Bool
a5_display value = if value == 0x00 then some true else if value == 0x11 then some false else none

unfoldable pub a5_power : ℕ → Option PowerState
a5_power value = if value == 0x00 then some on else if value == 0x11 then some off else none

-- _safe_cumulative_volume
unfoldable pub safe_cumulative_volume : ℕ → ℕ → Option ℕ
safe_cumulative_volume base exponent =
    if leb exponent 4
    then some (base * get_or (1 ∷ 10 ∷ 100 ∷ 1000 ∷ 10000 ∷ []) exponent 0)
    else none
