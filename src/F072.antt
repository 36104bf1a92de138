-- ===== src/F072.antt =====
-- The codec of protocols/f072.py for the X50 and G30/G45 families: its configuration, its frames
-- and its encoders.
pub mod Decode
pub mod Airflow
pub mod Encoding
pub mod Sending
pub mod Single
pub mod Commands
pub mod Reading
pub mod Trust
use ha_352air_legacy_local.Base.{
  ℕ, ◌+◌, ◌-◌, ◌*◌, ◌/◌, ◌%◌, Bool, true, false, Option, none, some, List, [], ◌∷◌, ◌++◌, ◌==◌, leb,
  ◌&&◌, ◌||◌, not, if◌then◌else◌, one_of, drop, Result, ok, err, invalid_command, value_error,
  key_error, ◌>>=◌, ◌>>◌, require, required,
}
use ha_352air_legacy_local.Base.Bytes.{Bytes, bytes_of, to_bytes_2}
use ha_352air_legacy_local.Models.{
  HeaderIdentity, Command, CommandContext, CommandOperation, mode_op, speed_op, ptc_op, timer_op,
  child_lock_op, display_op, power_op, airflow_op, percentage_op, ProtocolFamily, m25_family, a5a0,
  f072_x50, f072_g30, same_family, DeviceModel, family_for_model, is_g45,
}
use ha_352air_legacy_local.Outer.{build_outer_frame}
use ha_352air_legacy_local.Crc.{crc16_genibus, f072_prefix}

abbrev pub route : ℕ
route = 0x01

-- _ROUTES
abbrev pub routes : List ℕ
routes = 0x01 ∷ 0x02 ∷ []

pub record F072Codec : Type 0 where
  pub family : ProtocolFamily
  pub model : Option DeviceModel

-- F072Codec.__init__
unfoldable pub make_codec : ProtocolFamily → Option DeviceModel → Result F072Codec
make_codec family none = do
  require (same_family family f072_x50 || same_family family f072_g30) value_error
  ok (record { family = family; model = none })
make_codec family (some model) = do
  require (same_family family f072_x50 || same_family family f072_g30) value_error
  require (same_family (family_for_model model) family) value_error
  ok (record { family = family; model = some model })

-- self._inner_type and self._wire_type
abbrev pub inner_type : F072Codec → ℕ
inner_type c = if same_family c.family f072_x50 then 3 else 4

abbrev pub wire_type : F072Codec → ℕ
wire_type c = inner_type c

-- _X50_COMMANDS.get and _G30_COMMANDS.get
abbrev pub x50_command : CommandOperation → Option ℕ
x50_command mode_op = some 0x51
x50_command speed_op = some 0x52
x50_command ptc_op = some 0x53
x50_command timer_op = some 0x54
x50_command child_lock_op = some 0x55
x50_command display_op = some 0x56
x50_command power_op = some 0x5E
x50_command _ = none

abbrev pub g30_command : CommandOperation → Option ℕ
g30_command mode_op = some 0x51
g30_command ptc_op = some 0x53
g30_command timer_op = some 0x54
g30_command child_lock_op = some 0x55
g30_command display_op = some 0x56
g30_command power_op = some 0x5E
g30_command _ = none

-- codes.get(command.operation)
abbrev pub command_code : F072Codec → CommandOperation → Option ℕ
command_code c op = if same_family c.family f072_x50 then x50_command op else g30_command op

-- _check_identity
abbrev pub check_identity : F072Codec → HeaderIdentity → Result (Unit {0})
check_identity c identity = require (identity.wire_type == wire_type c) invalid_command

-- Both frames: the prefix and length, the type, the sequence, a body, and the checksum of all but
-- the prefix.
unfoldable pub checked_frame : ℕ → ℕ → Bytes → Result Bytes
checked_frame kind inner_sequence body = do
  kinds ← bytes_of (kind ∷ 0x04 ∷ 0x02 ∷ [])
  sequence ← to_bytes_2 inner_sequence
  let frame_without_crc = f072_prefix ++ (0x00 ∷ 0x0D ∷ (kinds ++ (sequence ++ body)))
  crc ← to_bytes_2 (crc16_genibus (drop 2 frame_without_crc))
  ok (frame_without_crc ++ crc)

-- _single_value_frame
unfoldable pub single_value_frame : ℕ → ℕ → ℕ → ℕ → Result Bytes
unfolding checked_frame
single_value_frame kind inner_sequence command value = do
  body ← bytes_of (0x03 ∷ command ∷ value ∷ 0x00 ∷ [])
  checked_frame kind inner_sequence body

-- _flow_frame
unfoldable pub flow_frame : ℕ → ℕ → ℕ → Result Bytes
unfolding checked_frame
flow_frame kind inner_sequence flow = do
  flow_bytes ← to_bytes_2 flow
  checked_frame kind inner_sequence (0x03 ∷ 0x58 ∷ flow_bytes)

-- The table of `_validate_single_value`; a missing key raises KeyError.
abbrev pub valid_values : ProtocolFamily → CommandOperation → Option (List ℕ)
valid_values family mode_op =
    some (if same_family family f072_x50 then 1 ∷ 2 ∷ 3 ∷ 5 ∷ [] else 1 ∷ 5 ∷ [])
valid_values family speed_op = some (0 ∷ 1 ∷ 2 ∷ 3 ∷ 4 ∷ 5 ∷ [])
valid_values family ptc_op = some (0 ∷ 1 ∷ 2 ∷ [])
valid_values family timer_op = some (0 ∷ 1 ∷ 2 ∷ 3 ∷ 5 ∷ 8 ∷ [])
valid_values family child_lock_op = some (0x00 ∷ 0x11 ∷ [])
valid_values family display_op = some (0x00 ∷ 0x11 ∷ [])
valid_values family power_op = some (0x00 ∷ 0x11 ∷ [])
valid_values family _ = none

-- _validate_single_value
abbrev pub validate_single_value : ProtocolFamily → Command → Result (Unit {0})
validate_single_value family command = do
  values ← required (valid_values family command.operation) key_error
  require (one_of command.value values) invalid_command

-- bytes((_ROUTE,)) + inner, in the outer envelope
abbrev pub send_inner : CommandContext → Result Bytes → Result Bytes
send_inner context frame = do inner ← frame; build_outer_frame context (route ∷ inner) none none

unfoldable pub encode_query : F072Codec → CommandContext → Result Bytes
unfolding single_value_frame
encode_query c context = do
  check_identity c context.identity
  send_inner context (single_value_frame (inner_type c) context.inner_sequence 0x11 0x11)

-- `context.model or self.model`
abbrev effective_model : F072Codec → CommandContext → Option DeviceModel
effective_model c context = elim context.model [ none ↦ c.model | some m ↦ some m ]

abbrev pub flow_minimum : ℕ
flow_minimum = 40

abbrev maximum_for : Option DeviceModel → ℕ
maximum_for model = if is_g45 model then 450 else 300

-- _flow_range and _flow_range_for_decode: the minimum is 40, these are the maxima.
abbrev pub flow_maximum : F072Codec → CommandContext → ℕ
flow_maximum c context = maximum_for (effective_model c context)

abbrev pub flow_maximum_for_decode : F072Codec → ℕ
flow_maximum_for_decode c = maximum_for c.model

-- _validate_flow
unfoldable pub validate_flow : F072Codec → ℕ → CommandContext → Result (Unit {0})
validate_flow c flow context =
    require (leb flow_minimum flow && leb flow (flow_maximum c context) && flow % 5 == 0)
      invalid_command

unfoldable pub flow_for_percentage : F072Codec → ℕ → CommandContext → Result ℕ
flow_for_percentage c percentage context = do
  require (same_family c.family f072_g30 && leb 1 percentage && leb percentage 100) invalid_command
  let span = flow_maximum c context - flow_minimum
  let step_count = (2 * (percentage - 1) * span + 99 * 5) / (2 * 99 * 5)
  ok (flow_minimum + step_count * 5)

-- _encode_percentage
unfoldable pub encode_percentage : F072Codec → CommandContext → ℕ → Result Bytes
encode_percentage c context percentage = do
  require (same_family c.family f072_g30) invalid_command
  require (leb percentage 100) invalid_command
  let sequence = context.inner_sequence
  let flow_command = (do
    flow ← flow_for_percentage c percentage context
    flow_frame (inner_type c) sequence flow)
  send_inner context (
      if percentage == 0
      then single_value_frame (inner_type c) sequence 0x5E 0x11
      else flow_command)

unfoldable pub encode_airflow : F072Codec → CommandContext → ℕ → Result Bytes
encode_airflow c context flow = do
  require (same_family c.family f072_g30) invalid_command
  validate_flow c flow context
  send_inner context (flow_frame (inner_type c) context.inner_sequence flow)

unfoldable pub encode_single_value : F072Codec → CommandContext → Command → Result Bytes
encode_single_value c context command = do
  code ← required (command_code c command.operation) invalid_command
  validate_single_value c.family command
  send_inner context (single_value_frame (inner_type c) context.inner_sequence code command.value)

unfoldable pub encode_operation :
    F072Codec → CommandContext → Command → CommandOperation → Result Bytes
encode_operation c context command percentage_op = encode_percentage c context command.value
encode_operation c context command airflow_op = encode_airflow c context command.value
encode_operation c context command _ = encode_single_value c context command

unfoldable pub encode_command : F072Codec → CommandContext → Command → Result Bytes
unfolding encode_operation
encode_command c context command = do
  check_identity c context.identity
  encode_operation c context command command.operation
