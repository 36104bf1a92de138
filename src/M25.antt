-- ===== src/M25.antt =====
-- The codec of protocols/m25.py, for the M25 detector: reads and the backlight only.
pub mod Reading
pub mod Encoding
use ha_352air_legacy_local.Base.{
  ℕ, Bool, true, false, Option, none, some, List, [], ◌∷◌, ◌==◌, leb, ltb, ◌&&◌, ◌||◌, not,
  if◌then◌else◌, one_of, length, Result, ok, err, invalid_command, ◌>>=◌, ◌>>◌, require,
}
use ha_352air_legacy_local.Base.Bytes.{Bytes, at, slice, bytes_of, bytes_eq, int_from_bytes}
use ha_352air_legacy_local.Models.{
  HeaderIdentity, Command, CommandContext, CommandOperation, backlight_op, PacketKind, m25_family,
}
use ha_352air_legacy_local.Models.State.{
  Dict, insert, DeviceState, empty_state, Endpoint, DecodedPacket,
}
use ha_352air_legacy_local.Outer.{
  OuterFrame, Parsed, rejected, frame, build_outer_frame, parse_outer_frame, valid_source,
  outer_metadata,
}

-- _check_identity
abbrev pub check_identity : HeaderIdentity → Result (Unit {0})
check_identity identity = require (identity.wire_type == 1) invalid_command

unfoldable pub encode_query : CommandContext → Result Bytes
encode_query context = do
  check_identity context.identity
  build_outer_frame context (0x03 ∷ 0xFA ∷ 0xA0 ∷ 0x11 ∷ 0x11 ∷ 0x00 ∷ 0x00 ∷ []) none none

unfoldable pub encode_backlight_query : CommandContext → Result Bytes
encode_backlight_query context = do
  check_identity context.identity
  build_outer_frame context (0x03 ∷ 0xFA ∷ 0xA4 ∷ 0x02 ∷ 0x01 ∷ 0xA1 ∷ []) none none

-- `operation is CommandOperation.BACKLIGHT`
abbrev is_backlight : CommandOperation → Bool
is_backlight backlight_op = true
is_backlight _ = false

unfoldable pub encode_command : CommandContext → Command → Result Bytes
encode_command context command = do
  check_identity context.identity
  require (is_backlight command.operation && one_of command.value (0 ∷ 1 ∷ [])) invalid_command
  let checksum = if command.value == 0 then 0xA1 else 0xA2
  payload ← bytes_of (0x03 ∷ 0xFA ∷ 0xA3 ∷ 0x03 ∷ 0x01 ∷ command.value ∷ checksum ∷ [])
  build_outer_frame context payload none none

abbrev pub packet_of : OuterFrame → PacketKind → DeviceState → Endpoint → Dict → DecodedPacket
packet_of outer kind observed source metadata = record {
  identity = outer.identity;
  sequence = outer.sequence;
  kind = kind;
  observed = some observed;
  source = source;
  family = m25_family;
  inner_sequence = none;
  raw_metadata = metadata;
}

-- Forms A1 and A2: the sensor report.
unfoldable pub decode_sensors : OuterFrame → ℕ → Endpoint → Dict → Result (Option DecodedPacket)
decode_sensors outer form source metadata =
    if length outer.payload == 17
    then (do
      linkage ← at outer.payload 7
      let observed = record empty_state {
        pm25 = some (int_from_bytes (slice outer.payload 3 5));
        linkage_raw = some linkage;
        raw_values = ("m25_response_form", form) ∷ ("linkage_raw", linkage) ∷ [];
      }
      ok (some (packet_of outer PacketKind.state observed source metadata)))
    else ok none

-- DeviceState(backlight=payload[5])
unfoldable pub backlight_packet : OuterFrame → Endpoint → Dict → Result (Option DecodedPacket)
backlight_packet outer source metadata = do
  backlight ← at outer.payload 5
  let observed = record empty_state { backlight = some backlight }
  ok (some (packet_of outer PacketKind.backlight_kind observed source metadata))

-- Form A3: the backlight in a fixed layout.
unfoldable pub decode_backlight_set : OuterFrame → Endpoint → Dict → Result (Option DecodedPacket)
unfolding backlight_packet
decode_backlight_set outer source metadata =
    if length outer.payload == 7 && bytes_eq (slice outer.payload 3 5) (0x03 ∷ 0x01 ∷ [])
    then backlight_packet outer source metadata
    else ok none

-- Form A4: the answer to a backlight query.
unfoldable pub decode_backlight_read : OuterFrame → Endpoint → Dict → Result (Option DecodedPacket)
unfolding backlight_packet
decode_backlight_read outer source metadata =
    if leb 6 (length outer.payload)
    then (do
      mark ← at outer.payload 4
      if mark == 0x01 then backlight_packet outer source metadata else ok none)
    else ok none

unfoldable pub decode_form : OuterFrame → ℕ → Endpoint → Dict → Result (Option DecodedPacket)
decode_form outer form source metadata =
    if one_of form (0xA1 ∷ 0xA2 ∷ [])
    then decode_sensors outer form source metadata
    else if form == 0xA3
    then decode_backlight_set outer source metadata
    else if form == 0xA4
    then decode_backlight_read outer source metadata
    else ok none

unfoldable pub decode_payload : OuterFrame → Endpoint → Result (Option DecodedPacket)
decode_payload outer source = if ltb (length outer.payload) 3 then ok none else (do
  route ← at outer.payload 0
  marker ← at outer.payload 1
  form ← at outer.payload 2
  if one_of route (0x03 ∷ 0x04 ∷ []) && marker == 0xF5
      then decode_form outer form source (insert "m25_response_form" form (outer_metadata outer))
      else ok none)

decode_parsed : Parsed → Option Endpoint → Result (Option DecodedPacket)
decode_parsed (rejected _) peer = ok none
decode_parsed (frame outer) none = ok none
decode_parsed (frame outer) (some peer) =
    if outer.identity.wire_type == 1 then decode_payload outer peer else ok none

unfoldable pub decode : Bytes → Endpoint → Result (Option DecodedPacket)
unfolding decode_parsed
decode datagram source = do
  outer ← parse_outer_frame datagram
  decode_parsed outer (valid_source source)
