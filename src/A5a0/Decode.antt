-- ===== src/A5a0/Decode.antt =====
-- `A5A0Codec.decode` and `_decode_state`.
use ha_352air_legacy_local.Base.{
  ℕ, ◌/◌, ◌%◌, Option, none, some, [], ◌∷◌, ◌++◌, ◌==◌, leb, ◌&&◌, if◌then◌else◌, some_if, one_of,
  length, take, drop, Result, ok, ◌>>=◌,
}
use ha_352air_legacy_local.Base.Bytes.{Bytes, at, slice, int_from_bytes, bytes_eq}
use ha_352air_legacy_local.Models.{PacketKind, a5a0, known_mode}
use ha_352air_legacy_local.Models.State.{
  Dict, insert, insert_if_none, DeviceState, empty_state, Endpoint, DecodedPacket,
}
use ha_352air_legacy_local.Outer.{
  OuterFrame, Parsed, rejected, frame, parse_outer_frame, valid_source, outer_metadata,
}
use ha_352air_legacy_local.A5a0.{
  route, command_prefix, state_payload_length, double_state_payload_length, state_response_prefix,
  valid_control_checksum, a5_bool, a5_display, a5_power, safe_cumulative_volume,
}

-- The bytes of a state report that `_decode_state` takes by index; its slices it takes later.
pub record StateBytes : Type 0 where
  pub packed : ℕ
  pub raw_speed : ℕ
  pub raw_timer : ℕ
  pub raw_air_quality : ℕ
  pub raw_lock : ℕ
  pub raw_display : ℕ
  pub raw_power : ℕ
  pub processed_exponent : ℕ
  pub purified_exponent : ℕ
  pub linkage : ℕ

unfoldable pub read_state : Bytes → Result StateBytes
read_state payload = do
  packed ← at payload 3
  raw_speed ← at payload 4
  raw_timer ← at payload 5
  raw_air_quality ← at payload 6
  raw_lock ← at payload 7
  raw_display ← at payload 8
  raw_power ← at payload 9
  processed_exponent ← at payload 21
  purified_exponent ← at payload 24
  linkage ← at payload 27
  ok (record {
    packed = packed;
    raw_speed = raw_speed;
    raw_timer = raw_timer;
    raw_air_quality = raw_air_quality;
    raw_lock = raw_lock;
    raw_display = raw_display;
    raw_power = raw_power;
    processed_exponent = processed_exponent;
    purified_exponent = purified_exponent;
    linkage = linkage;
  })

abbrev pub processed_base : Bytes → ℕ
processed_base payload = int_from_bytes (slice payload 22 24)

abbrev pub purified_base : Bytes → ℕ
purified_base payload = int_from_bytes (slice payload 25 27)

-- raw_values, with the bytes that stand for no known value.
unfoldable pub raw_values : Bytes → StateBytes → Dict
raw_values payload b =
    let known : Dict =
      ("mode_raw", b.packed % 16)
      ∷ ("filter_profile_raw", b.packed / 16)
      ∷ ("speed_raw", b.raw_speed)
      ∷ ("timer_hours_raw", b.raw_timer)
      ∷ ("air_quality_raw", b.raw_air_quality)
      ∷ ("child_lock_raw", b.raw_lock)
      ∷ ("display_raw", b.raw_display)
      ∷ ("power_raw", b.raw_power)
      ∷ ("online_total_raw", int_from_bytes (slice payload 19 21))
      ∷ ("linkage_raw", b.linkage)
      ∷ [] in
    let locked = insert_if_none (a5_bool b.raw_lock) "child_lock_unknown" b.raw_lock known in
    let shown = insert_if_none (a5_display b.raw_display) "display_unknown" b.raw_display locked in
    let powered = insert_if_none (a5_power b.raw_power) "power_unknown" b.raw_power shown in
    let processed =
      insert_if_none (safe_cumulative_volume (processed_base payload) b.processed_exponent)
        "processed_air_exponent_unusable" b.processed_exponent powered in
    insert_if_none (safe_cumulative_volume (purified_base payload) b.purified_exponent)
      "purified_air_exponent_unusable" b.purified_exponent processed

unfoldable pub state_of : Bytes → StateBytes → DeviceState
unfolding raw_values
state_of payload b = record empty_state {
  mode = some (known_mode (b.packed % 16));
  filter_type_raw = some (b.packed / 16);
  speed = some_if (leb 1 b.raw_speed && leb b.raw_speed 6) b.raw_speed;
  timer_hours = some_if (one_of b.raw_timer (0 ∷ 1 ∷ 2 ∷ 3 ∷ 5 ∷ 8 ∷ [])) b.raw_timer;
  air_quality_raw = some b.raw_air_quality;
  child_lock = a5_bool b.raw_lock;
  display_on = a5_display b.raw_display;
  power = a5_power b.raw_power;
  timer_remaining_minutes = some (int_from_bytes (slice payload 10 12));
  pm25 = some (int_from_bytes (slice payload 12 14));
  processed_air_m3 = safe_cumulative_volume (processed_base payload) b.processed_exponent;
  purified_air_m3 = safe_cumulative_volume (purified_base payload) b.purified_exponent;
  processed_air_exponent = some b.processed_exponent;
  processed_air_base = some (processed_base payload);
  purified_air_exponent = some b.purified_exponent;
  purified_air_base = some (purified_base payload);
  linkage_raw = some b.linkage;
  raw_values = raw_values payload b;
}

-- A packet of this family, without an inner sequence.
abbrev pub packet_of :
    OuterFrame → PacketKind → Option DeviceState → Endpoint → Dict → DecodedPacket
packet_of outer kind observed source metadata = record {
  identity = outer.identity;
  sequence = outer.sequence;
  kind = kind;
  observed = observed;
  source = source;
  family = a5a0;
  inner_sequence = none;
  raw_metadata = metadata;
}

-- _decode_state
unfoldable pub decode_state : OuterFrame → Bytes → Endpoint → Result DecodedPacket
unfolding read_state state_of
decode_state outer payload source = do
  b ← read_state payload
  ok (packet_of outer PacketKind.state (some (state_of payload b)) source (outer_metadata outer))

-- The last test of `decode`: a checksummed control reply.
unfoldable pub decode_ack : OuterFrame → Endpoint → Result (Option DecodedPacket)
unfolding valid_control_checksum
decode_ack outer source =
    if length outer.payload == 7
    then (do
      first ← at outer.payload 0
      valid ← valid_control_checksum outer.payload
      command ← at outer.payload 3
      value ← at outer.payload 4
      let metadata = insert "value" value (insert "command" command (outer_metadata outer))
      ok (
          some_if (first == route && (bytes_eq (slice outer.payload 1 3) command_prefix && valid))
            (packet_of outer PacketKind.ack none source metadata)))
    else ok none

unfoldable pub decode_payload : OuterFrame → Endpoint → Result (Option DecodedPacket)
decode_payload outer source =
    let payload = outer.payload in
    let reply = bytes_eq (take 3 payload) state_response_prefix in
    if reply && length payload == state_payload_length
    then (do p ← decode_state outer payload source; ok (some p))
    else if reply
        && (length payload == double_state_payload_length
            && bytes_eq (slice payload 33 35) (0x5A ∷ 0xA1 ∷ []))
    then (do p ← decode_state outer (take 1 payload ++ drop 33 payload) source; ok (some p))
    else decode_ack outer source

decode_parsed : Parsed → Option Endpoint → Result (Option DecodedPacket)
decode_parsed (rejected _) peer = ok none
decode_parsed (frame outer) none = ok none
decode_parsed (frame outer) (some peer) =
    if outer.identity.wire_type == 2 then decode_payload outer peer else ok none

unfoldable pub decode : Bytes → Endpoint → Result (Option DecodedPacket)
unfolding decode_parsed
decode datagram source = do
  outer ← parse_outer_frame datagram
  decode_parsed outer (valid_source source)
