-- ===== src/F072/Decode.antt =====
-- `F072Codec.decode` and the two state layouts.
use ha_352air_legacy_local.Base.{
  ℕ, ◌*◌, ◌/◌, ◌%◌, Bool, true, false, Option, none, some, [], ◌∷◌, ◌==◌, leb, ltb, ◌&&◌, ◌||◌, not,
  if◌then◌else◌, some_if, one_of, length, get_or, take, drop, Result, ok, ◌>>=◌,
}
use ha_352air_legacy_local.Base.Bytes.{Bytes, at, slice, but_last_two, int_from_bytes, bytes_eq}
use ha_352air_legacy_local.Models.{
  PacketKind, PowerState, on, off, ModeValue, raw, known_mode, f072_x50, f072_g30, same_family,
}
use ha_352air_legacy_local.Models.State.{
  Dict, insert, insert_if_none, DeviceState, empty_state, Endpoint, DecodedPacket,
}
use ha_352air_legacy_local.Outer.{
  OuterFrame, Parsed, rejected, frame, parse_outer_frame, valid_source, outer_metadata,
}
use ha_352air_legacy_local.Crc.{f072_prefix, f072_response_crc_is_valid}
use ha_352air_legacy_local.F072.{
  F072Codec, wire_type, routes, flow_minimum, flow_maximum_for_decode,
}

-- _f072_lock, _f072_on_off, _f072_power
unfoldable pub f072_lock : ℕ → Option Bool
f072_lock value = if value == 0x00 then some true else if value == 0x11 then some false else none

unfoldable pub f072_on_off : ℕ → Option Bool
f072_on_off value = if value == 0x00 then some true else if value == 0x11 then some false else none

unfoldable pub f072_power : ℕ → Option PowerState
f072_power value = if value == 0x00 then some on else if value == 0x11 then some off else none

-- _g30_mode
unfoldable pub g30_mode : ℕ → ModeValue
g30_mode value = if one_of value (1 ∷ 5 ∷ []) then known_mode value else raw value

-- _safe_cumulative_volume
unfoldable pub safe_cumulative_volume : ℕ → ℕ → Option ℕ
safe_cumulative_volume base exponent =
    if leb exponent 4
    then some (base * get_or (1 ∷ 10 ∷ 100 ∷ 1000 ∷ 10000 ∷ []) exponent 0)
    else none

-- _is_g30_state, _is_x50_state
abbrev pub is_g30_state : Bytes → Bool
is_g30_state data_area = leb 29 (length data_area)

abbrev pub is_x50_state : Bytes → Bool
is_x50_state data_area = leb 30 (length data_area)

-- The bytes that both layouts take by index.
pub record CommonBytes : Type 0 where
  pub packed : ℕ
  pub raw_timer : ℕ
  pub air_quality : ℕ
  pub raw_lock : ℕ
  pub raw_display : ℕ
  pub raw_power : ℕ
  pub processed_exponent : ℕ
  pub purified_exponent : ℕ

unfoldable pub read_common : Bytes → Result CommonBytes
read_common data_area = do
  packed ← at data_area 3
  raw_timer ← at data_area 5
  air_quality ← at data_area 6
  raw_lock ← at data_area 7
  raw_display ← at data_area 8
  raw_power ← at data_area 9
  processed_exponent ← at data_area 21
  purified_exponent ← at data_area 24
  ok (record {
    packed = packed;
    raw_timer = raw_timer;
    air_quality = air_quality;
    raw_lock = raw_lock;
    raw_display = raw_display;
    raw_power = raw_power;
    processed_exponent = processed_exponent;
    purified_exponent = purified_exponent;
  })

abbrev pub processed_base : Bytes → ℕ
processed_base data_area = int_from_bytes (slice data_area 22 24)

abbrev pub purified_base : Bytes → ℕ
purified_base data_area = int_from_bytes (slice data_area 25 27)

-- The entries for bytes that stand for no known value.
add_unknown : Bytes → CommonBytes → Dict → Dict
add_unknown data_area b known =
    let locked = insert_if_none (f072_lock b.raw_lock) "child_lock_unknown" b.raw_lock known in
    let shown = insert_if_none (f072_on_off b.raw_display) "display_unknown" b.raw_display locked in
    let powered = insert_if_none (f072_power b.raw_power) "power_unknown" b.raw_power shown in
    let processed =
      insert_if_none (safe_cumulative_volume (processed_base data_area) b.processed_exponent)
        "processed_air_exponent_unusable" b.processed_exponent powered in
    insert_if_none (safe_cumulative_volume (purified_base data_area) b.purified_exponent)
      "purified_air_exponent_unusable" b.purified_exponent processed

-- The fields that both layouts fill alike.
abbrev common_state : Bytes → CommonBytes → DeviceState
common_state data_area b = record empty_state {
  timer_hours = some_if (one_of b.raw_timer (0 ∷ 1 ∷ 2 ∷ 3 ∷ 5 ∷ 8 ∷ [])) b.raw_timer;
  air_quality_raw = some b.air_quality;
  child_lock = f072_lock b.raw_lock;
  display_on = f072_on_off b.raw_display;
  power = f072_power b.raw_power;
  timer_remaining_minutes = some (int_from_bytes (slice data_area 10 12));
  pm25 = some (int_from_bytes (slice data_area 12 14));
  processed_air_m3 = safe_cumulative_volume (processed_base data_area) b.processed_exponent;
  purified_air_m3 = safe_cumulative_volume (purified_base data_area) b.purified_exponent;
  processed_air_exponent = some b.processed_exponent;
  processed_air_base = some (processed_base data_area);
  purified_air_exponent = some b.purified_exponent;
  purified_air_base = some (purified_base data_area);
}

unfoldable pub x50_state : Bytes → CommonBytes → ℕ → ℕ → DeviceState
unfolding add_unknown
x50_state data_area b raw_speed linkage = record (common_state data_area b) {
  mode = some (known_mode (b.packed % 16));
  filter_type_raw = some (b.packed / 16);
  speed = some_if (leb 1 raw_speed && leb raw_speed 6) raw_speed;
  linkage_raw = some linkage;
  raw_values = add_unknown data_area b (
      ("mode_raw", b.packed % 16)
      ∷ ("filter_profile_raw", b.packed / 16)
      ∷ ("speed_raw", raw_speed)
      ∷ ("timer_hours_raw", b.raw_timer)
      ∷ ("air_quality_raw", b.air_quality)
      ∷ ("child_lock_raw", b.raw_lock)
      ∷ ("display_raw", b.raw_display)
      ∷ ("power_raw", b.raw_power)
      ∷ ("online_total_raw", int_from_bytes (slice data_area 19 21))
      ∷ ("linkage_raw", linkage)
      ∷ []);
}

-- The airflow of a G30 report, if it is a step of the model's range.
abbrev g30_airflow : F072Codec → ℕ → Option ℕ
g30_airflow c raw_flow =
    some_if
      (leb flow_minimum raw_flow && leb raw_flow (flow_maximum_for_decode c) && raw_flow % 5 == 0)
      raw_flow

unfoldable pub g30_state : F072Codec → Bytes → CommonBytes → ℕ → ℕ → ℕ → DeviceState
unfolding add_unknown
g30_state c data_area b raw_ptc temperature humidity =
    let raw_flow = int_from_bytes (slice data_area 27 29) in
    let airflow = g30_airflow c raw_flow in
    record (common_state data_area b) {
      mode = some (g30_mode (b.packed % 16));
      filter_type_raw = some (if b.packed / 16 == 0 then 0 else 1);
      temperature = some temperature;
      humidity = some humidity;
      co2 = some (int_from_bytes (slice data_area 16 18));
      ptc = some_if (one_of raw_ptc (0 ∷ 1 ∷ 2 ∷ [])) raw_ptc;
      airflow_m3h = airflow;
      raw_values = insert_if_none airflow "airflow_unknown" raw_flow (
          add_unknown data_area b (
            ("mode_raw", b.packed % 16)
            ∷ ("filter_profile_raw", b.packed / 16)
            ∷ ("timer_hours_raw", b.raw_timer)
            ∷ ("air_quality_raw", b.air_quality)
            ∷ ("child_lock_raw", b.raw_lock)
            ∷ ("display_raw", b.raw_display)
            ∷ ("power_raw", b.raw_power)
            ∷ ("ptc_raw", raw_ptc)
            ∷ ("airflow_raw", raw_flow)
            ∷ ("online_total_raw", int_from_bytes (slice data_area 19 21))
            ∷ []));
    }

-- A packet of the codec's family; its inner sequence is always None.
abbrev pub packet_of :
    F072Codec → OuterFrame → PacketKind → Option DeviceState → Endpoint → Dict → DecodedPacket
packet_of c outer kind observed source metadata = record {
  identity = outer.identity;
  sequence = outer.sequence;
  kind = kind;
  observed = observed;
  source = source;
  family = c.family;
  inner_sequence = none;
  raw_metadata = metadata;
}

-- _decode_x50_state
unfoldable pub decode_x50_state :
    F072Codec → OuterFrame → Bytes → Endpoint → Dict → Result (Option DecodedPacket)
unfolding read_common x50_state
decode_x50_state c outer data_area source metadata = do
  b ← read_common data_area
  raw_speed ← at data_area 4
  linkage ← at data_area 29
  let observed = x50_state data_area b raw_speed linkage
  ok (some (packet_of c outer PacketKind.state (some observed) source metadata))

-- _decode_g30_state
unfoldable pub decode_g30_state :
    F072Codec → OuterFrame → Bytes → Endpoint → Dict → Result (Option DecodedPacket)
unfolding read_common g30_state
decode_g30_state c outer data_area source metadata = do
  b ← read_common data_area
  raw_ptc ← at data_area 18
  temperature ← at data_area 14
  humidity ← at data_area 15
  let observed = g30_state c data_area b raw_ptc temperature humidity
  ok (some (packet_of c outer PacketKind.state (some observed) source metadata))

-- A four-byte data area is an acknowledgement.
unfoldable pub decode_ack :
    F072Codec → OuterFrame → Bytes → Endpoint → Dict → Result (Option DecodedPacket)
decode_ack c outer data_area source metadata =
    if length data_area == 4
    then (do
      command ← at data_area 1
      value ← at data_area 2
      ok (
          some (
            packet_of c outer PacketKind.ack none source
              (insert "value" value (insert "command" command metadata)))))
    else ok none

unfoldable pub decode_data :
    F072Codec → OuterFrame → Bytes → Endpoint → Dict → Result (Option DecodedPacket)
decode_data c outer data_area source metadata =
    if same_family c.family f072_g30 && is_g30_state data_area
    then decode_g30_state c outer data_area source metadata
    else if same_family c.family f072_x50 && is_x50_state data_area
    then decode_x50_state c outer data_area source metadata
    else decode_ack c outer data_area source metadata

-- The marker and type of a checked frame, and its data area.
unfoldable pub decode_frame :
    F072Codec → OuterFrame → Bytes → Endpoint → Dict → Result (Option DecodedPacket)
decode_frame c outer inner source metadata = do
  marker ← at inner 5
  kind ← at inner 6
  let data_area = drop 7 (but_last_two inner)
  let described = insert "response_marker" marker (
      insert "data_length" (length data_area)
        (insert "response_inner_length" (length inner) metadata))
  if not (one_of marker (0x84 ∷ 0x03 ∷ [])) || not (kind == 0x02)
      then ok none
      else decode_data c outer data_area source described

unfoldable pub decode_payload : F072Codec → OuterFrame → Endpoint → Result (Option DecodedPacket)
decode_payload c outer source = if ltb (length outer.payload) 14 then ok none else do
  route ← at outer.payload 0
  let inner = drop 1 outer.payload
  if one_of route routes && bytes_eq (take 2 inner) f072_prefix && f072_response_crc_is_valid inner
      then decode_frame c outer inner source (insert "route" route (outer_metadata outer))
      else ok none

decode_parsed : F072Codec → Parsed → Option Endpoint → Result (Option DecodedPacket)
decode_parsed c (rejected _) peer = ok none
decode_parsed c (frame outer) none = ok none
decode_parsed c (frame outer) (some peer) =
    if outer.identity.wire_type == wire_type c then decode_payload c outer peer else ok none

unfoldable pub decode : F072Codec → Bytes → Endpoint → Result (Option DecodedPacket)
unfolding decode_parsed
decode c datagram source = do
  outer ← parse_outer_frame datagram
  decode_parsed c outer (valid_source source)
