-- ===== src/Manager.antt =====
-- The frames and tests of tools/352air_schedule_manager.py, a program of its own beside the
-- integration. A device's MAC is the six bytes of its text, its `family` the wire type; a list of
-- four slots is a record, and a slot its raw bytes.
pub mod Times
pub mod Devices
pub mod Known
pub mod ScheduleSlot
pub mod Client
pub mod Writing
pub mod Passive
pub mod Frames
pub mod Agreement
use ha_352air_legacy_local.Base.{
  ℕ, ◌+◌, ◌-◌, ◌%◌, Bool, true, false, Option, none, some, List, [], ◌∷◌, ◌++◌, ◌==◌, leb, ltb,
  ◌&&◌, ◌||◌, not, if◌then◌else◌, length, take, drop, one_of, Result, ok, err, value_error, ◌>>=◌,
  ◌>>◌, require,
}
use ha_352air_legacy_local.Base.Bytes.{
  Bytes, at, slice, bytes_of, to_bytes_2, bytes_eq, int_from_bytes, but_last_two, last_two, sum,
}
use ha_352air_legacy_local.Models.State.{Endpoint}
use ha_352air_legacy_local.Crc.{crc16_genibus, f072_prefix}
use ha_352air_legacy_local.Schedule.{Device, Slots, udp_port}

-- wrap_packet
unfoldable pub wrap_packet : Device → ℕ → Bytes → Result Bytes
wrap_packet device sequence inner = do
  let payload = 0x01 ∷ inner
  lengths ← bytes_of ((length payload + 7) ∷ 0 ∷ [])
  number ← to_bytes_2 sequence
  kinds ← bytes_of (device.company ∷ device.wire_type ∷ [])
  auth ← to_bytes_2 device.auth
  ok (0xA1 ∷ 0x04 ∷ (device.mac ++ (lengths ++ (number ++ (kinds ++ (auth ++ payload))))))

-- schedule_query_packet
unfoldable pub schedule_query_packet : Device → ℕ → Result Bytes
schedule_query_packet device sequence = do
  kind ← bytes_of (device.wire_type ∷ 0x04 ∷ 0x0C ∷ [])
  number ← to_bytes_2 sequence
  let covered = 0x00 ∷ 0x0C ∷ (kind ++ (number ++ 0x01 ∷ 0x04 ∷ 0x04 ∷ []))
  crc ← to_bytes_2 (crc16_genibus covered)
  wrap_packet device sequence (0xF0 ∷ 0x72 ∷ (covered ++ crc))

-- schedule_write_packet; the two bytes and the four slots of eight are the 34 of `body`.
unfoldable pub schedule_write_packet : Device → ℕ → Slots → Result Bytes
schedule_write_packet device sequence s = do
  let body = 0x04 ∷ 0x20 ∷ (s.first ++ (s.second ++ (s.third ++ s.fourth)))
  kind ← bytes_of (device.wire_type ∷ 0x04 ∷ 0x0B ∷ [])
  number ← to_bytes_2 sequence
  let covered = 0x00 ∷ 0x2D ∷ (kind ++ (number ++ length body ∷ (body ++ sum body % 256 ∷ [])))
  crc ← to_bytes_2 (crc16_genibus covered)
  wrap_packet device sequence (0xF0 ∷ 0x72 ∷ (covered ++ crc))

-- parse_outer_payload
unfoldable pub parse_outer_payload : Bytes → Result (Option Bytes)
parse_outer_payload datagram = if ltb (length datagram) 16 then ok none else (do
  marker ← at datagram 0
  reserved ← at datagram 9
  encoded ← at datagram 8
  if not (marker == 0xA1) || not (reserved == 0x00) || ltb encoded 7
      then ok none
      else if not (length datagram == 16 + (encoded - 7))
      then ok none
      else ok (some (drop 16 datagram)))

-- valid_f072_status, of a payload without its route.
unfoldable pub valid_f072_status : Bytes → ℕ → Result Bool
valid_f072_status frame family =
    if ltb (length frame) ((if family == 3 then 30 else 29) + 10)
      || not (bytes_eq (take 2 frame) f072_prefix)
    then ok false
    else (do
      marker ← at frame 6
      kind ← at frame 7
      ok (
          one_of marker (0x84 ∷ 0x03 ∷ [])
          && kind == 0x02
          && crc16_genibus (drop 3 (but_last_two frame)) == int_from_bytes (last_two frame)))

-- valid_passive_status, family by family.
unfoldable pub m25_status : Bytes → Result Bool
m25_status payload =
    if length payload == 17 && bytes_eq (take 2 payload) (0x03 ∷ 0xE5 ∷ [])
    then (at payload 2 >>= λ form. ok (one_of form (0xA1 ∷ 0xA2 ∷ [])))
    else ok false

unfoldable pub long_status : Bytes → ℕ → Result Bool
long_status payload family =
    if one_of family (3 ∷ 4 ∷ []) && leb 17 (length payload)
    then (do
      route ← at payload 0
      if route == 0x01 then valid_f072_status (drop 1 payload) family else ok false)
    else ok false

unfoldable pub valid_passive_status : Bytes → ℕ → Result Bool
valid_passive_status payload family =
    if family == 1
    then m25_status payload
    else if family == 2
    then ok (
        one_of (length payload) (33 ∷ 65 ∷ [])
        && bytes_eq (take 3 payload) (0x02 ∷ 0x5A ∷ 0xA1 ∷ [])
        && (length payload == 33 || bytes_eq (slice payload 33 35) (0x5A ∷ 0xA1 ∷ [])))
    else long_status payload family

-- ScheduleSlot.__post_init__
unfoldable pub make_slot : Bytes → Result Bytes
make_slot raw = require (length raw == 8) value_error >> ok raw

-- parse_schedule_response: the slots, the frame's tests, its length, and the payload.
unfoldable pub response_slots : Bytes → Result (Option Slots)
response_slots inner = do
  first ← make_slot (slice inner 12 20)
  second ← make_slot (slice inner 20 28)
  third ← make_slot (slice inner 28 36)
  fourth ← make_slot (slice inner 36 44)
  ok (some (record { first = first; second = second; third = third; fourth = fourth }))

unfoldable pub read_response : Device → Bytes → Result (Option Slots)
read_response device inner = do
  family ← at inner 4
  marker ← at inner 5
  operation ← at inner 6
  if not (family == device.wire_type)
        || not (one_of marker (0x84 ∷ 0x03 ∷ []))
        || not (operation == 0x0C)
        || not (bytes_eq (slice inner 10 12) (0x04 ∷ 0x20 ∷ []))
      then ok none
      else if not (crc16_genibus (drop 2 (but_last_two inner)) == int_from_bytes (last_two inner))
      then ok none
      else response_slots inner

unfoldable pub response_declared : Device → Bytes → Result (Option Slots)
response_declared device inner =
    let declared_length = int_from_bytes (slice inner 2 4) + 2 in
    if ltb (length inner) 14 || not (bytes_eq (take 2 inner) f072_prefix)
    then ok none
    else if ltb (length inner) declared_length || ltb declared_length 47
    then ok none
    else read_response device (take declared_length inner)

unfoldable pub response_payload : Device → Bytes → Option Bytes → Result (Option Slots)
response_payload device datagram none = ok none
response_payload device datagram (some payload) =
    if ltb (length payload) 48 || not (bytes_eq (slice datagram 2 8) device.mac)
    then ok none
    else (do
      company ← at datagram 12
      family ← at datagram 13
      route ← at payload 0
      if not (company == device.company)
            || not (family == device.wire_type)
            || not (int_from_bytes (slice datagram 14 16) == device.auth)
            || not (route == 0x02)
          then ok none
          else response_declared device (drop 1 payload))

-- parse_schedule_response
unfoldable pub parse_schedule_response : Bytes → Endpoint → Device → Result (Option Slots)
parse_schedule_response datagram address device = do
  payload ← parse_outer_payload datagram
  if bytes_eq address.host device.host && address.port == udp_port
      then response_payload device datagram payload
      else ok none
