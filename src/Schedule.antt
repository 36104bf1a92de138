-- ===== src/Schedule.antt =====
-- The schedule frames of schedule.py: the query, the write of the four slots, and the reply. A
-- device is what discovery learned of it, its MAC as the six bytes that `mac_to_bytes` gives.
pub mod Reading
pub mod Cleanup
pub mod Verified
pub mod Sending
pub mod Success
use ha_352air_legacy_local.Base.{
  ℕ, ◌+◌, ◌-◌, ◌%◌, Bool, true, false, Option, none, some, List, [], ◌∷◌, ◌++◌, ◌==◌, ltb, ◌&&◌,
  ◌||◌, not, if◌then◌else◌, one_of, length, take, drop, Result, ok, err, value_error, ◌>>=◌, ◌>>◌,
  require,
}
use ha_352air_legacy_local.Base.Bytes.{
  Bytes, at, slice, bytes_of, to_bytes_2, bytes_eq, int_from_bytes, but_last_two, last_two, sum,
}
use ha_352air_legacy_local.Models.{HeaderIdentity, make_identity, make_context}
use ha_352air_legacy_local.Models.State.{Endpoint, Text}
use ha_352air_legacy_local.Outer.{
  OuterFrame, Parsed, rejected, frame, build_outer_frame, parse_outer_frame,
}
use ha_352air_legacy_local.Crc.{crc16_genibus, f072_prefix}

-- DiscoveryResult of discovery.py
pub record Device : Type 0 where
  pub host : Text
  pub mac : Bytes
  pub company : ℕ
  pub wire_type : ℕ
  pub auth : ℕ

-- UDP_PORT
abbrev pub udp_port : ℕ
udp_port = 11530

-- schedule_cleanup_supported
abbrev pub schedule_cleanup_supported : ℕ → Bool
schedule_cleanup_supported wire_type = one_of wire_type (2 ∷ 3 ∷ 4 ∷ [])

-- _EMPTY_SLOT
abbrev pub empty_slot : Bytes
empty_slot = 0x00 ∷ 0xFF ∷ 0xFF ∷ 0xFF ∷ 0xFF ∷ 0x00 ∷ 0x00 ∷ 0x00 ∷ []

abbrev all_zero : Bytes → Bool
all_zero [] = true
all_zero (x ∷ rest) = x == 0 && all_zero rest

-- _slot_is_empty
unfoldable pub slot_is_empty : Bytes → Bool
slot_is_empty slot =
    all_zero (take 6 slot) || bytes_eq (slice slot 1 5) (0xFF ∷ 0xFF ∷ 0xFF ∷ 0xFF ∷ [])

pub record Slots : Type 0 where
  pub first : Bytes
  pub second : Bytes
  pub third : Bytes
  pub fourth : Bytes

-- _identity
unfoldable pub identity_of : Device → Result HeaderIdentity
identity_of device = make_identity device.mac device.company device.wire_type device.auth

-- _wrap_inner
unfoldable pub wrap_inner : Device → ℕ → Bytes → Result Bytes
unfolding identity_of
wrap_inner device sequence inner = do
  identity ← identity_of device
  context ← make_context identity sequence sequence none 4
  build_outer_frame context (0x01 ∷ inner) none none

-- Both frames: a prefix and length, the type and operation, the sequence, what follows it, and the
-- checksum of all but the prefix.
unfoldable pub schedule_frame : Device → ℕ → ℕ → ℕ → Bytes → Result Bytes
unfolding wrap_inner
schedule_frame device sequence size operation rest = do
  kind ← bytes_of (device.wire_type ∷ 0x04 ∷ operation ∷ [])
  number ← to_bytes_2 sequence
  let checked = 0x00 ∷ size ∷ (kind ++ (number ++ rest))
  crc ← to_bytes_2 (crc16_genibus checked)
  wrap_inner device sequence (f072_prefix ++ (checked ++ crc))

-- _encode_schedule_query
unfoldable pub encode_schedule_query : Device → ℕ → Result Bytes
unfolding schedule_frame
encode_schedule_query device sequence =
    schedule_frame device sequence 0x0C 0x0C (0x01 ∷ 0x04 ∷ 0x04 ∷ [])

abbrev pub is_slot : Bytes → Bool
is_slot slot = length slot == 8

-- _encode_schedule_write
unfoldable pub encode_schedule_write : Device → ℕ → Slots → Result Bytes
unfolding schedule_frame
encode_schedule_write device sequence s = do
  require (is_slot s.first && is_slot s.second && is_slot s.third && is_slot s.fourth) value_error
  let body = 0x04 ∷ 0x20 ∷ (s.first ++ (s.second ++ (s.third ++ s.fourth)))
  schedule_frame device sequence 0x2D 0x0B (length body ∷ (body ++ (sum body % 256 ∷ [])))

abbrev pub from_device : OuterFrame → Device → Bool
from_device outer device =
    bytes_eq outer.identity.mac device.mac
    && outer.identity.company == device.company
    && outer.identity.wire_type == device.wire_type
    && outer.identity.auth == device.auth

-- The four slots; a shorter one is no reply.
abbrev pub slot_at : Bytes → ℕ → Bytes
slot_at inner start = slice inner start (start + 8)

unfoldable pub read_slots : Bytes → Option Slots
read_slots inner =
    if is_slot (slot_at inner 12)
      && is_slot (slot_at inner 20)
      && is_slot (slot_at inner 28)
      && is_slot (slot_at inner 36)
    then some (record {
      first = slot_at inner 12;
      second = slot_at inner 20;
      third = slot_at inner 28;
      fourth = slot_at inner 36;
    })
    else none

unfoldable pub check_inner : Device → Bytes → Result (Option Slots)
unfolding read_slots
check_inner device inner = do
  kind ← at inner 4
  marker ← at inner 5
  operation ← at inner 6
  let valid =
      kind == device.wire_type
      && one_of marker (0x84 ∷ 0x03 ∷ [])
      && operation == 0x0C
      && bytes_eq (slice inner 10 12) (0x04 ∷ 0x20 ∷ [])
      && crc16_genibus (drop 2 (but_last_two inner)) == int_from_bytes (last_two inner)
  ok (if valid then read_slots inner else none)

unfoldable pub check_length : Device → Bytes → Result (Option Slots)
check_length device inner =
    let declared = int_from_bytes (slice inner 2 4) + 2 in
    if ltb (length inner) 47 || not (bytes_eq (take 2 inner) f072_prefix)
    then ok none
    else if ltb declared 47 || ltb (length inner) declared
    then ok none
    else check_inner device (take declared inner)

unfoldable pub check_outer : Device → OuterFrame → Result (Option Slots)
check_outer device outer =
    if not (from_device outer device) || ltb (length outer.payload) 48 then ok none else (do
      route ← at outer.payload 0
      if route == 0x02 then check_length device (drop 1 outer.payload) else ok none)

check_parsed : Device → Parsed → Result (Option Slots)
check_parsed device (rejected _) = ok none
check_parsed device (frame outer) = check_outer device outer

-- _decode_schedule_response
unfoldable pub decode_schedule_response : Bytes → Endpoint → Device → Result (Option Slots)
unfolding check_parsed
decode_schedule_response datagram source device =
    if bytes_eq source.host device.host && source.port == udp_port
    then (parse_outer_frame datagram >>= check_parsed device)
    else ok none
