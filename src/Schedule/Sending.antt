-- ===== src/Schedule/Sending.antt =====
-- The frames of a cleanup for a device with a valid identity, and a cleanup that succeeds.
use ha_352air_legacy_local.Base.{
  ℕ, ◌/◌, ◌%◌, ◌≤◌, ◌≡◌, none, [], ◌∷◌, ◌++◌, length, length-append, All-append, ok, arith,
}
use ha_352air_legacy_local.Base.Bytes.{
  Bytes, IsBytes, IsByte, IsU16, bytes_of-ok, to_bytes_2-ok, sum,
}
use ha_352air_legacy_local.Models.{HeaderIdentity, IsIdentity, CommandContext, IsContext}
use ha_352air_legacy_local.Models.Laws.{make_identity-ok, make_context-ok}
use ha_352air_legacy_local.Outer.Totality.{
  envelope, built, sent-IsFrame, build_outer_frame-envelope,
}
use ha_352air_legacy_local.Crc.{crc16_genibus}
use ha_352air_legacy_local.Crc.Detection.{crc16_genibus-lt}
use ha_352air_legacy_local.Schedule.{
  Device, empty_slot, identity_of, wrap_inner, schedule_frame, encode_schedule_query,
  encode_schedule_write,
}
use ha_352air_legacy_local.Schedule.Cleanup.{empty_slots}

abbrev pub identity : Device → HeaderIdentity
identity device = record {
  mac = device.mac;
  company = device.company;
  wire_type = device.wire_type;
  auth = device.auth;
}

abbrev pub IsDevice : Device → Type 0
IsDevice device = IsIdentity (identity device)

abbrev pub context : Device → ℕ → CommandContext
context device sequence = record {
  identity = identity device;
  outer_sequence = sequence;
  inner_sequence = sequence;
  model = none;
  outer_operation = 4;
}

-- What the checksum covers, and the frame.
abbrev pub covered : Device → ℕ → ℕ → ℕ → Bytes → Bytes
covered device sequence size operation rest =
    0x00 ∷ size ∷ device.wire_type ∷ 0x04 ∷ operation ∷ sequence / 256 ∷ sequence % 256 ∷ rest

abbrev pub inner : Device → ℕ → ℕ → ℕ → Bytes → Bytes
inner device sequence size operation rest =
    let c = covered device sequence size operation rest in
    0xF0 ∷ 0x72 ∷ (c ++ (crc16_genibus c / 256 ∷ crc16_genibus c % 256 ∷ []))

abbrev pub schedule_datagram : Device → ℕ → ℕ → ℕ → Bytes → Bytes
schedule_datagram device sequence size operation rest =
    envelope
      (built (context device sequence) (0x01 ∷ inner device sequence size operation rest) none none)

wrap_inner-envelope :
    (device : Device) (sequence : ℕ) (xs : Bytes)
    → IsDevice device
    → IsU16 sequence
    → IsBytes xs
    → length xs ≤ 247
    → wrap_inner device sequence xs
      ≡ ok (envelope (built (context device sequence) (0x01 ∷ xs) none none))
unfolding wrap_inner identity_of
wrap_inner-envelope device sequence xs v n b l =
    let k : IsContext (context device sequence) = record {
      identity_valid = v;
      outer_u16 = n;
      inner_u16 = n;
      operation_byte = omega arith;
    } in
    rw (make_identity-ok (identity device) v, make_context-ok (context device sequence) k)
      (build_outer_frame-envelope (context device sequence) (0x01 ∷ xs) none none
        (sent-IsFrame (context device sequence) (0x01 ∷ xs) k (omega arith, b) (omega arith)))

pub schedule_frame-envelope :
    (device : Device) (sequence size operation : ℕ) (rest : Bytes)
    → IsDevice device
    → IsU16 sequence
    → IsByte size
    → IsByte operation
    → IsBytes rest
    → length rest ≤ 200
    → schedule_frame device sequence size operation rest
      ≡ ok (schedule_datagram device sequence size operation rest)
unfolding schedule_frame
schedule_frame-envelope device sequence size operation rest v n s o b l =
    let c = covered device sequence size operation rest in
    let bytes : IsBytes c =
      (omega arith, (s, (v.wire_byte, (omega arith, (o, (omega (arith, n), (omega arith, b))))))) in
    let crc = crc16_genibus-lt c bytes in
    let all : IsBytes (inner device sequence size operation rest) = (
      omega arith,
      (
        omega arith,
        All-append IsByte c (crc16_genibus c / 256 ∷ crc16_genibus c % 256 ∷ []) bytes
            (omega (arith, crc), (omega arith, tt)),
      ),
    ) in
    rw
      (
        bytes_of-ok (device.wire_type ∷ 0x04 ∷ operation ∷ [])
            (v.wire_byte, (omega arith, (o, tt))),
        to_bytes_2-ok sequence n,
        to_bytes_2-ok (crc16_genibus c) crc,
      )
      (wrap_inner-envelope device sequence (inner device sequence size operation rest) v n all
        (omega (arith, l, length-append c (crc16_genibus c / 256 ∷ crc16_genibus c % 256 ∷ []))))

-- The body of a write of four empty slots, with its length and checksum.
abbrev empty_body : Bytes
empty_body =
    let body = 0x04 ∷ 0x20 ∷ (empty_slot ++ (empty_slot ++ (empty_slot ++ empty_slot))) in
    34 ∷ (body ++ 0x14 ∷ [])

abbrev pub query_datagram : Device → ℕ → Bytes
query_datagram device sequence =
    schedule_datagram device sequence 0x0C 0x0C (0x01 ∷ 0x04 ∷ 0x04 ∷ [])

abbrev pub write_datagram : Device → ℕ → Bytes
write_datagram device sequence = schedule_datagram device sequence 0x2D 0x0B empty_body

-- For a device whose identity is valid a query and a write of empty slots are encoded, with every
-- number of 16 bits, in the documented layout.
pub schedule_datagrams :
    (device : Device) (sequence : ℕ)
    → IsDevice device
    → IsU16 sequence
    → (encode_schedule_query device sequence ≡ ok (query_datagram device sequence))
      × (encode_schedule_write device sequence empty_slots ≡ ok (write_datagram device sequence))
unfolding encode_schedule_query encode_schedule_write sum
schedule_datagrams device sequence v n = (
  schedule_frame-envelope device sequence 0x0C 0x0C (0x01 ∷ 0x04 ∷ 0x04 ∷ []) v n (omega arith)
      (omega arith) (omega arith) (omega arith),
  schedule_frame-envelope device sequence 0x2D 0x0B empty_body v n (omega arith) (omega arith)
      (omega arith) (omega arith),
)
