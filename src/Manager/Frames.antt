-- ===== src/Manager/Frames.antt =====
-- The schedule frames of tools/352air_schedule_manager.py against the integration's.
use ha_352air_legacy_local.Base.{
  ℕ, ◌+◌, ◌/◌, ◌%◌, ◌≤◌, ◌≡◌, refl, [], ◌∷◌, ◌++◌, length, length-append, All-append, ok, arith,
}
use ha_352air_legacy_local.Base.Bytes.{
  Bytes, IsBytes, IsByte, IsU16, bytes_of-ok, to_bytes_2-ok, sum,
}
use ha_352air_legacy_local.Crc.{crc16_genibus}
use ha_352air_legacy_local.Crc.Detection.{crc16_genibus-lt}
use ha_352air_legacy_local.Schedule.{Device, Slots, encode_schedule_query, encode_schedule_write}
use ha_352air_legacy_local.Schedule.Sending.{
  IsDevice, covered, inner, schedule_datagram, schedule_frame-envelope,
}
use ha_352air_legacy_local.Manager.{wrap_packet, schedule_query_packet, schedule_write_packet}

wrap_packet-schedule_datagram :
    (device : Device) (sequence size operation : ℕ) (rest : Bytes)
    → IsDevice device
    → IsU16 sequence
    → length rest ≤ 200
    → wrap_packet device sequence (inner device sequence size operation rest)
      ≡ ok (schedule_datagram device sequence size operation rest)
unfolding wrap_packet
wrap_packet-schedule_datagram device sequence size operation rest v n l =
    let xs = inner device sequence size operation rest in
    let c = covered device sequence size operation rest in
    rw
      (
        bytes_of-ok ((length (0x01 ∷ xs) + 7) ∷ 0 ∷ []) (
          omega (arith, l, length-append c (crc16_genibus c / 256 ∷ crc16_genibus c % 256 ∷ [])),
          (omega arith, tt),
        ),
        to_bytes_2-ok sequence n,
        bytes_of-ok (device.company ∷ device.wire_type ∷ []) (v.company_byte, (v.wire_byte, tt)),
        to_bytes_2-ok device.auth v.auth_u16,
      )
      refl

query_sent :
    (device : Device) (sequence : ℕ)
    → IsDevice device
    → IsU16 sequence
    → schedule_query_packet device sequence
      ≡ ok (schedule_datagram device sequence 0x0C 0x0C (0x01 ∷ 0x04 ∷ 0x04 ∷ []))
unfolding schedule_query_packet
query_sent device sequence v n =
    let rest = 0x01 ∷ 0x04 ∷ 0x04 ∷ [] in
    let c = covered device sequence 0x0C 0x0C rest in
    let bytes : IsBytes c = omega (arith, n, v.wire_byte) in
    rw
      (
        bytes_of-ok (device.wire_type ∷ 0x04 ∷ 0x0C ∷ [])
            (v.wire_byte, (omega arith, (omega arith, tt))),
        to_bytes_2-ok sequence n,
        to_bytes_2-ok (crc16_genibus c) (crc16_genibus-lt c bytes),
      )
      (wrap_packet-schedule_datagram device sequence 0x0C 0x0C rest v n (omega arith))

abbrev pub IsSlot : Bytes → Type 0
IsSlot slot = (length slot ≡ 8) × IsBytes slot

abbrev pub AreSlots : Slots → Type 0
AreSlots s = IsSlot s.first × IsSlot s.second × IsSlot s.third × IsSlot s.fourth

abbrev body : Slots → Bytes
body s = 0x04 ∷ 0x20 ∷ (s.first ++ (s.second ++ (s.third ++ s.fourth)))

abbrev body_rest : Slots → Bytes
body_rest s = length (body s) ∷ (body s ++ sum (body s) % 256 ∷ [])

length-body : (s : Slots) → AreSlots s → length (body s) ≡ 34
length-body s (a, b, c, d) = omega (
  arith,
  length-append s.first (s.second ++ (s.third ++ s.fourth)),
  length-append s.second (s.third ++ s.fourth),
  length-append s.third s.fourth,
)

body-IsBytes : (s : Slots) → AreSlots s → IsBytes (body s)
body-IsBytes s (a, b, c, d) = (
  omega arith,
  (
    omega arith,
    All-append IsByte s.first _ a.1
        (All-append IsByte s.second _ b.1 (All-append IsByte s.third s.fourth c.1 d.1)),
  ),
)

body_rest-IsBytes : (s : Slots) → AreSlots s → IsBytes (body_rest s) × (length (body_rest s) ≡ 36)
body_rest-IsBytes s four =
    let l = length-body s four in
    (
      (
        omega (arith, l),
        All-append IsByte (body s) (sum (body s) % 256 ∷ []) (body-IsBytes s four)
            (omega arith, tt),
      ),
      omega (arith, l, length-append (body s) (sum (body s) % 256 ∷ [])),
    )

write_sent :
    (device : Device) (sequence : ℕ) (s : Slots)
    → IsDevice device
    → IsU16 sequence
    → AreSlots s
    → schedule_write_packet device sequence s
      ≡ ok (schedule_datagram device sequence 0x2D 0x0B (body_rest s))
unfolding schedule_write_packet
write_sent device sequence s v n four =
    let c = covered device sequence 0x2D 0x0B (body_rest s) in
    let (b, l) = body_rest-IsBytes s four in
    let bytes : IsBytes c = (
      omega arith,
      (
        omega arith,
        (v.wire_byte, (omega arith, (omega arith, (omega (arith, n), (omega arith, b))))),
      ),
    ) in
    rw
      (
        bytes_of-ok (device.wire_type ∷ 0x04 ∷ 0x0B ∷ [])
            (v.wire_byte, (omega arith, (omega arith, tt))),
        to_bytes_2-ok sequence n,
        to_bytes_2-ok (crc16_genibus c) (crc16_genibus-lt c bytes),
      )
      (wrap_packet-schedule_datagram device sequence 0x2D 0x0B (body_rest s) v n (omega (arith, l)))

encoded_query :
    (device : Device) (sequence : ℕ)
    → IsDevice device
    → IsU16 sequence
    → encode_schedule_query device sequence
      ≡ ok (schedule_datagram device sequence 0x0C 0x0C (0x01 ∷ 0x04 ∷ 0x04 ∷ []))
unfolding encode_schedule_query
encoded_query device sequence v n =
    schedule_frame-envelope device sequence 0x0C 0x0C (0x01 ∷ 0x04 ∷ 0x04 ∷ []) v n (omega arith)
      (omega arith) (omega arith) (omega arith)

encoded_write :
    (device : Device) (sequence : ℕ) (s : Slots)
    → IsDevice device
    → IsU16 sequence
    → AreSlots s
    → encode_schedule_write device sequence s
      ≡ ok (schedule_datagram device sequence 0x2D 0x0B (body_rest s))
unfolding encode_schedule_write
encoded_write device sequence s v n four =
    let (b, l) = body_rest-IsBytes s four in
    rw (four.0.0, four.1.0, four.2.0, four.3.0)
      (schedule_frame-envelope device sequence 0x2D 0x0B (body_rest s) v n (omega arith)
        (omega arith) b (omega (arith, l)))

-- For a device with a valid identity and a number of 16 bits, the tool's schedule query and its
-- write of four slots of eight bytes are sent, and are the frames that the integration sends.
pub schedule_packets_agree :
    (device : Device) (sequence : ℕ) (s : Slots)
    → IsDevice device
    → IsU16 sequence
    → AreSlots s
    → ((datagram : Bytes) × (schedule_query_packet device sequence ≡ ok datagram)
        × (encode_schedule_query device sequence ≡ ok datagram))
      × ((datagram : Bytes) × (schedule_write_packet device sequence s ≡ ok datagram)
          × (encode_schedule_write device sequence s ≡ ok datagram))
schedule_packets_agree device sequence s v n four = (
  (_, query_sent device sequence v n, encoded_query device sequence v n),
  (_, write_sent device sequence s v n four, encoded_write device sequence s v n four),
)
