-- ===== src/Manager/Agreement.antt =====
-- The reading of a schedule reply by tools/352air_schedule_manager.py against the integration's.
use ha_352air_legacy_local.Base.{
  ℕ, ◌+◌, ◌-◌, ◌≤◌, ◌≡◌, none, some, inl, inr, false, ◌==◌, ltb, ◌||◌, not, length, length-take,
  length-drop, take, drop, ok, arith, dec_lt, Bool-cases,
}
use ha_352air_legacy_local.Base.Bytes.{
  Bytes, IsBytes, at, at-get_or, slice, int_from_bytes, int_from_bytes_pair,
}
use ha_352air_legacy_local.Models.State.{Endpoint}
use ha_352air_legacy_local.Outer.RoundTrip.{header-cases}
use ha_352air_legacy_local.Outer.Headers.{
  Header, header_bytes, header_frame, Header-exists, Framed, short_rejected,
}
use ha_352air_legacy_local.Schedule.{
  Device, slot_at, read_slots, check_inner, check_length, check_outer, decode_schedule_response,
}
use ha_352air_legacy_local.Manager.{
  make_slot, response_slots, read_response, response_declared, response_payload,
  parse_outer_payload, parse_schedule_response,
}

-- Eight bytes from a place that a frame of 47 bytes reaches.
length-slot_at :
    (inner : Bytes) (start : ℕ) → start ≤ 39 → 47 ≤ length inner → length (slot_at inner start) ≡ 8
length-slot_at inner start s l =
    omega (arith, length-take (start + 8 - start) (drop start inner), length-drop start inner)

slots_agree : (inner : Bytes) → 47 ≤ length inner → response_slots inner ≡ ok (read_slots inner)
unfolding response_slots read_slots make_slot
slots_agree inner l = ground (
  arith,
  length-slot_at inner 12 (omega arith) l,
  length-slot_at inner 20 (omega arith) l,
  length-slot_at inner 28 (omega arith) l,
  length-slot_at inner 36 (omega arith) l,
)

inner_agree :
    (device : Device) (inner : Bytes)
    → 47 ≤ length inner
    → read_response device inner ≡ check_inner device inner
unfolding read_response check_inner
inner_agree device inner l =
    rw
      (
        at-get_or inner 4 (omega arith),
        at-get_or inner 5 (omega arith),
        at-get_or inner 6 (omega arith),
      )
      (ground (arith, slots_agree inner l))

length_agree :
    (device : Device) (inner : Bytes) → response_declared device inner ≡ check_length device inner
unfolding response_declared check_length
length_agree device inner =
    let declared = int_from_bytes (slice inner 2 4) + 2 in
    elim (dec_lt (length inner) 47) [
      | yes short ↦ ground arith
      | no long ↦ elim (Bool-cases (ltb declared 47 || ltb (length inner) declared)) [
        | inl off ↦ ground arith
        | inr fits ↦
            let reach : 47 ≤ length (take declared inner) =
              omega (arith, length-take declared inner, reaches declared (length inner) fits) in
            ground (arith, inner_agree device (take declared inner) reach)
      ]
    ]
  where
    reaches :
        (declared size : ℕ)
        → (ltb declared 47 || ltb size declared) ≡ false
        → (47 ≤ declared) × (declared ≤ size)
    reaches declared size e = ground arith

payload_agree :
    (device : Device) (h : Header)
    → response_payload device (header_bytes h) (some h.rest) ≡ check_outer device (header_frame h)
unfolding response_payload check_outer at
payload_agree device h = elim (dec_lt (length h.rest) 48) [
  | yes short ↦ ground arith
  | no long ↦
      rw (at-get_or h.rest 0 (omega arith))
        (ground (arith, int_from_bytes_pair h.a0 h.a1, length_agree device (drop 1 h.rest)))
]

pub parse_outer_payload-Framed :
    (h : Header) → Framed h → parse_outer_payload (header_bytes h) ≡ ok (some h.rest)
unfolding parse_outer_payload at
parse_outer_payload-Framed h fr = ground arith

pub parse_outer_payload_unframed :
    (h : Header) → ¬ Framed h → parse_outer_payload (header_bytes h) ≡ ok none
unfolding parse_outer_payload at
parse_outer_payload_unframed h off =
    elim (Bool-cases (not (h.b0 == 0xA1) || not (h.b9 == 0x00) || ltb h.b8 7)) [
      | inl bad ↦ ground arith
      | inr good ↦ elim (Bool-cases (not (length (header_bytes h) == 16 + (h.b8 - 7)))) [
        | inl long ↦ ground arith
        | inr same ↦ absurd (off (marks good same))
      ]
    ]
  where
    marks :
        (not (h.b0 == 0xA1) || not (h.b9 == 0x00) || ltb h.b8 7) ≡ false
        → not (length (header_bytes h) == 16 + (h.b8 - 7)) ≡ false
        → Framed h
    marks good same = ground arith

header_agree :
    (device : Device) (h : Header) (address : Endpoint)
    → IsBytes (header_bytes h)
    → parse_schedule_response (header_bytes h) address device
      ≡ decode_schedule_response (header_bytes h) address device
unfolding parse_schedule_response decode_schedule_response response_payload
header_agree device h address b = elim (header-cases h b) [
  | inl (fr, e) ↦ ground (arith, e, parse_outer_payload-Framed h fr, payload_agree device h)
  | inr (off, (r, e)) ↦ ground (arith, e, parse_outer_payload_unframed h off)
]

split_agree :
    (device : Device) (datagram : Bytes) (address : Endpoint)
    → IsBytes datagram
    → (h : Header) × (datagram ≡ header_bytes h)
    → parse_schedule_response datagram address device
      ≡ decode_schedule_response datagram address device
split_agree device datagram address b (h, q) = rw q (header_agree device h address (rw q at b))

-- The tool takes a datagram for a schedule reply of a device, and reads its four slots, exactly as
-- the integration's cleanup does.
pub parse_schedule_response-decode_schedule_response :
    (device : Device) (datagram : Bytes) (address : Endpoint)
    → IsBytes datagram
    → parse_schedule_response datagram address device
      ≡ decode_schedule_response datagram address device
unfolding parse_schedule_response decode_schedule_response parse_outer_payload response_payload
parse_schedule_response-decode_schedule_response device datagram address b =
    elim (dec_lt (length datagram) 16) [
      | yes short ↦ ground (arith, short_rejected datagram short)
      | no long ↦ split_agree device datagram address b (Header-exists datagram (omega arith))
    ]
