-- ===== src/Schedule/Reading.antt =====
-- Which datagrams are taken for a schedule reply, and that reading one raises nothing.
use ha_352air_legacy_local.Base.{
  ℕ, ◌+◌, ◌≤◌, ◌<◌, ◌≡◌, refl, ◌⊎◌, inl, inr, Bool, true, false, Option, none, some, [], ◌∷◌, ◌==◌,
  ltb, ◌&&◌, ◌||◌, not, one_of, length, length-take, take, drop, get_or, Result, ok, arith,
  Bool-cases, if_elim,
}
use mathlib.Core.Path.{subst}
use ha_352air_legacy_local.Base.Bytes.{
  Bytes, IsBytes, at-get_or, bytes_eq, bytes_eq→eq, int_from_bytes, slice, but_last_two, last_two,
}
use ha_352air_legacy_local.Models.State.{Endpoint}
use ha_352air_legacy_local.Outer.{OuterFrame, Parsed, rejected, frame, parse_outer_frame}
use ha_352air_legacy_local.Outer.Totality.{envelope}
use ha_352air_legacy_local.Outer.RoundTrip.{parse_outer_frame_total, parse_outer_frame_sound}
use ha_352air_legacy_local.Crc.{crc16_genibus}
use ha_352air_legacy_local.Schedule.{
  Device, Slots, udp_port, slot_at, is_slot, read_slots, check_inner, check_length, check_outer,
  from_device, decode_schedule_response,
}

-- The reply's slots are four times eight bytes from the twelfth on, of a frame with a valid checksum.
abbrev pub IsReading : Device → Bytes → Slots → Type 0
IsReading device inner s =
    (s ≡ record {
      first = slot_at inner 12;
      second = slot_at inner 20;
      third = slot_at inner 28;
      fourth = slot_at inner 36;
    })
    × (get_or inner 4 0 ≡ device.wire_type)
    × (crc16_genibus (drop 2 (but_last_two inner)) ≡ int_from_bytes (last_two inner))
    × (length s.first ≡ 8)
    × (length s.second ≡ 8)
    × (length s.third ≡ 8)
    × (length s.fourth ≡ 8)

abbrev Reads : Device → Bytes → Result (Option Slots) → Type 0
Reads device inner r = (r ≡ ok none) ⊎ ((s : Slots) × (r ≡ ok (some s)) × IsReading device inner s)

abbrev slots_of : Bytes → Slots
slots_of inner = record {
  first = slot_at inner 12;
  second = slot_at inner 20;
  third = slot_at inner 28;
  fourth = slot_at inner 36;
}

abbrev all_slots : Bytes → Bool
all_slots inner =
    is_slot (slot_at inner 12)
    && is_slot (slot_at inner 20)
    && is_slot (slot_at inner 28)
    && is_slot (slot_at inner 36)

abbrev FourSlots : Bytes → Type 0
FourSlots inner =
    (length (slot_at inner 12) ≡ 8)
    × (length (slot_at inner 20) ≡ 8)
    × (length (slot_at inner 28) ≡ 8)
    × (length (slot_at inner 36) ≡ 8)

eights :
    (a b c d : ℕ)
    → (a == 8 && b == 8 && c == 8 && d == 8) ≡ true
    → (a ≡ 8) × (b ≡ 8) × (c ≡ 8) × (d ≡ 8)
eights a b c d e = ground arith

read_slots-cases :
    (inner : Bytes)
    → (read_slots inner ≡ none) ⊎ ((read_slots inner ≡ some (slots_of inner)) × FourSlots inner)
unfolding read_slots
read_slots-cases inner = elim (Bool-cases (all_slots inner)) [
  | inl t ↦ inr (rw (read_slots, t) refl, eights _ _ _ _ t)
  | inr t ↦ inl (rw (read_slots, t) refl)
]

abbrev valid : Device → Bytes → Bool
valid device inner =
    get_or inner 4 0 == device.wire_type
    && one_of (get_or inner 5 0) (0x84 ∷ 0x03 ∷ [])
    && get_or inner 6 0 == 0x0C
    && bytes_eq (slice inner 10 12) (0x04 ∷ 0x20 ∷ [])
    && crc16_genibus (drop 2 (but_last_two inner)) == int_from_bytes (last_two inner)

valid_parts :
    (k w c d : ℕ) (x y z : Bool) → (k == w && x && y && z && c == d) ≡ true → (k ≡ w) × (c ≡ d)
valid_parts k w c d x y z e = ground arith

inner-Reads :
    (device : Device) (inner : Bytes)
    → 47 ≤ length inner
    → Reads device inner (check_inner device inner)
unfolding check_inner
inner-Reads device inner l =
    let kind = at-get_or inner 4 (omega arith) in
    let marker = at-get_or inner 5 (omega arith) in
    let operation = at-get_or inner 6 (omega arith) in
    elim (Bool-cases (valid device inner)) [
      | inr t ↦ rw (check_inner, kind, marker, operation, t) (inl refl)
      | inl t ↦
          let (w, crc) = valid_parts _ _ _ _ _ _ _ t in
          elim (read_slots-cases inner) [
            | inl n ↦ rw (check_inner, kind, marker, operation, t, n) (inl refl)
            | inr (r, four) ↦
                rw (check_inner, kind, marker, operation, t, r)
                  (inr (slots_of inner, refl, (refl, w, crc, four.0, four.1, four.2, four.3)))
          ]
    ]

-- The frame's length field says where the reply ends, within the payload.
abbrev ReadsPart : Device → Bytes → Result (Option Slots) → Type 0
ReadsPart device payload r =
    (r ≡ ok none)
    ⊎ ((s : Slots) × (declared : ℕ) × (r ≡ ok (some s))
        × (47 ≤ declared)
        × (declared ≤ length payload)
        × IsReading device (take declared payload) s)

length-ReadsPart :
    (device : Device) (inner : Bytes) → ReadsPart device inner (check_length device inner)
unfolding check_length
length-ReadsPart device inner =
    if_elim (ReadsPart device inner) _ _ _ (λ _. inl refl)
      λ _.
        if_elim (ReadsPart device inner) _ _ _ (λ _. inl refl)
          λ fits. part (int_from_bytes (slice inner 2 4) + 2) (within _ _ fits)
  where
    within :
        (declared size : ℕ)
        → (ltb declared 47 || ltb size declared) ≡ false
        → (47 ≤ declared) × (declared ≤ size)
    within declared size e = ground arith

    part :
        (declared : ℕ)
        → (47 ≤ declared) × (declared ≤ length inner)
        → ReadsPart device inner (check_inner device (take declared inner))
    part declared (lo, hi) =
        elim (inner-Reads device (take declared inner)
          (omega (arith, length-take declared inner))) [
            | inl n ↦ inl n
            | inr (s, r, reading) ↦ inr (s, declared, r, lo, hi, reading)
          ]

abbrev pub FromDevice : Device → OuterFrame → Type 0
FromDevice device f =
    (f.identity.mac ≡ device.mac)
    × (f.identity.company ≡ device.company)
    × (f.identity.wire_type ≡ device.wire_type)
    × (f.identity.auth ≡ device.auth)

from_device-FromDevice :
    (f : OuterFrame) (device : Device) → from_device f device ≡ true → FromDevice device f
from_device-FromDevice f device e = ground (arith, bytes_eq→eq f.identity.mac device.mac)

abbrev pub Accepted : Device → OuterFrame → Result (Option Slots) → Type 0
Accepted device f r =
    (r ≡ ok none)
    ⊎ ((s : Slots) × (declared : ℕ) × (r ≡ ok (some s))
        × FromDevice device f
        × IsReading device (take declared (drop 1 f.payload)) s)

outer-Accepted : (device : Device) (f : OuterFrame) → Accepted device f (check_outer device f)
unfolding check_outer
outer-Accepted device f =
    elim (Bool-cases (not (from_device f device) || ltb (length f.payload) 48)) [
      | inl t ↦ inl (rw (check_outer, t) refl)
      | inr t ↦
          let route = at-get_or f.payload 0 (long (from_device f device) (length f.payload) t).1 in
          let from =
            from_device-FromDevice f device (long (from_device f device) (length f.payload) t).0 in
          rw (check_outer, t, route)
            (if_elim (Accepted device f) _ _ _
              (λ _. accepts from (length-ReadsPart device (drop 1 f.payload))) λ _. inl refl)
    ]
  where
    long : (b : Bool) (n : ℕ) → (not b || ltb n 48) ≡ false → (b ≡ true) × (0 < n)
    long b n e = ground arith

    accepts :
        FromDevice device f
        → ReadsPart device (drop 1 f.payload) (check_length device (drop 1 f.payload))
        → Accepted device f (check_length device (drop 1 f.payload))
    accepts from (inl n) = inl n
    accepts from (inr (s, declared, r, lo, hi, reading)) = inr (s, declared, r, from, reading)

parsed_read :
    (device : Device) (datagram : Bytes) (source : Endpoint) (p : Parsed)
    → IsBytes datagram
    → bytes_eq source.host device.host ≡ true
    → source.port ≡ udp_port
    → parse_outer_frame datagram ≡ ok p
    → (decode_schedule_response datagram source device ≡ ok none)
      ⊎ ((f : OuterFrame) × (datagram ≡ envelope f)
          × Accepted device f (decode_schedule_response datagram source device))
unfolding decode_schedule_response
parsed_read device datagram source (rejected _) b h p e = inl (ground arith)
parsed_read device datagram source (frame f) b h p e = inr (
  f,
  (parse_outer_frame_sound datagram f b e).1,
  subst (Accepted device f) (ground arith) (outer-Accepted device f),
)

-- On any datagram of bytes the receiver raises nothing. Slots are only taken from the device's own
-- address and port, out of a frame with its MAC, company, wire type and auth; they are the four times
-- eight bytes of a part of the payload whose checksum is valid.
pub decode_schedule_response_outcome :
    (device : Device) (datagram : Bytes) (source : Endpoint)
    → IsBytes datagram
    → (decode_schedule_response datagram source device ≡ ok none)
      ⊎ ((source.host ≡ device.host)
          × (source.port ≡ udp_port)
          × ((f : OuterFrame) × (datagram ≡ envelope f)
              × Accepted device f (decode_schedule_response datagram source device)))
unfolding decode_schedule_response
decode_schedule_response_outcome device datagram source b =
    elim (Bool-cases (bytes_eq source.host device.host && source.port == udp_port)) [
      | inr t ↦ inl (rw (decode_schedule_response, t) refl)
      | inl t ↦
          let (p, e, _) = parse_outer_frame_total datagram b in
          let (h, port) = both (bytes_eq source.host device.host) source.port t in
          elim (parsed_read device datagram source p b h port e) [
            | inl n ↦ inl n
            | inr found ↦ inr (bytes_eq→eq source.host device.host h, port, found)
          ]
    ]
  where
    both : (x : Bool) (n : ℕ) → (x && n == udp_port) ≡ true → (x ≡ true) × (n ≡ udp_port)
    both x n e = ground arith
