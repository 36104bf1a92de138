-- ===== src/Manager/Times.antt =====
-- Configuring and switching the slots of tools/352air_schedule_manager.py.
use ha_352air_legacy_local.Base.{
  ℕ, ◌+◌, ◌%◌, ◌≤◌, ◌≡◌, refl, Bool, true, false, Option, none, some, [], ◌∷◌, ◌++◌, if◌then◌else◌,
  length, ok, arith,
}
use ha_352air_legacy_local.Base.Bytes.{Bytes, at, bytes_of, bytes_eq}
use ha_352air_legacy_local.Schedule.{slot_is_empty}
use ha_352air_legacy_local.Manager.{make_slot}
use ha_352air_legacy_local.Manager.ScheduleSlot.{
  Time, IsTime, bcd_encode, bcd_decode, encode_time, decode_time, enabled, days_mask, turn_on,
  turn_off, with_enabled, both_none, configured, Shows,
}

bcd_decode-bcd_encode : (n : ℕ) → n ≤ 99 → bcd_decode (bcd_encode n) ≡ ok n
unfolding bcd_decode bcd_encode
bcd_decode-bcd_encode n h = ground arith

decode_time-bcd_encode :
    (t : Time)
    → IsTime (some t)
    → decode_time (bcd_encode t.hour) (bcd_encode t.minute) ≡ ok (some t)
unfolding decode_time bcd_encode bcd_decode
decode_time-bcd_encode t h = ground (
  arith,
  bcd_decode-bcd_encode t.hour (omega arith),
  bcd_decode-bcd_encode t.minute (omega arith),
)

abbrev time_bytes : Option Time → Bytes
time_bytes none = 0xFF ∷ 0xFF ∷ []
time_bytes (some t) = bcd_encode t.hour ∷ bcd_encode t.minute ∷ []

encode_time-ok : (time : Option Time) → IsTime time → encode_time time ≡ ok (time_bytes time)
unfolding encode_time bytes_of bcd_encode
encode_time-ok none h = refl
encode_time-ok (some t) h = ground arith

abbrev flags : ℕ → Bool → ℕ
flags days on = if on then days + 0x80 else days

abbrev slot_bytes : Option Time → Option Time → ℕ → Bool → Bytes
slot_bytes start end days on =
    flags days on ∷ (time_bytes start ++ (time_bytes end ++ 0x00 ∷ 0x00 ∷ 0x00 ∷ []))

length-slot_bytes :
    (start end : Option Time) (days : ℕ) (on : Bool) → length (slot_bytes start end days on) ≡ 8
length-slot_bytes none none days on = refl
length-slot_bytes none (some b) days on = refl
length-slot_bytes (some a) none days on = refl
length-slot_bytes (some a) (some b) days on = refl

configured-ok :
    (start end : Option Time) (days : ℕ) (on : Bool)
    → IsTime start
    → IsTime end
    → both_none start end ≡ false
    → days ≤ 127
    → configured start end days on ≡ ok (slot_bytes start end days on)
unfolding configured make_slot bytes_of
configured-ok start end days true s e n d =
    ground
      (arith, encode_time-ok start s, encode_time-ok end e, length-slot_bytes start end days true)
configured-ok start end days false s e n d =
    ground
      (arith, encode_time-ok start s, encode_time-ok end e, length-slot_bytes start end days false)

slot_bytes-full :
    (start end : Option Time) (days : ℕ) (on : Bool)
    → IsTime start
    → IsTime end
    → both_none start end ≡ false
    → 1 ≤ days
    → slot_is_empty (slot_bytes start end days on) ≡ false
unfolding slot_is_empty bytes_eq bcd_encode
slot_bytes-full none none days on s e n d = cc
slot_bytes-full none (some b) days on s e n d = ground arith
slot_bytes-full (some a) none days on s e n d = ground arith
slot_bytes-full (some a) (some b) days on s e n d = ground arith

start_decodes :
    (start end : Option Time) (days : ℕ) (on : Bool)
    → IsTime start
    → slot_is_empty (slot_bytes start end days on) ≡ false
    → turn_on (slot_bytes start end days on) ≡ ok start
unfolding turn_on at decode_time
start_decodes none end days on s e = ground arith
start_decodes (some a) end days on s e = ground (arith, decode_time-bcd_encode a s)

end_decodes :
    (start end : Option Time) (days : ℕ) (on : Bool)
    → IsTime end
    → slot_is_empty (slot_bytes start end days on) ≡ false
    → turn_off (slot_bytes start end days on) ≡ ok end
unfolding turn_off at decode_time
end_decodes none none days on s e = ground arith
end_decodes (some a) none days on s e = ground arith
end_decodes none (some b) days on s e = ground (arith, decode_time-bcd_encode b s)
end_decodes (some a) (some b) days on s e = ground (arith, decode_time-bcd_encode b s)

flags_read :
    (start end : Option Time) (days : ℕ) (on : Bool)
    → days ≤ 127
    → slot_is_empty (slot_bytes start end days on) ≡ false
    → (enabled (slot_bytes start end days on) ≡ ok on)
      × (days_mask (slot_bytes start end days on) ≡ ok days)
unfolding enabled days_mask at
flags_read start end days true d e = (ground arith, ground arith)
flags_read start end days false d e = (ground arith, ground arith)

-- A slot configured with at least one time, at least one day of the seven and a switch shows
-- exactly these: it is not taken for an empty slot, and its times are decoded as they were given.
pub configured-Shows :
    (start end : Option Time) (days : ℕ) (on : Bool)
    → IsTime start
    → IsTime end
    → both_none start end ≡ false
    → 1 ≤ days
    → days ≤ 127
    → (raw : Bytes) × (configured start end days on ≡ ok raw) × Shows raw start end days on
configured-Shows start end days on s e n lo hi =
    let full = slot_bytes-full start end days on s e n lo in
    let (switch, mask) = flags_read start end days on hi full in
    (
      slot_bytes start end days on,
      configured-ok start end days on s e n hi,
      (
        full,
        switch,
        mask,
        start_decodes start end days on s full,
        end_decodes start end days on e full,
      ),
    )

-- A slot that is not empty, under another switch.
switched :
    (a b c d e f g h : ℕ) (on : Bool)
    → slot_is_empty (a ∷ b ∷ c ∷ d ∷ e ∷ f ∷ g ∷ h ∷ []) ≡ false
    → 1 ≤ a % 0x80
    → (slot_is_empty (flags (a % 0x80) on ∷ b ∷ c ∷ d ∷ e ∷ f ∷ g ∷ h ∷ []) ≡ false)
      × (with_enabled (a ∷ b ∷ c ∷ d ∷ e ∷ f ∷ g ∷ h ∷ []) on
          ≡ ok (flags (a % 0x80) on ∷ b ∷ c ∷ d ∷ e ∷ f ∷ g ∷ h ∷ []))
unfolding slot_is_empty with_enabled at bytes_of make_slot
switched a b c d e f g h true q lo = (ground arith, ground arith)
switched a b c d e f g h false q lo = (ground arith, ground arith)

switched-Shows :
    (a b c d e f g h : ℕ) (start end : Option Time) (days : ℕ) (before on : Bool)
    → Shows (a ∷ b ∷ c ∷ d ∷ e ∷ f ∷ g ∷ h ∷ []) start end days before
    → days ≡ a % 0x80
    → 1 ≤ days
    → Shows (flags (a % 0x80) on ∷ b ∷ c ∷ d ∷ e ∷ f ∷ g ∷ h ∷ []) start end days on
unfolding enabled days_mask turn_on turn_off at
switched-Shows a b c d e f g h start end days before true (q, s, m, x, y) n lo =
    let full = (switched a b c d e f g h true q (omega arith)).0 in
    (full, ground arith, ground arith, ground arith, ground arith)
switched-Shows a b c d e f g h start end days before false (q, s, m, x, y) n lo =
    let full = (switched a b c d e f g h false q (omega arith)).0 in
    (full, ground arith, ground arith, ground arith, ground arith)

mask_of : (a days : ℕ) (rest : Bytes) → days_mask (a ∷ rest) ≡ ok days → days ≡ a % 0x80
unfolding days_mask at
mask_of a days rest e = ground arith

-- Switching a slot of at least one day on or off changes its switch and neither its days nor its
-- times, and the slot does not become an empty one.
pub with_enabled-Shows :
    (raw : Bytes) (start end : Option Time) (days : ℕ) (before on : Bool)
    → length raw ≡ 8
    → Shows raw start end days before
    → 1 ≤ days
    → (after : Bytes) × (with_enabled raw on ≡ ok after) × Shows after start end days on
with_enabled-Shows (a ∷ b ∷ c ∷ d ∷ e ∷ f ∷ g ∷ h ∷ []) start end days before on l shown lo =
    let n = mask_of a days (b ∷ c ∷ d ∷ e ∷ f ∷ g ∷ h ∷ []) shown.2 in
    (
      flags (a % 0x80) on ∷ b ∷ c ∷ d ∷ e ∷ f ∷ g ∷ h ∷ [],
      (switched a b c d e f g h on shown.0 (omega (arith, n, lo))).1,
      switched-Shows a b c d e f g h start end days before on shown n lo,
    )
with_enabled-Shows raw start end days before on l shown lo = absurd (omega arith)
