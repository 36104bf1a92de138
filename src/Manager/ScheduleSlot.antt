-- ===== src/Manager/ScheduleSlot.antt =====
-- The schedule slots of tools/352air_schedule_manager.py. A time of day is the pair that `parse_time` makes of its text, and that the text of `decode_time` shows.
use ha_352air_legacy_local.Base.{
  ℕ, ◌+◌, ◌*◌, ◌/◌, ◌%◌, ◌≤◌, ◌≡◌, Bool, true, false, Option, none, some, [], ◌∷◌, ◌++◌, ◌==◌, ltb,
  ◌&&◌, ◌||◌, not, if◌then◌else◌, drop, Result, ok, schedule_error, ◌>>=◌, ◌>>◌, require,
}
use ha_352air_legacy_local.Base.Bytes.{Bytes, at, bytes_of}
use ha_352air_legacy_local.Schedule.{slot_is_empty}
use ha_352air_legacy_local.Manager.{make_slot}

pub record Time : Type 0 where
  pub hour : ℕ
  pub minute : ℕ

-- What `parse_time` lets through.
abbrev pub IsTime : Option Time → Type 0
IsTime none = Unit {0}
IsTime (some t) = (t.hour ≤ 23) × (t.minute ≤ 59)

-- bcd_encode; the shifted number ends in four zeros, so that `|` adds.
unfoldable pub bcd_encode : ℕ → ℕ
bcd_encode value = value / 10 * 16 + value % 10

-- bcd_decode
unfoldable pub bcd_decode : ℕ → Result ℕ
bcd_decode value =
    require (not (ltb 9 (value / 16) || ltb 9 (value % 16))) schedule_error
    >> ok (value / 16 * 10 + value % 16)

-- encode_time
unfoldable pub encode_time : Option Time → Result Bytes
encode_time none = ok (0xFF ∷ 0xFF ∷ [])
encode_time (some t) = bytes_of (bcd_encode t.hour ∷ bcd_encode t.minute ∷ [])

-- decode_time
unfoldable pub decode_time : ℕ → ℕ → Result (Option Time)
decode_time hour minute = if hour == 0xFF || minute == 0xFF then ok none else (do
  decoded_hour ← bcd_decode hour
  decoded_minute ← bcd_decode minute
  require (not (ltb 23 decoded_hour || ltb 59 decoded_minute)) schedule_error
  ok (some (record { hour = decoded_hour; minute = decoded_minute })))

-- ScheduleSlot.empty is the integration's `_slot_is_empty`, of the same expression.
-- ScheduleSlot.enabled
unfoldable pub enabled : Bytes → Result Bool
enabled raw = at raw 0 >>= λ flags. ok (not (slot_is_empty raw) && flags / 0x80 % 2 == 1)

-- ScheduleSlot.days_mask
unfoldable pub days_mask : Bytes → Result ℕ
days_mask raw = at raw 0 >>= λ flags. ok (flags % 0x80)

-- ScheduleSlot.turn_on and ScheduleSlot.turn_off
unfoldable pub turn_on : Bytes → Result (Option Time)
turn_on raw =
    if slot_is_empty raw
    then ok none
    else (do hour ← at raw 1; minute ← at raw 2; decode_time hour minute)

unfoldable pub turn_off : Bytes → Result (Option Time)
turn_off raw =
    if slot_is_empty raw
    then ok none
    else (do hour ← at raw 3; minute ← at raw 4; decode_time hour minute)

-- n | 0x80
abbrev with_top_bit : ℕ → ℕ
with_top_bit n = if n / 0x80 % 2 == 1 then n else n + 0x80

-- ScheduleSlot.with_enabled
unfoldable pub with_enabled : Bytes → Bool → Result Bytes
with_enabled raw on = do
  require (not (slot_is_empty raw)) schedule_error
  flags ← at raw 0
  first ← bytes_of ((if on then with_top_bit (flags % 0x80) else flags % 0x80) ∷ [])
  make_slot (first ++ drop 1 raw)

-- Whether both times are None.
abbrev pub both_none : Option Time → Option Time → Bool
both_none none none = true
both_none _ _ = false

-- ScheduleSlot.configured
unfoldable pub configured : Option Time → Option Time → ℕ → Bool → Result Bytes
configured start end days on = do
  require (not (both_none start end)) schedule_error
  flag ← bytes_of ((if on then with_top_bit days else days) ∷ [])
  first ← encode_time start
  last ← encode_time end
  make_slot (flag ++ (first ++ (last ++ 0x00 ∷ 0x00 ∷ 0x00 ∷ [])))

-- What a slot shows: its switch, its days and its two times.
abbrev pub Shows : Bytes → Option Time → Option Time → ℕ → Bool → Type 0
Shows raw start end days on =
    (slot_is_empty raw ≡ false)
    × (enabled raw ≡ ok on)
    × (days_mask raw ≡ ok days)
    × (turn_on raw ≡ ok start)
    × (turn_off raw ≡ ok end)
