-- ===== src/Schedule/Cleanup.antt =====
-- `_async_query_schedules` and `async_clear_local_schedules` of schedule.py. The replies that the
-- receiver hands over between a query and its deadline are given as a list for each attempt, counted
-- down to 0. The two messages of the error are one, and the socket's own errors are left out.
use ha_352air_legacy_local.Base.{
  ℕ, zero, suc, ◌+◌, ◌%◌, Bool, true, false, Option, none, some, List, [], ◌∷◌, ◌++◌, not, ◌&&◌,
  ◌||◌, if◌then◌else◌, Result, ok, err, schedule_cleanup,
}
use ha_352air_legacy_local.Base.Bytes.{Bytes}
use ha_352air_legacy_local.Schedule.{
  Device, Slots, empty_slot, slot_is_empty, schedule_cleanup_supported, encode_schedule_query,
  encode_schedule_write,
}

-- The counter behind `next_sequence`, and the datagrams sent so far.
pub record Progress : Type 0 where
  pub sequence : ℕ
  pub sent : List Bytes

abbrev pub next_sequence : Progress → ℕ
next_sequence p = (p.sequence + 1) % 65536

-- After `endpoint.sendto` of what was encoded with the next number.
abbrev pub sent_next : Progress → Bytes → Progress
sent_next p datagram = record { sequence = next_sequence p; sent = p.sent ++ datagram ∷ [] }

-- `all(_slot_is_empty(slot) for slot in slots)`
abbrev pub all_empty : Slots → Bool
all_empty s =
    slot_is_empty s.first
    && slot_is_empty s.second
    && slot_is_empty s.third
    && slot_is_empty s.fourth

-- The first reply that is taken before the deadline.
unfoldable pub first_taken : Bool → List Slots → Option Slots
first_taken require_empty [] = none
first_taken require_empty (s ∷ rest) =
    if not require_empty || all_empty s then some s else first_taken require_empty rest

unfoldable pub query_attempts :
    Device → Bool → ℕ → (ℕ → List Slots) → Progress → Progress × Result Slots
query_attempts device require_empty zero replies p = (p, err schedule_cleanup)
query_attempts device require_empty (suc left) replies p =
    let later = query_attempts device require_empty left replies in
    elim (encode_schedule_query device (next_sequence p)) [
      | err e ↦ (record p { sequence = next_sequence p }, err e)
      | ok datagram ↦
          let asked = sent_next p datagram in
          elim (first_taken require_empty (replies left)) [
            | some s ↦ (asked, ok s)
            | none ↦ later asked
          ]
    ]

-- _async_query_schedules, with _QUERY_ATTEMPTS of 3.
unfoldable pub query_schedules :
    Device → Bool → (ℕ → List Slots) → Progress → Progress × Result Slots
unfolding query_attempts
query_schedules device require_empty replies p = query_attempts device require_empty 3 replies p

abbrev pub empty_slots : Slots
empty_slots = record {
  first = empty_slot;
  second = empty_slot;
  third = empty_slot;
  fourth = empty_slot;
}

-- `not _slot_is_empty(slot)`, as a number.
abbrev occupied : Bytes → ℕ
occupied slot = if slot_is_empty slot then 0 else 1

abbrev pub configured_slots : Slots → ℕ
configured_slots s = occupied s.first + occupied s.second + occupied s.third + occupied s.fourth

abbrev pub and_then :
    Progress × Result Slots → (Slots → Progress → Progress × Result ℕ) → Progress × Result ℕ
and_then (p, err e) next = (p, err e)
and_then (p, ok s) next = next s p

-- From the write on; the replies to the two queries behind it.
unfoldable pub write_and_verify :
    Device → (ℕ → List Slots) → (ℕ → List Slots) → Slots → Progress → Progress × Result ℕ
write_and_verify device second third previous p =
    elim (encode_schedule_write device (next_sequence p) empty_slots) [
      | err e ↦ (record p { sequence = next_sequence p }, err e)
      | ok datagram ↦
          let written = sent_next p datagram in
          and_then (query_schedules device true second written) (λ _ q.
            and_then (query_schedules device true third q)
              (λ _ r. (r, ok (configured_slots previous))))
    ]

-- async_clear_local_schedules; `start` is the clock's number.
unfoldable pub clear_local_schedules :
    Device → (ℕ → List Slots) → (ℕ → List Slots) → (ℕ → List Slots) → ℕ → Progress × Result ℕ
clear_local_schedules device first second third start =
    let fresh : Progress = record { sequence = start % 65536; sent = [] } in
    if schedule_cleanup_supported device.wire_type
    then and_then (query_schedules device false first fresh) (write_and_verify device second third)
    else (fresh, err schedule_cleanup)
