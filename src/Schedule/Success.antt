-- ===== src/Schedule/Success.antt =====
-- A device that answers is cleaned up.
use ha_352air_legacy_local.Base.{
  ℕ, zero, suc, ◌%◌, ◌<◌, ◌≡◌, refl, inl, inr, Bool, true, false, none, some, List, [], Result, ok,
  arith, ap, ◌∙◌, ℕ_discrete, Option-cases,
}
use ha_352air_legacy_local.Schedule.{Device, Slots, schedule_cleanup_supported}
use ha_352air_legacy_local.Schedule.Cleanup.{
  Progress, next_sequence, sent_next, first_taken, query_attempts, query_schedules,
  configured_slots, and_then, write_and_verify, clear_local_schedules,
}
use ha_352air_legacy_local.Schedule.Sending.{
  IsDevice, query_datagram, write_datagram, schedule_datagrams,
}

-- One of the attempts gets a reply that is taken.
abbrev pub Answered : Bool → ℕ → (ℕ → List Slots) → Type 0
Answered require_empty left replies =
    (n : ℕ) × (n < left) × ((s : Slots) × (first_taken require_empty (replies n) ≡ some s))

Answered-later :
    (require_empty : Bool) (left : ℕ) (replies : ℕ → List Slots)
    → first_taken require_empty (replies left) ≡ none
    → Answered require_empty (suc left) replies
    → Answered require_empty left replies
Answered-later require_empty left replies e (n, l, (s, t)) = elim (ℕ_discrete n left) [
  | yes same ↦ absurd (ground (arith, ap (λ k. first_taken require_empty (replies k)) same))
  | no other ↦ (n, omega arith, (s, t))
]

query_attempts-Answered :
    (device : Device) (require_empty : Bool) (left : ℕ) (replies : ℕ → List Slots) (p : Progress)
    → IsDevice device
    → Answered require_empty left replies
    → (s : Slots) × ((query_attempts device require_empty left replies p).1 ≡ ok s)
unfolding query_attempts
query_attempts-Answered device require_empty zero replies p v (n, l, _) = absurd (omega arith)
query_attempts-Answered device require_empty (suc left) replies p v a =
    let q = (schedule_datagrams device (next_sequence p) v (omega arith)).0 in
    elim (Option-cases (first_taken require_empty (replies left))) [
      | inr (s, t) ↦ (s, rw (query_attempts, q, t) refl)
      | inl n ↦
          let asked = sent_next p (query_datagram device (next_sequence p)) in
          let (s, r) =
            query_attempts-Answered device require_empty left replies asked v
              (Answered-later require_empty left replies n a) in
          (s, rw (query_attempts, q, n) r)
    ]

and_then_ok :
    (x : Progress × Result Slots) (next : Slots → Progress → Progress × Result ℕ) (s : Slots)
    → x.1 ≡ ok s
    → and_then x next ≡ next s x.0
and_then_ok (p, r) next s e = rw e refl

verification_succeeds :
    (device : Device) (second third : ℕ → List Slots) (previous : Slots) (p : Progress)
    → IsDevice device
    → Answered true 3 second
    → Answered true 3 third
    → (removed : ℕ) × ((write_and_verify device second third previous p).1 ≡ ok removed)
unfolding write_and_verify query_schedules
verification_succeeds device second third previous p v b c =
    let write = (schedule_datagrams device (next_sequence p) v (omega arith)).1 in
    let written = sent_next p (write_datagram device (next_sequence p)) in
    let (once, verified) = query_attempts-Answered device true 3 second written v b in
    let q = (query_attempts device true 3 second written).0 in
    let (twice, again) = query_attempts-Answered device true 3 third q v c in
    let second_read : Slots → Progress → Progress × Result ℕ = λ _ q.
      and_then (query_schedules device true third q) (λ _ r. (r, ok (configured_slots previous))) in
    (
      configured_slots previous,
      rw (write_and_verify, write)
          (ap (λ x. x.1)
            (and_then_ok (query_schedules device true second written) second_read once verified
              ∙ and_then_ok (query_schedules device true third q)
                  (λ _ r. (r, ok (configured_slots previous))) twice again)),
    )

-- If the device has a valid identity and a schedule, and each of the three reads gets in one of its
-- attempts a reply that it takes (behind the write, one with four empty slots), the cleanup succeeds.
pub clear_local_schedules_succeeds :
    (device : Device) (first second third : ℕ → List Slots) (start : ℕ)
    → IsDevice device
    → schedule_cleanup_supported device.wire_type ≡ true
    → Answered false 3 first
    → Answered true 3 second
    → Answered true 3 third
    → (removed : ℕ) × ((clear_local_schedules device first second third start).1 ≡ ok removed)
unfolding clear_local_schedules query_schedules
clear_local_schedules_succeeds device first second third start v y a b c =
    let fresh : Progress = record { sequence = start % 65536; sent = [] } in
    let (previous, read) = query_attempts-Answered device false 3 first fresh v a in
    let (removed, done) =
      verification_succeeds device second third previous
        (query_attempts device false 3 first fresh).0 v b c in
    (
      removed,
      rw (clear_local_schedules, y)
          (ap (λ x. x.1)
              (and_then_ok (query_schedules device false first fresh)
                (write_and_verify device second third) previous read)
            ∙ done),
    )
