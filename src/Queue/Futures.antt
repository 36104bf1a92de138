-- ===== src/Queue/Futures.antt =====
-- The results of futures: each is set once, by whoever comes first.
use ha_352air_legacy_local.Base.{
  ℕ_discrete, Bool-cases, Option-cases, ℕ, ◌≡◌, inl, inr, Bool, true, false, List, [], ◌∷◌, ◌||◌,
  some, Result, err, client_closed, arith, one_of,
}
use ha_352air_legacy_local.Models.State.{DeviceState}
use ha_352air_legacy_local.Queue.{QueuedCommand, is_done, outcome_of, set_one, set_all, fail_queued}

-- The future waits for a command in the queue.
abbrev pub waits : ℕ → List QueuedCommand → Bool
waits future [] = false
waits future (q ∷ rest) = one_of future q.waiters || waits future rest

-- A result once set stays.
set_one_keeps :
    (w : ℕ) (outcome : Result DeviceState) (outcomes : List (ℕ × Result DeviceState)) (future : ℕ)
    {r : Result DeviceState}
    → outcome_of future outcomes ≡ some r
    → outcome_of future (set_one w outcome outcomes) ≡ some r
unfolding set_one outcome_of
set_one_keeps w outcome outcomes future h = ground arith

set_one_sets :
    (w : ℕ) (outcome : Result DeviceState) (outcomes : List (ℕ × Result DeviceState))
    → (r : Result DeviceState) × (outcome_of w (set_one w outcome outcomes) ≡ some r)
unfolding set_one outcome_of
set_one_sets w outcome outcomes = elim (Option-cases (outcome_of w outcomes)) [
  | inl n ↦ (outcome, ground arith)
  | inr (r, e) ↦ (r, ground arith)
]

pub set_all_keeps :
    (waiters : List ℕ) (outcome : Result DeviceState) (outcomes : List (ℕ × Result DeviceState))
    (future : ℕ) {r : Result DeviceState}
    → outcome_of future outcomes ≡ some r
    → outcome_of future (set_all waiters outcome outcomes) ≡ some r
unfolding set_all
set_all_keeps [] outcome outcomes future h = h
set_all_keeps (w ∷ rest) outcome outcomes future h =
    set_all_keeps rest outcome (set_one w outcome outcomes) future
      (set_one_keeps w outcome outcomes future h)

pub is_done-set_all :
    (waiters : List ℕ) (outcome : Result DeviceState) (outcomes : List (ℕ × Result DeviceState))
    (future : ℕ)
    → is_done future outcomes ≡ true
    → is_done future (set_all waiters outcome outcomes) ≡ true
is_done-set_all waiters outcome outcomes future h =
    elim (Option-cases (outcome_of future outcomes)) [
      | inl n ↦ absurd (ground arith)
      | inr (r, e) ↦ ground (arith, set_all_keeps waiters outcome outcomes future e)
    ]

pub set_all_sets :
    (waiters : List ℕ) (outcome : Result DeviceState) (outcomes : List (ℕ × Result DeviceState))
    (future : ℕ)
    → one_of future waiters ≡ true
    → is_done future (set_all waiters outcome outcomes) ≡ true
unfolding set_all
set_all_sets [] outcome outcomes future h = cc
set_all_sets (w ∷ rest) outcome outcomes future h = elim (ℕ_discrete future w) [
  | yes e ↦ rw e (
      is_done-set_all rest outcome (set_one w outcome outcomes) w
        (ground (arith, set_one_sets w outcome outcomes)))
  | no n ↦ set_all_sets rest outcome (set_one w outcome outcomes) future (ground arith)
]

pub fail_queued_keeps :
    (queue : List QueuedCommand) (outcomes : List (ℕ × Result DeviceState)) (future : ℕ)
    {r : Result DeviceState}
    → outcome_of future outcomes ≡ some r
    → outcome_of future (fail_queued queue outcomes) ≡ some r
fail_queued_keeps [] outcomes future h = h
fail_queued_keeps (q ∷ rest) outcomes future h =
    fail_queued_keeps rest (set_all q.waiters (err client_closed) outcomes) future
      (set_all_keeps q.waiters (err client_closed) outcomes future h)

pub is_done-fail_queued :
    (queue : List QueuedCommand) (outcomes : List (ℕ × Result DeviceState)) (future : ℕ)
    → is_done future outcomes ≡ true
    → is_done future (fail_queued queue outcomes) ≡ true
is_done-fail_queued queue outcomes future h = elim (Option-cases (outcome_of future outcomes)) [
  | inl n ↦ absurd (ground arith)
  | inr (r, e) ↦ ground (arith, fail_queued_keeps queue outcomes future e)
]

pub fail_queued_sets :
    (queue : List QueuedCommand) (outcomes : List (ℕ × Result DeviceState)) (future : ℕ)
    → waits future queue ≡ true
    → is_done future (fail_queued queue outcomes) ≡ true
fail_queued_sets [] outcomes future h = cc
fail_queued_sets (q ∷ rest) outcomes future h = elim (Bool-cases (one_of future q.waiters)) [
  | inl t ↦
      is_done-fail_queued rest _ future
        (set_all_sets q.waiters (err client_closed) outcomes future t)
  | inr t ↦ fail_queued_sets rest _ future (ground arith)
]
