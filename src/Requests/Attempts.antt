-- ===== src/Requests/Attempts.antt =====
-- How the attempts of a request end.
use ha_352air_legacy_local.Base.{
  ℕ, zero, suc, ◌+◌, ◌≤◌, ◌<◌, ◌≡◌, refl, ◌⊎◌, inl, inr, Option, none, some, List, [], ◌∷◌, ◌++◌,
  Result, Error, length, take, append_assoc, append-nil, ◌∙◌, sym, arith, ap, ℕ_discrete,
  Option-cases,
}
use mathlib.Core.Path.{subst}
use ha_352air_legacy_local.Base.Bytes.{Bytes}
use ha_352air_legacy_local.Models.State.{DeviceState}
use ha_352air_legacy_local.Requests.{Ending, unsent, answered, timed_out, send_all, run_attempts}

abbrev AllSent : List Bytes → (ℕ → Option Error) → ℕ → Type 0
AllSent datagrams failure index =
    (j : ℕ) → index ≤ j → j < index + length datagrams → failure j ≡ none

-- The datagram at `j` is the first that cannot be sent, and those before it are sent.
abbrev pub StopsAt : List Bytes → (ℕ → Option Error) → ℕ → Error → ℕ → Type 0
StopsAt datagrams failure index e j =
    (j < length datagrams)
    × (failure (index + j) ≡ some e)
    × ((m : ℕ) → m < j → failure (index + m) ≡ none)

send_all-StopsAt :
    (datagrams : List Bytes) (failure : ℕ → Option Error) (index : ℕ)
    → ((send_all datagrams failure index ≡ (datagrams, none)) × AllSent datagrams failure index)
      ⊎ ((e : Error) × (j : ℕ) × (send_all datagrams failure index ≡ (take j datagrams, some e))
          × StopsAt datagrams failure index e j)
unfolding send_all
send_all-StopsAt [] failure index = inl (refl, λ j a b. absurd (omega arith))
send_all-StopsAt (datagram ∷ rest) failure index = elim (Option-cases (failure index)) [
  | inr (e, q) ↦ inr (
    e,
    0,
    rw (send_all, q) refl,
    (omega arith, subst (λ k. failure k ≡ some e) (omega arith) q, λ m l. absurd (omega arith)),
  )
  | inl q ↦ elim (send_all-StopsAt rest failure (index + 1)) [
    | inl (all, none') ↦ inl (rw (send_all, q, all) refl, λ j a b. every j (none' j) a b q)
    | inr (e, j, stops, (l, at', before)) ↦ inr (
      e,
      suc j,
      rw (send_all, q, stops) refl,
      (
        omega (arith, l),
        subst (λ k. failure k ≡ some e) (omega arith) at',
        λ m l. earlier j m before l q,
      ),
    )
  ]
]
  where
    every :
        (j : ℕ)
        → (index + 1 ≤ j → j < index + 1 + length rest → failure j ≡ none)
        → index ≤ j
        → j < index + suc (length rest)
        → failure index ≡ none
        → failure j ≡ none
    every j later a b q = elim (ℕ_discrete index j) [
      | yes e ↦ subst (λ k. failure k ≡ none) e q
      | no n ↦ later (omega arith) (omega arith)
    ]

    earlier :
        (j m : ℕ)
        → ((m : ℕ) → m < j → failure (index + 1 + m) ≡ none)
        → m < suc j
        → failure index ≡ none
        → failure (index + m) ≡ none
    earlier j zero before l q = subst (λ k. failure k ≡ none) (omega arith) q
    earlier j (suc m) before l q =
        subst (λ k. failure k ≡ none) (omega arith) (before m (omega arith))

-- The datagrams of all attempts.
abbrev pub copies : ℕ → List Bytes → List Bytes
copies zero datagrams = []
copies (suc n) datagrams = datagrams ++ copies n datagrams

-- Every attempt from `n`, not included, down to `k`, not included, sent all and was not answered.
abbrev pub Passed :
    ℕ → ℕ → List Bytes → (ℕ → ℕ → Option Error) → (ℕ → Option (Result DeviceState)) → Type 0
Passed n k datagrams failures waits =
    (j : ℕ) → k ≤ j → j < n → (waits j ≡ none) × AllSent datagrams (failures j) 0

-- The attempt `k`, behind `d` others, decides the end.
abbrev pub EndsBy :
    ℕ
    → List Bytes
    → (ℕ → ℕ → Option Error)
    → (ℕ → Option (Result DeviceState))
    → List Bytes
    → Ending
    → Type 0
EndsBy n datagrams failures waits sent timed_out =
    (sent ≡ copies n datagrams) × Passed n 0 datagrams failures waits
EndsBy n datagrams failures waits sent (answered result) =
    (k : ℕ) × (d : ℕ) × (k + suc d ≡ n)
    × Passed n (suc k) datagrams failures waits
    × AllSent datagrams (failures k) 0
    × (waits k ≡ some result)
    × (sent ≡ copies (suc d) datagrams)
EndsBy n datagrams failures waits sent (unsent e) =
    (k : ℕ) × (d : ℕ) × (i : ℕ) × (k + suc d ≡ n)
    × Passed n (suc k) datagrams failures waits
    × StopsAt datagrams (failures k) 0 e i
    × (sent ≡ copies d datagrams ++ take i datagrams)

one_more-Passed :
    (n k : ℕ) (datagrams : List Bytes) (failures : ℕ → ℕ → Option Error)
    (waits : ℕ → Option (Result DeviceState))
    → waits n ≡ none
    → AllSent datagrams (failures n) 0
    → Passed n k datagrams failures waits
    → Passed (suc n) k datagrams failures waits
one_more-Passed n k datagrams failures waits q all before j a b = elim (ℕ_discrete n j) [
  | yes e ↦ subst (λ k. (waits k ≡ none) × AllSent datagrams (failures k) 0) e (q, all)
  | no m ↦ before j a (omega arith)
]

one_more :
    (n : ℕ) (datagrams : List Bytes) (failures : ℕ → ℕ → Option Error)
    (waits : ℕ → Option (Result DeviceState)) (sent : List Bytes) (ending : Ending)
    → waits n ≡ none
    → AllSent datagrams (failures n) 0
    → EndsBy n datagrams failures waits sent ending
    → EndsBy (suc n) datagrams failures waits (datagrams ++ sent) ending
one_more n datagrams failures waits sent timed_out q all (same, before) =
    (ap (λ l. datagrams ++ l) same, one_more-Passed n 0 datagrams failures waits q all before)
one_more n datagrams failures waits sent (answered result) q all (k, d, c, before, whole, e, same) =
    (
      k,
      suc d,
      omega (arith, c),
      one_more-Passed n (suc k) datagrams failures waits q all before,
      whole,
      e,
      ap (λ l. datagrams ++ l) same,
    )
one_more n datagrams failures waits sent (unsent x) q all (k, d, i, c, before, stops, same) = (
  k,
  suc d,
  i,
  omega (arith, c),
  one_more-Passed n (suc k) datagrams failures waits q all before,
  stops,
  ap (λ l. datagrams ++ l) same
      ∙ sym (append_assoc datagrams (copies d datagrams) (take i datagrams)),
)

-- A request of `n` attempts ends in one of three ways. With the error of a datagram that could not be
-- sent: then every datagram before it, in that attempt and in those before, was sent, no attempt
-- before was answered, and nothing else was sent. With the result of a wait: then every datagram of
-- that attempt and of those before was sent, no attempt before was answered, and one copy of the
-- datagrams for each attempt so far is all that was sent. Or timed out: then every datagram of all
-- `n` attempts was sent, once for each, and no attempt was answered.
pub run_attempts-EndsBy :
    (n : ℕ) (datagrams : List Bytes) (failures : ℕ → ℕ → Option Error)
    (waits : ℕ → Option (Result DeviceState))
    → let r = run_attempts n datagrams failures waits in EndsBy n datagrams failures waits r.0 r.1
unfolding run_attempts
run_attempts-EndsBy zero datagrams failures waits = (refl, λ j a b. absurd (omega arith))
run_attempts-EndsBy (suc n) datagrams failures waits =
    let ends = run_attempts-EndsBy n datagrams failures waits in
    let later = run_attempts n datagrams failures waits in
    elim (send_all-StopsAt datagrams (failures n) 0) [
      | inr (e, j, stopped, stops) ↦
          rw (run_attempts, ap (λ x. x.1) stopped)
            (n, 0, j, omega arith, λ k a b. absurd (omega arith), stops, ap (λ x. x.0) stopped)
      | inl (sent, all) ↦ elim (Option-cases (waits n)) [
        | inr (result, q) ↦
            rw (run_attempts, ap (λ x. x.1) sent, q, ap (λ x. x.0) sent)
              (n, 0, omega arith, λ k a b. absurd (omega arith), all, q, sym (append-nil datagrams))
        | inl q ↦
            rw (run_attempts, ap (λ x. x.1) sent, q, ap (λ x. x.0) sent)
              (one_more n datagrams failures waits later.0 later.1 q all ends)
      ]
    ]
