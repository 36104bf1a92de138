-- ===== src/Schedule/Verified.antt =====
-- What a cleanup has sent and seen when it ends.
use ha_352air_legacy_local.Base.{
  ℕ, zero, suc, ◌%◌, ◌≤◌, ◌≡◌, refl, ◌⊎◌, inl, inr, Bool, true, false, some, List, [], ◌∷◌, ◌++◌,
  not, ◌||◌, Result, ok, err, Error, schedule_cleanup, All, All-append, length, length-append,
  append_assoc, append-nil, arith, Bool-cases, Option-cases, ap, ◌∙◌, sym,
}
use mathlib.Core.Path.{subst}
use ha_352air_legacy_local.Base.Bytes.{Bytes}
use ha_352air_legacy_local.Schedule.{
  Device, Slots, schedule_cleanup_supported, encode_schedule_query, encode_schedule_write,
}
use ha_352air_legacy_local.Schedule.Cleanup.{
  Progress, next_sequence, sent_next, all_empty, first_taken, query_attempts, query_schedules,
  empty_slots, configured_slots, and_then, write_and_verify, clear_local_schedules,
}

abbrev pub IsQuery : Device → Bytes → Type 0
IsQuery device datagram = (sequence : ℕ) × (encode_schedule_query device sequence ≡ ok datagram)

abbrev pub IsIn : Slots → List Slots → Type 0
IsIn s [] = ⊥
IsIn s (t ∷ rest) = (s ≡ t) ⊎ IsIn s rest

-- One of the replies to a query's attempts.
abbrev pub IsReply : (ℕ → List Slots) → Slots → Type 0
IsReply replies s = (n : ℕ) × IsIn s (replies n)

first_taken-IsIn :
    (require_empty : Bool) (replies : List Slots) (s : Slots)
    → first_taken require_empty replies ≡ some s
    → IsIn s replies × (((not require_empty) || all_empty s) ≡ true)
unfolding first_taken
first_taken-IsIn require_empty [] s e = cc
first_taken-IsIn require_empty (t ∷ rest) s e =
    elim (Bool-cases (not require_empty || all_empty t)) [
      | inl y ↦
          let same : some t ≡ some s = ground arith in
          let eq : t ≡ s = ground arith in (inl (sym eq), rw (sym eq) y)
      | inr n ↦ let (i, a) = first_taken-IsIn require_empty rest s (ground arith) in (inr i, a)
    ]

-- What a query adds: at most `n` datagrams, all queries; what it returns is a reply.
abbrev Asked : Device → Bool → ℕ → (ℕ → List Slots) → Progress → Progress × Result Slots → Type 0
Asked device require_empty n replies p r =
    (added : List Bytes) × (r.0.sent ≡ p.sent ++ added)
    × All (IsQuery device) added
    × (length added ≤ n)
    × ((s : Slots) → r.1 ≡ ok s → IsReply replies s × (((not require_empty) || all_empty s) ≡ true))

query_attempts-Asked :
    (device : Device) (require_empty : Bool) (n : ℕ) (replies : ℕ → List Slots) (p : Progress)
    → Asked device require_empty n replies p (query_attempts device require_empty n replies p)
unfolding query_attempts
query_attempts-Asked device require_empty zero replies p =
    ([], sym (append-nil p.sent), tt, omega arith, λ s e. absurd (cc))
query_attempts-Asked device require_empty (suc left) replies p =
    attempt (λ q. query_attempts-Asked device require_empty left replies q)
      (encode_schedule_query device (next_sequence p)) refl
  where
    attempt :
        ((q : Progress)
          → Asked device require_empty left replies q
              (query_attempts device require_empty left replies q))
        → (r : Result Bytes) → encode_schedule_query device (next_sequence p) ≡ r
        → Asked device require_empty
            (suc left)
            replies
            p
            (query_attempts device require_empty (suc left) replies p)
    attempt later (err e) q =
        rw (query_attempts, q) ([], sym (append-nil p.sent), tt, omega arith, λ s f. absurd (cc))
    attempt later (ok datagram) q = elim (Option-cases (first_taken require_empty (replies left))) [
      | inl n ↦
          let (added, sent, queries, short, taken) = later (sent_next p datagram) in
          rw (query_attempts, q, n)
            (
              datagram ∷ added,
              sent ∙ append_assoc p.sent (datagram ∷ []) added,
              ((next_sequence p, q), queries),
              omega (arith, short),
              taken,
            )
      | inr (s, n) ↦
          let (i, a) = first_taken-IsIn require_empty (replies left) s n in
          rw (query_attempts, q, n)
            (
              datagram ∷ [],
              refl,
              ((next_sequence p, q), tt),
              omega arith,
              λ t e.
                  let same : s ≡ t = ground arith in
                  subst (λ x. IsReply replies x × (((not require_empty) || all_empty x) ≡ true))
                    same ((left, i), a),
            )
    ]

and_then-cases :
    (x : Progress × Result Slots) (next : Slots → Progress → Progress × Result ℕ)
    → ((e : Error) × (and_then x next ≡ (x.0, err e)))
      ⊎ ((s : Slots) × (x.1 ≡ ok s) × (and_then x next ≡ next s x.0))
and_then-cases (p, err e) next = inl (e, refl)
and_then-cases (p, ok s) next = inr (s, refl, refl)

abbrev pub IsWrite : Device → Bytes → Type 0
IsWrite device datagram =
    (sequence : ℕ) × (encode_schedule_write device sequence empty_slots ≡ ok datagram)

abbrev Queries : Device → ℕ → List Bytes → Type 0
Queries device n datagrams = All (IsQuery device) datagrams × (length datagrams ≤ n)

-- At most three queries, or at most three, the one write, and at most six more.
abbrev pub WritesOnce : Device → List Bytes → Type 0
WritesOnce device sent =
    Queries device 3 sent
    ⊎ ((before : List Bytes) × (write : Bytes) × (behind : List Bytes) × (sent
          ≡ before ++ (write ∷ behind))
        × Queries device 3 before
        × IsWrite device write
        × Queries device 6 behind)

-- The slots counted were read before the write, and two reads behind it were empty.
abbrev pub Verified : (first second third : ℕ → List Slots) → ℕ → Type 0
Verified first second third removed =
    (previous : Slots) × (once : Slots) × (twice : Slots) × IsReply first previous
    × (removed ≡ configured_slots previous)
    × IsReply second once
    × (all_empty once ≡ true)
    × IsReply third twice
    × (all_empty twice ≡ true)

abbrev pub Ends : Device → (first second third : ℕ → List Slots) → Progress × Result ℕ → Type 0
Ends device first second third r =
    WritesOnce device r.0.sent
    × (((e : Error) × (r.1 ≡ err e))
        ⊎ ((removed : ℕ) × (r.1 ≡ ok removed) × Verified first second third removed))

module _ (device : Device) (first second third : ℕ → List Slots) where
  written :
      (before behind : List Bytes) (write : Bytes) (sent : List Bytes)
      → sent ≡ before ++ (write ∷ behind)
      → Queries device 3 before
      → IsWrite device write
      → Queries device 6 behind
      → WritesOnce device sent
  written before behind write sent e a w b = inr (before, write, behind, e, a, w, b)

  -- Behind the second verifying read.
  twice-Ends :
      (previous once : Slots) (p : Progress) (before added : List Bytes) (write : Bytes)
      → IsReply first previous
      → IsReply second once
      → all_empty once ≡ true
      → p.sent ≡ before ++ (write ∷ added)
      → Queries device 3 before
      → IsWrite device write
      → Queries device 3 added
      → Ends device first second third (
          and_then
            (query_schedules device true third p)
            (λ _ r. (r, ok (configured_slots previous))))
  unfolding query_schedules
  twice-Ends previous once p before added write f s k e a w b =
      let (more, sent, queries, short, taken) = query_attempts-Asked device true 3 third p in
      let sends : WritesOnce device (query_schedules device true third p).0.sent =
        written before (added ++ more) write _
          (sent ∙ ap (λ l. l ++ more) e ∙ append_assoc before (write ∷ added) more) a w
          (
            All-append (IsQuery device) added more b.0 queries,
            omega (arith, length-append added more, short, b.1),
          ) in
      elim (and_then-cases (query_schedules device true third p)
        (λ _ r. (r, ok (configured_slots previous)))) [
          | inl (x, q) ↦ subst (Ends device first second third) (sym q) (sends, inl (x, refl))
          | inr (t, n, q) ↦
              let (i, y) = taken t n in
              subst (Ends device first second third) (sym q) (
                sends,
                inr (configured_slots previous, refl, (previous, once, t, f, refl, s, k, i, y)),
              )
        ]

  -- Behind the write.
  once-Ends :
      (previous : Slots) (p : Progress) (before : List Bytes) (write : Bytes)
      → IsReply first previous
      → p.sent ≡ before ++ (write ∷ [])
      → Queries device 3 before
      → IsWrite device write
      → Ends device first second third (
          and_then (query_schedules device true second p) (λ _ q.
            and_then
              (query_schedules device true third q)
              (λ _ r. (r, ok (configured_slots previous)))))
  unfolding query_schedules
  once-Ends previous p before write f e a w =
      let (more, sent, queries, short, taken) = query_attempts-Asked device true 3 second p in
      let sends = sent ∙ ap (λ l. l ++ more) e ∙ append_assoc before (write ∷ []) more in
      elim (and_then-cases (query_schedules device true second p) (λ _ q.
        and_then (query_schedules device true third q)
          (λ _ r. (r, ok (configured_slots previous))))) [
            | inl (x, q) ↦ subst (Ends device first second third) (sym q) (
              written before more write _ sends a w (queries, omega (arith, short)),
              inl (x, refl),
            )
            | inr (t, n, q) ↦
                let (i, y) = taken t n in
                subst (Ends device first second third) (sym q)
                  (twice-Ends previous t _ before more write f i y sends a w (queries, short))
          ]

  write-Ends :
      (previous : Slots) (p : Progress)
      → IsReply first previous
      → Queries device 3 p.sent
      → Ends device first second third (write_and_verify device second third previous p)
  unfolding write_and_verify
  write-Ends previous p f a =
      by_write (encode_schedule_write device (next_sequence p) empty_slots) refl
    where
      by_write :
          (r : Result Bytes)
          → encode_schedule_write device (next_sequence p) empty_slots ≡ r
          → Ends device first second third (write_and_verify device second third previous p)
      by_write (err x) q = rw (write_and_verify, q) (inl a, inl (x, refl))
      by_write (ok datagram) q =
          rw (write_and_verify, q)
            (once-Ends previous (sent_next p datagram) p.sent datagram f refl a
              (next_sequence p, q))

  -- However a cleanup ends, it has sent at most ten datagrams: queries of the slots, and at most one
  -- write. It succeeds only if a read before the write was answered, whose occupied slots it counts,
  -- and two reads behind the write were each answered with four empty slots; else it raises.
  pub clear_local_schedules-Ends :
      (start : ℕ)
      → Ends device first second third (clear_local_schedules device first second third start)
  unfolding clear_local_schedules query_schedules
  clear_local_schedules-Ends start =
      elim (Bool-cases (schedule_cleanup_supported device.wire_type)) [
        | inr n ↦
            rw (clear_local_schedules, n) (inl (tt, omega arith), inl (schedule_cleanup, refl))
        | inl y ↦
            let fresh : Progress = record { sequence = start % 65536; sent = [] } in
            let (more, sent, queries, short, taken) =
              query_attempts-Asked device false 3 first fresh in
            let asked : Queries device 3 (query_schedules device false first fresh).0.sent =
              subst (Queries device 3) (sym sent) (queries, short) in
            rw (clear_local_schedules, y)
              (elim (and_then-cases (query_schedules device false first fresh)
                (write_and_verify device second third)) [
                  | inl (x, q) ↦
                      subst (Ends device first second third) (sym q) (inl asked, inl (x, refl))
                  | inr (t, n, q) ↦
                      subst (Ends device first second third) (sym q)
                        (write-Ends t _ (taken t n).0 asked)
                ])
      ]
