-- ===== src/Alcs/Power.antt =====
-- What a power transaction sends, and what its outcome says of the device.
use ha_352air_legacy_local.Base.{
  ◌≡◌, ◌≢◌, refl, ap, ◌∙◌, ◌⊎◌, inl, inr, Bool, true, false, Option, List, [], ◌∷◌, ◌++◌, Error, ok,
  err, alcs_error, alcs_outcome_unknown, arith, Result-cases, Bool-cases, append_assoc, append-nil,
  if_elim, ◌>>=◌,
}
use ha_352air_legacy_local.Alcs.{
  Sent, auth, get_property, set_property, Exchange, unsent, replied, ask, Network, Transaction,
  is_caught, failure, confirm, same_power, get_power, get_property_call, set_power, read_power,
  PowerSwitch,
}

-- The values that were written.
abbrev pub writes : List Sent → List Bool
writes [] = []
writes (auth ∷ sent) = writes sent
writes (get_property ∷ sent) = writes sent
writes (set_property b ∷ sent) = b ∷ writes sent

-- The last message was a read, and it reported `b`.
abbrev pub LastReads : Network → Bool → List Sent → Type 0
LastReads n b sent =
    (before : List Sent) × (sent ≡ before ++ (get_property ∷ [])) × (get_power n before ≡ ok b)

-- A read before reported the other power.
abbrev pub ReadOther : Network → Bool → List Sent → Type 0
ReadOther n desired sent =
    (before : List Sent) × (rest : List Sent) × (b : Bool) × (sent ≡ before ++ get_property ∷ rest)
    × (get_power n before ≡ ok b)
    × (b ≢ desired)

abbrev pub AtMostOnce : Bool → List Sent → Type 0
AtMostOnce desired sent = (writes sent ≡ []) ⊎ (writes sent ≡ desired ∷ [])

-- The ends of a transaction.
pub data Outcome (n : Network) (desired : Bool) : Transaction → Type 0 where
  unchanged :
      {sent : List Sent}
      → writes sent ≡ []
      → LastReads n desired sent
      → Outcome n desired (sent, ok desired)
  verified :
      {sent : List Sent}
      → writes sent ≡ desired ∷ []
      → ReadOther n desired sent
      → LastReads n desired sent
      → Outcome n desired (sent, ok desired)
  unread : {sent : List Sent} → writes sent ≡ [] → Outcome n desired (sent, err alcs_error)
  unconfirmed :
      {sent : List Sent}
      → AtMostOnce desired sent
      → ReadOther n desired sent
      → Outcome n desired (sent, err alcs_outcome_unknown)
  passed :
      {sent : List Sent} (e : Error)
      → AtMostOnce desired sent
      → is_caught e ≡ false
      → Outcome n desired (sent, err e)

writes-append : (xs ys : List Sent) → writes (xs ++ ys) ≡ writes xs ++ writes ys
writes-append [] ys = refl
writes-append (auth ∷ xs) ys = writes-append xs ys
writes-append (get_property ∷ xs) ys = writes-append xs ys
writes-append (set_property b ∷ xs) ys = ap (λ l. b ∷ l) (writes-append xs ys)

-- What a call sends: nothing, or its message; its message, if it returns.
ask-cases :
    {V : Type 0} (x : Exchange V) (before : List Sent) (m : Sent)
    → ((ask x before m).0 ≡ before) ⊎ ((ask x before m).0 ≡ before ++ m ∷ [])
unfolding ask
ask-cases (unsent e) before m = inl refl
ask-cases (replied r) before m = inr refl

ask-ok :
    {V : Type 0} (x : Exchange V) (before : List Sent) (m : Sent) (v : V)
    → (ask x before m).1 ≡ ok v
    → (ask x before m).0 ≡ before ++ m ∷ []
unfolding ask
ask-ok (unsent e) before m v q = absurd (ground (arith, q))
ask-ok (replied r) before m v q = refl

get_property_call-ok :
    (n : Network) (before : List Sent) (b : Bool)
    → get_power n before ≡ ok b
    → (get_property_call n before).0 ≡ before ++ get_property ∷ []
unfolding ask
get_property_call-ok n before b q = called (n.get_reply before) q
  where
    called :
        (x : Exchange (Option PowerSwitch))
        → ((ask x before get_property).1 >>= read_power) ≡ ok b
        → (ask x before get_property).0 ≡ before ++ get_property ∷ []
    called (unsent e) q = absurd (ground (arith, q))
    called (replied r) q = refl

-- A call that writes nothing.
ask-writes :
    {V : Type 0} (x : Exchange V) (before : List Sent) (m : Sent)
    → writes (m ∷ []) ≡ []
    → writes (ask x before m).0 ≡ writes before
ask-writes x before m q = elim (ask-cases x before m) [
  | inl e ↦ ap writes e
  | inr e ↦ ap writes e ∙ writes-append before (m ∷ []) ∙ no_more (writes (m ∷ [])) q
]
  where
    no_more : (ys : List Bool) → ys ≡ [] → writes before ++ ys ≡ writes before
    no_more ys q = ap (λ ys. writes before ++ ys) q ∙ append-nil (writes before)

ask-ReadOther :
    {V : Type 0} (n : Network) (desired : Bool) (x : Exchange V) (sent : List Sent) (m : Sent)
    → ReadOther n desired sent
    → ReadOther n desired (ask x sent m).0
ask-ReadOther n desired x sent m (before, rest, b, s, q, d) = elim (ask-cases x sent m) [
  | inl e ↦ (before, rest, b, e ∙ s, q, d)
  | inr e ↦ (
    before,
    rest ++ m ∷ [],
    b,
    e ∙ ap (λ l. l ++ m ∷ []) s ∙ append_assoc before (get_property ∷ rest) (m ∷ []),
    q,
    d,
  )
]

failed :
    (n : Network) (desired : Bool) (sent : List Sent) (e : Error)
    → writes sent ≡ []
    → Outcome n desired (sent, err (failure false e))
failed n desired sent e w =
    if_elim (λ x. Outcome n desired (sent, err x)) (is_caught e) _ _ (λ _. unread w)
      (λ u. passed e (inl w) u)

attempt_failed :
    (n : Network) (desired : Bool) (sent : List Sent) (e : Error)
    → AtMostOnce desired sent
    → ReadOther n desired sent
    → Outcome n desired (sent, err (failure true e))
attempt_failed n desired sent e w other =
    if_elim (λ x. Outcome n desired (sent, err x)) (is_caught e) _ _ (λ _. unconfirmed w other)
      (λ u. passed e w u)

same_power→eq : (a b : Bool) → same_power a b ≡ true → a ≡ b
same_power→eq a b t = ground arith

same_power→ne : (a b : Bool) → same_power a b ≡ false → a ≢ b
same_power→ne a b t = ground arith

-- A read of the desired power is the last message.
read-LastReads :
    (n : Network) (desired actual : Bool) (before : List Sent)
    → get_power n before ≡ ok actual
    → same_power actual desired ≡ true
    → (actual ≡ desired) × LastReads n desired (get_property_call n before).0
read-LastReads n desired actual before f s =
    let same = same_power→eq actual desired s in
    (same, (before, get_property_call-ok n before actual f, f ∙ ap ok same))

written-AtMostOnce :
    {V : Type 0} (x : Exchange V) (desired : Bool) (before : List Sent)
    → writes before ≡ []
    → AtMostOnce desired (ask x before (set_property desired)).0
written-AtMostOnce x desired before quiet = elim (ask-cases x before (set_property desired)) [
  | inl e ↦ inl (ap writes e ∙ quiet)
  | inr e ↦ inr (
      ap writes e
      ∙ writes-append before (set_property desired ∷ [])
      ∙ ap (λ l. l ++ desired ∷ []) quiet)
]

confirm-Outcome :
    (n : Network) (desired : Bool) (before : List Sent)
    → writes before ≡ []
    → ReadOther n desired before
    → Outcome n desired (confirm n desired before)
confirm-Outcome n desired before quiet other =
    let x = n.set_reply before desired in
    let sent = (ask x before (set_property desired)).0 in
    let once = written-AtMostOnce x desired before quiet in
    let known = ask-ReadOther n desired x before (set_property desired) other in
    elim (Result-cases (ask x before (set_property desired)).1) [
      | inr (e, f) ↦ rw (confirm, f) (attempt_failed n desired sent e once known)
      | inl (_, f) ↦
          let whole = ask-ok x before (set_property desired) _ f in
          let later = (get_property_call n sent).0 in
          let more = ask-writes (n.get_reply sent) sent get_property refl in
          let seen = ask-ReadOther n desired (n.get_reply sent) sent get_property known in
          let wrote =
            more
            ∙ ap writes whole
            ∙ writes-append before (set_property desired ∷ [])
            ∙ ap (λ l. l ++ desired ∷ []) quiet in
          elim (Result-cases (get_power n sent)) [
            | inr (e, g) ↦ rw (confirm, f, g) (attempt_failed n desired later e (inr wrote) seen)
            | inl (actual, g) ↦ elim (Bool-cases (same_power actual desired)) [
              | inr s ↦
                  rw (confirm, f, g, s) (attempt_failed n desired later alcs_error (inr wrote) seen)
              | inl s ↦
                  let (same, last) = read-LastReads n desired actual sent g s in
                  rw (confirm, f, g, s, same) (verified wrote seen last)
            ]
          ]
    ]

-- A transaction writes the desired power at most once and never another one. It returns only the
-- desired power, after a last read that reported it; if it wrote by then, an earlier read had
-- reported the other power. AlcsError says that no write was sent. AlcsOutcomeUnknown comes only
-- behind a read of the other power, whether the write was sent by then or not; and only an
-- exception that the client does not catch passes through.
pub set_power-Outcome : (n : Network) (desired : Bool) → Outcome n desired (set_power n desired)
unfolding set_power
set_power-Outcome n desired =
    let authed = (ask (n.auth_reply []) [] auth).0 in
    let silent = ask-writes (n.auth_reply []) [] auth refl in
    let known = (get_property_call n authed).0 in
    let quiet = ask-writes (n.get_reply authed) authed get_property refl ∙ silent in
    elim (Result-cases (ask (n.auth_reply []) [] auth).1) [
      | inr (e, a) ↦ rw (set_power, a) (failed n desired authed e silent)
      | inl (_, a) ↦ elim (Result-cases (get_power n authed)) [
        | inr (e, f) ↦ rw (set_power, a, f) (failed n desired known e quiet)
        | inl (current, f) ↦ elim (Bool-cases (same_power current desired)) [
          | inl s ↦
              let (same, last) = read-LastReads n desired current authed f s in
              rw (set_power, a, f, s, same) (unchanged quiet last)
          | inr s ↦
              let other : ReadOther n desired known = (
                authed,
                [],
                current,
                get_property_call-ok n authed current f,
                f,
                same_power→ne current desired s,
              ) in
              rw (set_power, a, f, s) (confirm-Outcome n desired known quiet other)
        ]
      ]
    ]
