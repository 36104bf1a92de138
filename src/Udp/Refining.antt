-- ===== src/Udp/Refining.antt =====
-- The operations on the shared endpoints of udp.py against the count of holders.
use ha_352air_legacy_local.Base.{
  ℕ, ◌-◌, ◌≤◌, ◌<◌, ◌≡◌, ◌≢◌, refl, ap, sym, ◌∙◌, inl, inr, Bool, true, false, Option, none, some,
  List, [], ◌∷◌, ◌==◌, ◌&&◌, ◌||◌, not, if◌then◌else◌, if_elim, one_of, ok, arith, ℕ_discrete,
  dec_lt, Bool-cases, Option-cases,
}
use mathlib.Core.Path.{subst}
use ha_352air_legacy_local.Models.State.{Endpoint}
use ha_352air_legacy_local.Udp.{
  SharedUdpEndpoint, UdpLoop, same_key, same_key_self, same_key→eq, store, add, discard, subscribe,
  build, acquire, shut_down, keep, unsubscribed, release,
}
use ha_352air_legacy_local.Udp.Holders.{
  Holders, holds, count, leave, Apart, holds-leave, count-leave, Apart-leave, holds-count,
}

-- What an endpoint is, given who holds it: its references count its holders, its callbacks are
-- theirs, and it is closed exactly without any; the dictionary has the open ones under their keys.
pub record Refines (l : UdpLoop) (hs : Holders) : Type 0 where
  pub apart : Apart hs
  pub counted : (id : ℕ) → (l.heap id).references ≡ count id hs
  pub fresh : (id : ℕ) → l.built ≤ id → count id hs ≡ 0
  pub called : (id callback : ℕ) → one_of callback ((l.heap id).callbacks) ≡ holds id callback hs
  pub shut : (id : ℕ) → id < l.built → (l.heap id).closed ≡ (count id hs == 0)
  pub registered :
      (id : ℕ) → id < l.built → 1 ≤ count id hs → l.endpoints ((l.heap id).key) ≡ some id
  pub listed :
      (k : Endpoint) (id : ℕ)
      → l.endpoints k ≡ some id
      → (id < l.built) × (1 ≤ count id hs) × ((l.heap id).key ≡ k)

one_of-add : (x y : ℕ) (ys : List ℕ) → one_of x (add y ys) ≡ (x == y || one_of x ys)
one_of-add x y ys = elim (ℕ_discrete x y) [ yes e ↦ rw e (ground arith) | no n ↦ ground arith ]

one_of-discard : (x y : ℕ) (ys : List ℕ) → one_of x (discard y ys) ≡ (one_of x ys && not (x == y))
unfolding discard
one_of-discard x y [] = refl
one_of-discard x y (z ∷ ys) = ground (arith, one_of-discard x y ys)

join :
    (l : UdpLoop) (hs : Holders) (id callback : ℕ)
    → Refines l hs
    → holds id callback hs ≡ false
    → id < l.built
    → 1 ≤ count id hs
    → Refines (subscribe id callback l) ((id, callback) ∷ hs)
unfolding subscribe
join l hs id callback v n b c = record {
  apart = (n, v.apart);
  counted = λ i. ground (arith, v.counted i, v.counted id);
  fresh = λ i h. ground (arith, v.fresh i h);
  called = λ i c. ground (arith, v.called i c, one_of-add c callback ((l.heap id).callbacks));
  shut = λ i h. ground (arith, v.shut i h);
  registered = λ i h m. ground (arith, v.registered i h);
  listed = λ k i e. let (x, y, z) = v.listed k i e in (x, ground arith, ground (arith, z));
}

-- A dictionary's entry after an assignment, when the key is another one or not.
other_key :
    (f : Endpoint → Option ℕ) (key k : Endpoint) {x : Option ℕ} (id : ℕ)
    → f key ≡ x
    → x ≢ some id
    → f k ≡ some id
    → same_key k key ≡ false
other_key f key k id e n h = elim (Bool-cases (same_key k key)) [
  | inl t ↦ absurd (n (sym e ∙ ap f (sym (same_key→eq k key t)) ∙ h))
  | inr t ↦ t
]

unheld : (id callback : ℕ) (hs : Holders) → count id hs ≡ 0 → holds id callback hs ≡ false
unheld id callback hs e = ground (arith, holds-count id callback hs)

first :
    (l : UdpLoop) (hs : Holders) (key : Endpoint) (port callback : ℕ)
    → Refines l hs
    → l.endpoints key ≡ none
    → Refines (subscribe l.built callback (build key port l)) ((l.built, callback) ∷ hs)
unfolding subscribe build
first l hs key port callback v e = record {
  apart = (unheld l.built callback hs new, v.apart);
  counted = λ i. ground (arith, v.counted i, new);
  fresh = λ i h. ground (arith, v.fresh i);
  called = λ i c. ground (arith, v.called i c, unheld l.built c hs new);
  shut = λ i h. ground (arith, v.shut i, new);
  registered = λ i h m. elim (ℕ_discrete i l.built) [
    | yes same ↦ ground (arith, same, same_key_self key)
    | no other ↦
        let old = v.registered i (omega arith) (ground arith) in
        ground (arith, old, other_key l.endpoints key ((l.heap i).key) i e (ground arith) old)
  ];
  listed = λ k i a. elim (Bool-cases (same_key k key)) [
    | inl t ↦
        let same : i ≡ l.built = ground (arith, t, a) in
        (
          ground (arith, same),
          ground (arith, same),
          ground (arith, same, sym (same_key→eq k key t)),
        )
    | inr t ↦
        let (x, y, z) = v.listed k i (ground (arith, t, a)) in
        (omega arith, ground arith, ground (arith, x, z))
  ];
}
  where
    new : count l.built hs ≡ 0
    new = v.fresh l.built (omega arith)

-- What a release leaves, for an endpoint that a holder leaves.
module _ (l : UdpLoop) (hs : Holders) (id callback : ℕ) (v : Refines l hs)
    (t : holds id callback hs ≡ true) where
  left : (i : ℕ) → count i (leave id callback hs) ≡ (if i == id then count i hs - 1 else count i hs)
  left i = count-leave i id callback hs v.apart t

  called_left :
      (e : SharedUdpEndpoint) (i c : ℕ)
      → e.callbacks ≡ discard callback ((l.heap id).callbacks)
      → one_of c ((store l.heap id e i).callbacks) ≡ holds i c (leave id callback hs)
  called_left e i c h = ground (
    arith,
    h,
    v.called i c,
    holds-leave i c id callback hs,
    one_of-discard c callback ((l.heap id).callbacks),
  )

  more :
      2 ≤ count id hs
      → Refines (keep id (unsubscribed callback (l.heap id)) l) (leave id callback hs)
  more two = record {
    apart = Apart-leave id callback hs v.apart;
    counted = λ i. ground (arith, v.counted i, v.counted id, left i);
    fresh = λ i h. ground (arith, v.fresh i h, left i);
    called = λ i c. called_left (unsubscribed callback (l.heap id)) i c refl;
    shut = λ i h. ground (arith, v.shut i h, left i);
    registered = λ i h m. ground (arith, v.registered i h, left i);
    listed = λ k i a.
        let (x, y, z) = v.listed k i a in (x, ground (arith, y, left i), ground (arith, z));
  }

  mine : count id hs ≡ 1 → l.endpoints ((l.heap id).key) ≡ some id
  mine one =
      v.registered id
        (elim (dec_lt id l.built) [ yes y ↦ y | no n ↦ absurd (ground (arith, v.fresh id, one)) ])
        (omega arith)

  remains :
      count id hs ≡ 1
      → (i : ℕ) → i < l.built
      → 1 ≤ count i (leave id callback hs)
      → (i ≢ id) × (l.endpoints ((l.heap i).key) ≡ some i)
  remains one i h m = (ground (arith, left i), v.registered i h (ground (arith, left i)))

  apart_key :
      (k : Endpoint) (i : ℕ) → same_key k ((l.heap id).key) ≡ false → (l.heap i).key ≡ k → i ≢ id
  apart_key k i d z e =
      absurd (cc (d, sym (same_key_self k) ∙ ap (same_key k) (sym z ∙ ap (λ i. (l.heap i).key) e)))

  last :
      count id hs ≡ 1
      → Refines (shut_down id (unsubscribed callback (l.heap id)) l) (leave id callback hs)
  last one = record {
    apart = Apart-leave id callback hs v.apart;
    counted = λ i. ground (arith, v.counted i, v.counted id, left i);
    fresh = λ i h. ground (arith, v.fresh i h, left i);
    called =
        λ i c. called_left (record (unsubscribed callback (l.heap id)) { closed = true }) i c refl;
    shut = λ i h. ground (arith, v.shut i h, left i);
    registered = λ i h m.
        let (other, old) = remains one i h m in
        ground (
          arith,
          mine one,
          other,
          old,
          other_key l.endpoints ((l.heap id).key) ((l.heap i).key) i (mine one) (ground arith) old,
        );
    listed = λ k i a.
        let differs : same_key k ((l.heap id).key) ≡ false = ground (arith, a, mine one) in
        let old : l.endpoints k ≡ some i = ground (arith, a, mine one, differs) in
        let (x, y, z) = v.listed k i old in
        let other : i ≢ id = apart_key k i differs z in
        (x, ground (arith, y, left i, other), ground (arith, z, other));
  }

pub release-Refines :
    (l : UdpLoop) (hs : Holders) (id callback : ℕ)
    → Refines l hs
    → holds id callback hs ≡ true
    → Refines (release id callback l) (leave id callback hs)
unfolding release
release-Refines l hs id callback v t =
    if_elim (λ q. Refines q (leave id callback hs)) (((l.heap id).references - 1) == 0) _ _
      (λ e.
        last l hs id callback v t (ground (arith, e, v.counted id, holds-count id callback hs t)))
      (λ e.
        more l hs id callback v t (ground (arith, e, v.counted id, holds-count id callback hs t)))

opened :
    (l q : UdpLoop) (binds binds_any : Bool) (id callback : ℕ) (key : Endpoint)
    → l.endpoints key ≡ none
    → acquire binds binds_any callback key l ≡ ok (id, q)
    → (port : ℕ) × (l.built ≡ id) × (subscribe l.built callback (build key port l) ≡ q)
unfolding acquire
opened l q true binds_any id callback key o e =
    (key.port, ground (arith, o, e), ground (arith, o, e))
opened l q false true id callback key o e = (0, ground (arith, o, e), ground (arith, o, e))
opened l q false false id callback key o e = absurd (ground (arith, o, e))

pub acquire-Refines :
    (l q : UdpLoop) (hs : Holders) (binds binds_any : Bool) (id callback : ℕ) (key : Endpoint)
    → Refines l hs
    → acquire binds binds_any callback key l ≡ ok (id, q)
    → holds id callback hs ≡ false
    → Refines q ((id, callback) ∷ hs)
unfolding acquire
acquire-Refines l q hs binds binds_any id callback key v e n =
    elim (Option-cases (l.endpoints key)) [
      | inr (other, o) ↦
          let same : (other ≡ id) × (subscribe id callback l ≡ q) = ground (arith, o, e) in
          let (b, c, _) = v.listed key id (o ∙ ap some same.0) in
          subst (λ q. Refines q ((id, callback) ∷ hs)) same.1 (join l hs id callback v n b c)
      | inl o ↦
          let (port, same, new) = opened l q binds binds_any id callback key o e in
          subst (λ q. Refines q ((id, callback) ∷ hs)) new
            (subst
              (λ i. Refines (subscribe l.built callback (build key port l)) ((i, callback) ∷ hs))
              same (first l hs key port callback v o))
    ]
