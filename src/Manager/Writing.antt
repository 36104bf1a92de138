-- ===== src/Manager/Writing.antt =====
-- The guarded write of tools/352air_schedule_manager.py: what it sends, and how it ends.
use ha_352air_legacy_local.Base.{
  ℕ, zero, suc, ◌≡◌, refl, ◌⊎◌, inl, inr, Bool, true, Option, none, some, [], ◌∷◌, Result, ok, err,
  arith, Bool-cases, Result-cases, not, if_elim, one_of, if◌then◌else◌, schedule_error, ap, Error,
  ◌∙◌, sym,
}
use mathlib.Core.Path.{subst}
use ha_352air_legacy_local.Base.Bytes.{Bytes, bytes_eq→eq}
use ha_352air_legacy_local.Schedule.{Device, Slots}
use ha_352air_legacy_local.Manager.{schedule_query_packet, schedule_write_packet}
use ha_352air_legacy_local.Manager.Client.{
  LanClient, Arrivals, numbered, send, wait_for, attempts, query, write_once, same_slots, and_then,
  read_back, read_twice, write_fresh, write_and_verify,
}

-- Between two states the client has counted, and sent queries only.
pub data Asked (device : Device) : LanClient → LanClient → Type 0 where
  still : {c : LanClient} → Asked device c c
  count : {c d : LanClient} → Asked device (numbered c) d → Asked device c d
  ask :
      {c d : LanClient} (packet : Bytes)
      → schedule_query_packet device (numbered c).sequence ≡ ok packet
      → Asked device (send (numbered c) packet) d
      → Asked device c d

attempts-Asked :
    (arrivals : Arrivals) (device : Device) (n : ℕ) (c : LanClient)
    → Asked device c (attempts arrivals device n c).0
unfolding attempts
attempts-Asked arrivals device zero c = still
attempts-Asked arrivals device (suc n) c =
    elim (Result-cases (schedule_query_packet device (numbered c).sequence)) [
      | inr (e, q) ↦ rw (attempts, q) (count still)
      | inl (packet, q) ↦
          let asked = send (numbered c) packet in
          rw (attempts, q)
            (ask packet q (
              waited arrivals device n asked (wait_for device (arrivals asked.sent))
                (attempts-Asked arrivals device n asked)))
    ]
  where
    waited :
        (arrivals : Arrivals) (device : Device) (n : ℕ) (c : LanClient) (r : Result (Option Slots))
        → Asked device c (attempts arrivals device n c).0
        → Asked device c (
            (elim r as (λ _. LanClient × Result Slots) [
              | err e ↦ (c, err e)
              | ok none ↦ attempts arrivals device n c
              | ok (some s) ↦ (c, ok s)
            ]).0)
    waited arrivals device n c (err e) h = still
    waited arrivals device n c (ok none) h = h
    waited arrivals device n c (ok (some s)) h = still

query-Asked :
    (arrivals : Arrivals) (device : Device) (c : LanClient)
    → Asked device c (query arrivals device c).0
unfolding query
query-Asked arrivals device c =
    if_elim (λ (r : LanClient × Result Slots). Asked device c r.0)
      (one_of device.wire_type (2 ∷ 3 ∷ 4 ∷ [])) _ _ (λ _. attempts-Asked arrivals device 3 c)
      (λ _. still)

Asked-trans :
    {device : Device} {a b c : LanClient} → Asked device a b → Asked device b c → Asked device a c
Asked-trans still q = q
Asked-trans (count p) q = count (Asked-trans p q)
Asked-trans (ask packet e p) q = ask packet e (Asked-trans p q)

read_back-Asked :
    (arrivals : Arrivals) (device : Device) (verifier : Slots → Bool) (c : LanClient)
    → Asked device c (read_back arrivals device verifier c).0
unfolding read_back
read_back-Asked arrivals device verifier c =
    read (query arrivals device c) (query-Asked arrivals device c)
  where
    read :
        (r : LanClient × Result Slots)
        → Asked device c r.0
        → Asked device c
            (and_then r (λ c s. if verifier s then (c, ok s) else (c, err schedule_error))).0
    read (d, err e) h = h
    read (d, ok s) h =
        if_elim (λ (r : LanClient × Result Slots). Asked device c r.0) (verifier s) _ _ (λ _. h)
          (λ _. h)

-- A call that ends with a reply has gone on from the one before.
and_then-ok {ℓ κ} :
    {A : Type ℓ} {B : Type κ} (r : LanClient × Result A)
    (next : LanClient → A → LanClient × Result B) (b : B)
    → (and_then r next).1 ≡ ok b
    → (c : LanClient) × (a : A) × (r ≡ (c, ok a)) × ((next c a).1 ≡ ok b)
and_then-ok (c, err e) next b h = absurd (ground (arith, h))
and_then-ok (c, ok a) next b h = (c, a, refl, h)

-- Nothing was written, or the run's first read gave the baseline's very slots, and what was sent
-- behind it is one write, and then queries.
pub data Wrote (arrivals : Arrivals) (device : Device) (baseline desired : Slots)
    : LanClient → LanClient → Type 0 where
  unwritten : {c d : LanClient} → Asked device c d → Wrote arrivals device baseline desired c d
  written :
      {c d e : LanClient} (packet : Bytes)
      → query arrivals device c ≡ (d, ok baseline)
      → schedule_write_packet device (numbered d).sequence desired ≡ ok packet
      → Asked device c d
      → Asked device (send (numbered d) packet) e
      → Wrote arrivals device baseline desired c e

-- The slots that the guard lets through are the baseline's.
same_slots→eq : (a b : Slots) → same_slots a b ≡ true → a ≡ b
same_slots→eq a b e = ground (
  arith,
  bytes_eq→eq a.first b.first,
  bytes_eq→eq a.second b.second,
  bytes_eq→eq a.third b.third,
  bytes_eq→eq a.fourth b.fourth,
)

twice-Asked :
    (arrivals : Arrivals) (device : Device) (verifier : Slots → Bool) (c : LanClient)
    → Asked device c (read_twice arrivals device verifier c).0
twice-Asked arrivals device verifier c =
    go (read_back arrivals device verifier c) (read_back-Asked arrivals device verifier c)
  where
    go :
        (r : LanClient × Result Slots)
        → Asked device c r.0
        → Asked device c (and_then r (λ c _. read_back arrivals device verifier c)).0
    go (d, err e) h = h
    go (d, ok s) h = Asked-trans h (read_back-Asked arrivals device verifier d)

wrote_from :
    (arrivals : Arrivals) (device : Device) (baseline desired : Slots) (verifier : Slots → Bool)
    (c d : LanClient)
    → query arrivals device c ≡ (d, ok baseline)
    → Asked device c d
    → Wrote arrivals device baseline desired c
        (and_then (write_once device desired d) (λ c _. read_twice arrivals device verifier c)).0
unfolding write_once
wrote_from arrivals device baseline desired verifier c d q asked =
    elim (Result-cases (schedule_write_packet device (numbered d).sequence desired)) [
      | inr (e, w) ↦ rw (write_once, w) (unwritten (Asked-trans asked (count still)))
      | inl (packet, w) ↦
          rw (write_once, w)
            (written packet q w asked
              (twice-Asked arrivals device verifier (send (numbered d) packet)))
    ]

run-Wrote :
    (arrivals : Arrivals) (device : Device) (baseline desired : Slots) (verifier : Slots → Bool)
    (c : LanClient) (r : LanClient × Result Slots)
    → query arrivals device c ≡ r
    → Asked device c r.0
    → Wrote arrivals device baseline desired c
        (and_then r (write_fresh arrivals device baseline desired verifier)).0
run-Wrote arrivals device baseline desired verifier c (d, err e) q asked = unwritten asked
run-Wrote arrivals device baseline desired verifier c (d, ok fresh) q asked =
    if_elim (λ (r : LanClient × Result Slots). Wrote arrivals device baseline desired c r.0)
      (not (same_slots fresh baseline)) _ _ (λ _. unwritten asked)
      (λ s.
        let same = same_slots→eq fresh baseline (ground (arith, s)) in
        wrote_from arrivals device baseline desired verifier c d (q ∙ ap (λ x. (d, ok x)) same)
          asked)

-- A read that ends with slots is a query that did, and the verifier takes them.
read_back-ok :
    (arrivals : Arrivals) (device : Device) (verifier : Slots → Bool) (c : LanClient) (s : Slots)
    → (read_back arrivals device verifier c).1 ≡ ok s
    → (query arrivals device c ≡ read_back arrivals device verifier c) × (verifier s ≡ true)
unfolding read_back
read_back-ok arrivals device verifier c s h =
    let (d, t, q, e) = and_then-ok (query arrivals device c) _ s h in rw q (taken d t e)
  where
    verdict : LanClient → Slots → LanClient × Result Slots
    verdict d t = if verifier t then (d, ok t) else (d, err schedule_error)

    taken :
        (d : LanClient) (t : Slots)
        → (verdict d t).1 ≡ ok s
        → ((d, ok t) ≡ verdict d t) × (verifier s ≡ true)
    taken d t e = elim (Bool-cases (verifier t)) [
      | inl y ↦ ground (arith, e, y)
      | inr n ↦ absurd (ground (arith, e, n))
    ]

-- From the client `start` on, a read of the baseline, a write of the desired slots, and two reads, each
-- where the one before it left off, both taken by the verifier; the last one is the run's end.
abbrev pub ReadTwice :
    Arrivals
    → Device
    → Slots
    → Slots
    → (Slots → Bool)
    → LanClient
    → LanClient × Result Slots
    → Slots
    → Type 0
ReadTwice arrivals device baseline desired verifier start r s =
    (d : LanClient) × (c : LanClient) × (e : LanClient) × (first : Slots) × (query arrivals device
        start
      ≡ (d, ok baseline))
    × (write_once device desired d ≡ (c, ok tt))
    × (query arrivals device c ≡ (e, ok first))
    × (query arrivals device e ≡ r)
    × (r.1 ≡ ok s)
    × (verifier first ≡ true)
    × (verifier s ≡ true)

twice_verified :
    (arrivals : Arrivals) (device : Device) (baseline desired : Slots) (verifier : Slots → Bool)
    (start : LanClient) (s : Slots) (d : LanClient)
    → query arrivals device start ≡ (d, ok baseline)
    → (and_then (write_once device desired d) (λ c _. read_twice arrivals device verifier c)).1
      ≡ ok s
    → ReadTwice arrivals device baseline desired verifier start
        (and_then (write_once device desired d) (λ c _. read_twice arrivals device verifier c))
        s
twice_verified arrivals device baseline desired verifier start s d q h =
    let (c, u, w, e) = and_then-ok (write_once device desired d) _ s h in
    let (f, first, x, y) = and_then-ok (read_back arrivals device verifier c) _ s e in
    let (a, k) = read_back-ok arrivals device verifier c first (ap (λ r. r.1) x) in
    let (b, l) = read_back-ok arrivals device verifier f s y in
    rw (w, x) (d, c, f, first, q, w, a ∙ x, b, y, k, l)

verified :
    (arrivals : Arrivals) (device : Device) (baseline desired : Slots) (verifier : Slots → Bool)
    (c : LanClient) (s : Slots)
    → (write_and_verify arrivals device baseline desired verifier c).1 ≡ ok s
    → ReadTwice arrivals device baseline desired verifier c
        (write_and_verify arrivals device baseline desired verifier c)
        s
unfolding write_and_verify
verified arrivals device baseline desired verifier c s h =
    let (d, fresh, q, e) = and_then-ok (query arrivals device c) _ s h in
    subst
      (λ r.
        ReadTwice arrivals device baseline desired verifier c
          (and_then r (write_fresh arrivals device baseline desired verifier)) s)
      (sym q)
      (if_elim
        (λ (r : LanClient × Result Slots).
          r.1 ≡ ok s → ReadTwice arrivals device baseline desired verifier c r s)
        (not (same_slots fresh baseline)) _ _ (λ _ bad. absurd (ground (arith, bad)))
        (λ t.
          let same = same_slots→eq fresh baseline (ground (arith, t)) in
          twice_verified arrivals device baseline desired verifier c s d
            (q ∙ ap (λ x. (d, ok x)) same))
        e)

-- Whatever arrives, `write_and_verify` sends at most one write, of the desired slots, and otherwise
-- only queries; the write only behind a first read, of the same run, that gave exactly the four
-- slots of the baseline. Then it raises; or it returns the slots of a second of two reads, each
-- sent where the one before it left off, the first of them right behind the write, and the
-- verifier takes what either gave.
pub write_and_verify-Wrote :
    (arrivals : Arrivals) (device : Device) (baseline desired : Slots) (verifier : Slots → Bool)
    (c : LanClient)
    → Wrote arrivals device baseline desired c
        (write_and_verify arrivals device baseline desired verifier c).0
      × (((e : Error) × ((write_and_verify arrivals device baseline desired verifier c).1 ≡ err e))
          ⊎ ((s : Slots) × ReadTwice arrivals device baseline desired verifier c
                (write_and_verify arrivals device baseline desired verifier c)
                s))
unfolding write_and_verify
write_and_verify-Wrote arrivals device baseline desired verifier c = (
  run-Wrote arrivals device baseline desired verifier c (query arrivals device c) refl
      (query-Asked arrivals device c),
  elim (Result-cases (write_and_verify arrivals device baseline desired verifier c).1) [
    | inr (e, q) ↦ inl (e, q)
    | inl (s, q) ↦ inr (s, verified arrivals device baseline desired verifier c s q)
  ],
)
