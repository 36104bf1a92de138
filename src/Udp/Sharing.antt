-- ===== src/Udp/Sharing.antt =====
-- The runs of the shared endpoints of udp.py against the count of holders.
use ha_352air_legacy_local.Base.{ℕ, ◌<◌, ◌≡◌, refl, ap, Bool, true, false, none, [], ◌∷◌, ok, arith}
use ha_352air_legacy_local.Models.State.{Endpoint}
use ha_352air_legacy_local.Udp.{UdpLoop, subscribe, acquire, release}
use ha_352air_legacy_local.Udp.Holders.{Holders, holds, leave}
use ha_352air_legacy_local.Udp.Refining.{Refines, release-Refines, acquire-Refines}

-- No socket, and objects that were never built.
abbrev pub no_endpoints : UdpLoop
no_endpoints = record {
  endpoints = λ _. none;
  heap = λ _. record {
    key = record { host = []; port = 0 };
    bound_port = 0;
    callbacks = [];
    references = 0;
    closed = true;
  };
  built = 0;
}

-- A consumer acquires with a callback of its own, and releases what it holds.
pub data Step : UdpLoop × Holders → UdpLoop × Holders → Type 0 where
  acquires :
      {l q : UdpLoop} {hs : Holders} (binds binds_any : Bool) (id callback : ℕ) (key : Endpoint)
      → acquire binds binds_any callback key l ≡ ok (id, q)
      → holds id callback hs ≡ false
      → Step (l, hs) (q, (id, callback) ∷ hs)
  releases :
      {l : UdpLoop} {hs : Holders} (id callback : ℕ)
      → holds id callback hs ≡ true
      → Step (l, hs) (release id callback l, leave id callback hs)

pub data Reaches : UdpLoop × Holders → Type 0 where
  starts : Reaches (no_endpoints, [])
  after : {x y : UdpLoop × Holders} → Reaches x → Step x y → Reaches y

Step-Refines : (x y : UdpLoop × Holders) → Step x y → Refines x.0 x.1 → Refines y.0 y.1
Step-Refines x y (acquires {l} {q} {hs} binds binds_any id callback key e n) v =
    acquire-Refines l q hs binds binds_any id callback key v e n
Step-Refines x y (releases {l} {hs} id callback t) v = release-Refines l hs id callback v t

-- Whatever consumers acquire and release, in any order and with any failures to bind, the endpoints
-- refine the set of holders: the references of each count its holders, its callbacks are exactly
-- theirs, its socket is closed exactly when the last one has left, and the dictionary lists the open
-- endpoints under their own keys and no other.
pub Reaches-Refines : (x : UdpLoop × Holders) → Reaches x → Refines x.0 x.1
Reaches-Refines x starts = record {
  apart = tt;
  counted = λ id. refl;
  fresh = λ id h. refl;
  called = λ id c. refl;
  shut = λ id h. absurd (omega arith);
  registered = λ id h. absurd (omega arith);
  listed = λ k id e. absurd (cc e);
}
Reaches-Refines x (after {x = y} run step) = Step-Refines y x step (Reaches-Refines y run)

-- While a key is held, its next consumer gets the endpoint that is there, without a bind, and a second
-- open endpoint of the key does not exist.
pub acquire-shares :
    (x : UdpLoop × Holders) (id other callback : ℕ)
    → Reaches x
    → id < x.0.built
    → (x.0.heap id).closed ≡ false
    → ((binds binds_any : Bool)
        → acquire binds binds_any callback ((x.0.heap id).key) x.0
          ≡ ok (id, subscribe id callback x.0))
      × (other < x.0.built
          → (x.0.heap other).closed ≡ false
          → (x.0.heap other).key ≡ (x.0.heap id).key
          → other ≡ id)
unfolding acquire
acquire-shares x id other callback r b o =
    let v = Reaches-Refines x r in
    let held = λ (i : ℕ) (h : i < x.0.built) (c : (x.0.heap i).closed ≡ false).
      v.registered i h (ground (arith, v.shut i h, c)) in
    (
      λ binds binds_any. ground (arith, held id b o),
      λ h c k. ground (arith, held id b o, held other h c, ap x.0.endpoints k),
    )
