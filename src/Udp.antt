-- ===== src/Udp.antt =====
-- The shared socket of udp.py on one event loop: the objects of the endpoints by number, and the
-- dictionary of the loop. The loop's lock makes each call one step. A callback is its identity.
pub mod Holders
pub mod Sharing
pub mod Refining
use ha_352air_legacy_local.Base.{
  ℕ, zero, suc, ◌+◌, ◌-◌, ◌≡◌, refl, Bool, true, false, Option, none, some, List, [], ◌∷◌, ◌==◌,
  ◌&&◌, ◌||◌, not, if◌then◌else◌, one_of, Result, ok, err, os_error, arith, ap,
}
use ha_352air_legacy_local.Base.Bytes.{bytes_eq, bytes_eq_self, bytes_eq→eq}
use ha_352air_legacy_local.Models.State.{Endpoint}

pub record SharedUdpEndpoint : Type 0 where
  pub key : Endpoint
  pub bound_port : ℕ
  pub callbacks : List ℕ
  pub references : ℕ
  pub closed : Bool

-- _ENDPOINTS[loop], and the objects that were built.
pub record UdpLoop : Type 0 where
  pub endpoints : Endpoint → Option ℕ
  pub heap : ℕ → SharedUdpEndpoint
  pub built : ℕ

unfoldable pub same_key : Endpoint → Endpoint → Bool
same_key a b = bytes_eq a.host b.host && a.port == b.port

-- endpoints[key] = …, and del endpoints[key]
abbrev pub assign : (Endpoint → Option ℕ) → Endpoint → Option ℕ → Endpoint → Option ℕ
assign endpoints key value k = if same_key k key then value else endpoints k

abbrev pub store : (ℕ → SharedUdpEndpoint) → ℕ → SharedUdpEndpoint → ℕ → SharedUdpEndpoint
store heap id e i = if i == id then e else heap i

-- set.add and set.discard
abbrev pub add : ℕ → List ℕ → List ℕ
add x xs = if one_of x xs then xs else x ∷ xs

unfoldable pub discard : ℕ → List ℕ → List ℕ
discard x [] = []
discard x (y ∷ ys) = if x == y then discard x ys else y ∷ discard x ys

unfoldable pub subscribe : ℕ → ℕ → UdpLoop → UdpLoop
subscribe id callback l =
    let e = l.heap id in
    record l {
      heap =
          store l.heap id
            (record e { references = e.references + 1; callbacks = add callback e.callbacks });
    }

unfoldable pub build : Endpoint → ℕ → UdpLoop → UdpLoop
build key bound_port l = record {
  endpoints = assign l.endpoints key (some l.built);
  heap = store l.heap l.built (record {
    key = key;
    bound_port = bound_port;
    callbacks = [];
    references = 0;
    closed = false;
  });
  built = l.built + 1;
}

-- async_acquire_udp_endpoint; the Booleans say whether create_datagram_endpoint succeeds for the port,
-- and for the port 0.
unfoldable pub acquire : Bool → Bool → ℕ → Endpoint → UdpLoop → Result (ℕ × UdpLoop)
acquire binds binds_any callback key l = elim (l.endpoints key) [
  | some id ↦ ok (id, subscribe id callback l)
  | none ↦
      if binds
      then ok (l.built, subscribe l.built callback (build key key.port l))
      else if key.port == 0
      then err os_error
      else if binds_any
      then ok (l.built, subscribe l.built callback (build key 0 l))
      else err os_error
]

abbrev registered_as : Option ℕ → ℕ → Bool
registered_as none id = false
registered_as (some other) id = other == id

-- The end of a release: by the last holder, or by another one.
abbrev pub shut_down : ℕ → SharedUdpEndpoint → UdpLoop → UdpLoop
shut_down id e l = record l {
  endpoints =
      (if registered_as (l.endpoints e.key) id then assign l.endpoints e.key none else l.endpoints);
  heap = store l.heap id (record e { closed = true });
}

abbrev pub keep : ℕ → SharedUdpEndpoint → UdpLoop → UdpLoop
keep id e l = record l { heap = store l.heap id e }

-- `max(0, n - 1)` is subtraction here.
abbrev pub unsubscribed : ℕ → SharedUdpEndpoint → SharedUdpEndpoint
unsubscribed callback e = record e {
  callbacks = discard callback e.callbacks;
  references = e.references - 1;
}

-- async_release_udp_endpoint
unfoldable pub release : ℕ → ℕ → UdpLoop → UdpLoop
release id callback l =
    let e = unsubscribed callback (l.heap id) in
    if e.references == 0 then shut_down id e l else keep id e l

-- _dispatch: the callbacks that a datagram of the endpoint reaches; one that raises stops no other.
abbrev pub dispatched : ℕ → UdpLoop → List ℕ
dispatched id l = (l.heap id).callbacks

pub same_key_self : (k : Endpoint) → same_key k k ≡ true
unfolding same_key
same_key_self k = ground (arith, bytes_eq_self k.host)

pub same_key→eq : (a b : Endpoint) → same_key a b ≡ true → a ≡ b
unfolding same_key
same_key→eq a b h =
    let hosts : a.host ≡ b.host = bytes_eq→eq a.host b.host (ground arith) in
    let ports : a.port ≡ b.port = ground arith in λ i. record { host = hosts i; port = ports i }
