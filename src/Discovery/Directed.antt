-- ===== src/Discovery/Directed.antt =====
-- What the search for a known device accepts.
use ha_352air_legacy_local.Base.{
  ◌+◌, ◌≡◌, refl, ap, sym, ◌∙◌, inl, inr, Bool, true, false, Option, none, some, List, [], ◌∷◌,
  ◌==◌, ◌&&◌, if_elim, one_of, Result, ok, err, ◌>>=◌, All, arith, some_if, Option-cases,
}
use mathlib.Core.Path.{subst}
use ha_352air_legacy_local.Base.Bytes.{Bytes, IsBytes, bytes_eq, bytes_eq→eq}
use ha_352air_legacy_local.Models.State.{Endpoint, DiscoveryResult}
use ha_352air_legacy_local.Outer.{OuterFrame, Parsed, rejected, frame, parse_outer_frame}
use ha_352air_legacy_local.Schedule.{Device}
use ha_352air_legacy_local.Discovery.{
  wanted, decode_discovery_reply, decode_reply, decode_passive_status, passive_parsed, found,
  device_port, valid_state,
}
use ha_352air_legacy_local.Discovery.Replies.{decode_discovery_reply-Verdict}
use ha_352air_legacy_local.Discovery.Search.{
  DirectedSearch, known_type, read_directed, directed_received,
}

-- A result is of the device that is sought, and of a wire type that is.
abbrev pub IsSought : DirectedSearch → Device → Type 0
IsSought s d =
    (d.host ≡ s.expected_host) × (d.mac ≡ s.expected_mac) × (one_of d.wire_type s.wire_types ≡ true)

abbrev Sought : DirectedSearch → Option Device → Type 0
Sought s none = Unit {0}
Sought s (some d) = IsSought s d

-- What a call returns, if it does, has the property.
abbrev Ensures {ℓ κ} : {A : Type ℓ} → (A → Type κ) → Result A → Type (ℓ ⊔ κ)
Ensures {A} P r = (a : A) → r ≡ ok a → P a

bind-Ensures {ℓ κ μ} :
    {A : Type ℓ} {B : Type κ} (P : B → Type μ) (r : Result A) (next : A → Result B)
    → ((a : A) → r ≡ ok a → Ensures P (next a))
    → Ensures P (r >>= next)
bind-Ensures P (err x) next h b e = absurd (cc e)
bind-Ensures P (ok a) next h b e = h a refl b e

ok-Ensures {ℓ κ} : {A : Type ℓ} (P : A → Type κ) (a : A) → P a → Ensures P (ok a)
ok-Ensures P a p b e = subst P (ground (arith, e)) p

passive-Sought :
    (s : DirectedSearch) (datagram : Bytes) (source : Endpoint)
    → Ensures
        (Sought s)
        (decode_passive_status datagram source s.expected_host s.expected_mac s.wire_types)
unfolding decode_passive_status passive_parsed
passive-Sought s datagram source =
    if_elim (Ensures (Sought s))
      (bytes_eq source.host s.expected_host && source.port == device_port) _ _
      (λ _. bind-Ensures (Sought s) (parse_outer_frame datagram) _ (λ outer _. parsed outer))
      (λ _. ok-Ensures (Sought s) none tt)
  where
    parsed :
        (outer : Parsed)
        → Ensures (Sought s) (passive_parsed s.expected_host s.expected_mac s.wire_types outer)
    parsed (rejected _) = ok-Ensures (Sought s) none tt
    parsed (frame outer) =
        if_elim (Ensures (Sought s))
          (outer.operation == 0x04
            && bytes_eq outer.identity.mac s.expected_mac
            && one_of outer.identity.wire_type s.wire_types)
          _ _
          (λ t.
            bind-Ensures (Sought s) (valid_state outer.identity.wire_type outer.payload) _
              (λ v _. if_elim' v outer t))
          (λ _. ok-Ensures (Sought s) none tt)
      where
        if_elim' :
            (v : Bool) (outer : OuterFrame)
            → (outer.operation == 0x04
                && bytes_eq outer.identity.mac s.expected_mac
                && one_of outer.identity.wire_type s.wire_types)
              ≡ true
            → Ensures (Sought s) (ok (some_if v (found s.expected_host outer.identity)))
        if_elim' true outer t = ok-Ensures (Sought s) _ (
          refl,
          bytes_eq→eq outer.identity.mac s.expected_mac (ground (arith, t)),
          ground (arith, t),
        )
        if_elim' false outer t = ok-Ensures (Sought s) none tt

known-Sought :
    (s : DirectedSearch) (d : Device)
    → d.host ≡ s.expected_host
    → d.mac ≡ s.expected_mac
    → Sought s (known_type s (some d))
known-Sought s d h m =
    if_elim (Sought s) (one_of d.wire_type s.wire_types) _ _ (λ t. (h, m, t)) (λ _. tt)

-- The result of a directed reply: of the sought MAC, at the sender's address.
reply-Ensures :
    (s : DirectedSearch) (datagram : Bytes) (source : Endpoint)
    → IsBytes datagram
    → source.host ≡ s.expected_host
    → Ensures
        (λ read. Sought s (known_type s read))
        (decode_reply datagram source s.expected_mac s.sequences)
unfolding decode_reply
reply-Ensures s datagram source b h =
    bind-Ensures P (decode_discovery_reply datagram source) _ replied
  where
    P : Option Device → Type 0
    P read = Sought s (known_type s read)

    replied :
        (decoded : Option DiscoveryResult)
        → decode_discovery_reply datagram source ≡ ok decoded
        → Ensures P (
            ok (elim decoded [
              | none ↦ none
              | some result ↦
                  some_if
                    (wanted s.expected_mac s.sequences result)
                    (found result.host result.identity)
            ]))
    replied none e = ok-Ensures P none tt
    replied (some result) e = wanted_found (wanted s.expected_mac s.sequences result) refl
      where
        host : result.host ≡ s.expected_host
        host = elim (decode_discovery_reply-Verdict datagram source b) [
          | inl (f, _, g) ↦ ground (arith, e, g, h)
          | inr (_, g) ↦ absurd (ground (arith, e, g))
        ]

        wanted_found :
            (w : Bool)
            → wanted s.expected_mac s.sequences result ≡ w
            → Ensures P (ok (some_if w (found result.host result.identity)))
        wanted_found false w = ok-Ensures P none tt
        wanted_found true w = ok-Ensures P _ (
            known-Sought s (found result.host result.identity) host
              (bytes_eq→eq result.identity.mac s.expected_mac (ground (arith, w))))

read-Sought :
    (s : DirectedSearch) (datagram : Bytes) (source : Endpoint)
    → IsBytes datagram
    → source.host ≡ s.expected_host
    → Ensures (Sought s) (read_directed s datagram source)
read-Sought s datagram source b h =
    bind-Ensures (Sought s) (decode_reply datagram source s.expected_mac s.sequences) _
      (λ reply e. chosen (known_type s reply) (reply-Ensures s datagram source b h reply e))
  where
    chosen :
        (known : Option Device)
        → Sought s known
        → Ensures (Sought s) (elim known [
          | some device ↦ ok (some device)
          | none ↦ decode_passive_status datagram source s.expected_host s.expected_mac s.wire_types
        ])
    chosen none k = passive-Sought s datagram source
    chosen (some device) k = ok-Ensures (Sought s) (some device) k

-- The search still seeks the same, and its result is of it.
abbrev Follows : DirectedSearch → DirectedSearch → Type 0
Follows s t =
    (t.expected_host ≡ s.expected_host)
    × (t.expected_mac ≡ s.expected_mac)
    × (t.wire_types ≡ s.wire_types)
    × Sought s t.result

received-Follows :
    (s : DirectedSearch) (datagram : Bytes) (source : Endpoint)
    → IsBytes datagram
    → Sought s s.result
    → Ensures (Follows s) (directed_received s datagram source)
unfolding directed_received
received-Follows s datagram source b v = elim (Option-cases s.result) [
  | inr (d, r) ↦ rw (directed_received, r) (ok-Ensures (Follows s) s (refl, refl, refl, v))
  | inl r ↦
      rw (directed_received, r)
        (if_elim (Ensures (Follows s)) (bytes_eq source.host s.expected_host) _ _
          (λ h. bind-Ensures (Follows s) (read_directed s datagram source) _ (λ read e.
            ok-Ensures (Follows s)
              (record s {
                received = s.received + 1;
                target_received = s.target_received + 1;
                result = read;
              })
              (
                refl,
                refl,
                refl,
                read-Sought s datagram source b (bytes_eq→eq source.host s.expected_host h) read e,
              )))
          (λ _.
            ok-Ensures (Follows s) (record s { received = s.received + 1 }) (refl, refl, refl, v)))
]

same-Sought :
    (s n : DirectedSearch) (o : Option Device)
    → n.expected_host ≡ s.expected_host
    → n.expected_mac ≡ s.expected_mac
    → n.wire_types ≡ s.wire_types
    → Sought n o
    → Sought s o
same-Sought s n none h m w v = tt
same-Sought s n (some d) h m w v = (v.0 ∙ h, v.1 ∙ m, ap (one_of d.wire_type) (sym w) ∙ v.2)

-- The datagrams of a search, in order.
unfoldable pub directed_run : DirectedSearch → List (Bytes × Endpoint) → Result DirectedSearch
directed_run s [] = ok s
directed_run s ((datagram, source) ∷ packets) = do
  next ← directed_received s datagram source
  directed_run next packets

run-Follows :
    (s : DirectedSearch) (packets : List (Bytes × Endpoint))
    → All (λ packet. IsBytes (packet.0)) packets
    → Sought s s.result
    → Ensures (Follows s) (directed_run s packets)
unfolding directed_run
run-Follows s [] b v = ok-Ensures (Follows s) s (refl, refl, refl, v)
run-Follows s ((datagram, source) ∷ packets) b v =
    bind-Ensures (Follows s) (directed_received s datagram source) _ (λ next e.
      let (h, m, w, r) = received-Follows s datagram source (b.0) v next e in
      λ t f.
        let (h', m', w', r') =
          run-Follows next packets (b.1) (same-Sought next s next.result (sym h) (sym m) (sym w) r)
            t f in
        (h' ∙ h, m' ∙ m, w' ∙ w, same-Sought s next t.result h m w r'))

-- Whatever datagrams of bytes arrive, a search for a known device ends up with no result but one of the
-- sought MAC, at the sought address, of a sought wire type.
pub directed_run-IsSought :
    (s t : DirectedSearch) (packets : List (Bytes × Endpoint)) (d : Device)
    → All (λ packet. IsBytes (packet.0)) packets
    → s.result ≡ none
    → directed_run s packets ≡ ok t
    → t.result ≡ some d
    → IsSought s d
directed_run-IsSought s t packets d b n e r =
    let (_, _, _, sought) = run-Follows s packets b (subst (Sought s) (sym n) tt) t e in
    subst (Sought s) r sought
