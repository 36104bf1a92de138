-- ===== src/Discovery/Totality.antt =====
-- The collectors go on whatever is received.
use ha_352air_legacy_local.Base.{
  ℕ, ◌+◌, ◌<◌, ◌≡◌, refl, inl, inr, false, Option, none, some, List, [], ◌∷◌, ◌==◌, ltb, ◌&&◌, ◌||◌,
  not, if◌then◌else◌, if_elim, length, take, drop, get_or, one_of, Result, ok, err, ◌>>=◌, All,
  arith,
}
use ha_352air_legacy_local.Base.Bytes.{Bytes, IsBytes, at, at-get_or, bytes_eq}
use ha_352air_legacy_local.Crc.{f072_prefix}
use ha_352air_legacy_local.Models.State.{Text, Endpoint, DiscoveryResult}
use ha_352air_legacy_local.Outer.{Parsed, rejected, frame, parse_outer_frame}
use ha_352air_legacy_local.Outer.RoundTrip.{parse_outer_frame_total}
use ha_352air_legacy_local.Discovery.{
  decode_discovery_reply, decode_passive_status, passive_parsed, valid_state, m25_layout,
  f072_layout, f072_frame, device_port, found,
}
use ha_352air_legacy_local.Discovery.Replies.{decode_discovery_reply-Verdict}
use ha_352air_legacy_local.Discovery.Search.{
  NetworkSearch, network_parsed, network_received, all_wire_types, any_equal, no_macs, differs,
}
use ha_352air_legacy_local.Discovery.Found.{IsSearch, network_received-Keeps}

-- No exception.
abbrev pub Returns {ℓ} : {A : Type ℓ} → Result A → Type ℓ
Returns {A} r = (a : A) × (r ≡ ok a)

pub bind-Returns {ℓ κ} :
    {A : Type ℓ} {B : Type κ} (r : Result A) (next : A → Result B)
    → Returns r
    → ((a : A) → Returns (next a))
    → Returns (r >>= next)
bind-Returns (err x) next (a, e) h = absurd (cc e)
bind-Returns (ok a) next r h = h a

at-Returns : (xs : Bytes) (i : ℕ) → i < length xs → Returns (at xs i)
at-Returns xs i h = (get_or xs i 0, at-get_or xs i h)

m25_layout-Returns : (payload : Bytes) → Returns (m25_layout payload)
m25_layout-Returns payload =
    if_elim Returns (not (length payload == 17)) _ _ (λ _. (false, refl))
      (λ t. bind-Returns _ _ (at-Returns payload 0 (ground (arith, t))) (λ a.
        bind-Returns _ _ (at-Returns payload 1 (ground (arith, t)))
          (λ b. bind-Returns _ _ (at-Returns payload 2 (ground (arith, t))) (λ c. (_, refl)))))

f072_frame-Returns : (inner : Bytes) (n : ℕ) → Returns (f072_frame inner n)
f072_frame-Returns inner n =
    if_elim Returns (ltb (length inner) (n + 9) || not (bytes_eq (take 2 inner) f072_prefix)) _ _
      (λ _. (false, refl))
      (λ t.
        bind-Returns _ _ (at-Returns inner 5 (ground (arith, t)))
          (λ a. bind-Returns _ _ (at-Returns inner 6 (ground (arith, t))) (λ b. (_, refl))))

f072_layout-Returns : (payload : Bytes) (wire_type : ℕ) → Returns (f072_layout payload wire_type)
f072_layout-Returns payload wire_type =
    if_elim Returns (ltb (length payload) 16) _ _ (λ _. (false, refl))
      (λ t. bind-Returns _ _ (at-Returns payload 0 (ground (arith, t))) (λ route.
        if_elim Returns (one_of route (0x01 ∷ 0x02 ∷ [])) _ _
          (λ _. f072_frame-Returns (drop 1 payload) _) (λ _. (false, refl))))

valid_state-Returns : (wire_type : ℕ) (payload : Bytes) → Returns (valid_state wire_type payload)
unfolding valid_state
valid_state-Returns wire_type payload =
    if_elim Returns (wire_type == 1) _ _ (λ _. m25_layout-Returns payload)
      (λ _.
        if_elim Returns (wire_type == 2) _ _ (λ _. (_, refl))
          (λ _.
            if_elim Returns (one_of wire_type (3 ∷ 4 ∷ [])) _ _
              (λ _. f072_layout-Returns payload wire_type) (λ _. (false, refl))))

parse-Returns : (datagram : Bytes) → IsBytes datagram → Returns (parse_outer_frame datagram)
parse-Returns datagram b = let (p, e, _) = parse_outer_frame_total datagram b in (p, e)

pub decode_passive_status-Returns :
    (datagram : Bytes) (source : Endpoint) (host : Text) (mac : Bytes) (wire_types : List ℕ)
    → IsBytes datagram
    → Returns (decode_passive_status datagram source host mac wire_types)
unfolding decode_passive_status passive_parsed
decode_passive_status-Returns datagram source host mac wire_types b =
    if_elim Returns (bytes_eq source.host host && source.port == device_port) _ _
      (λ _. bind-Returns _ _ (parse-Returns datagram b) passive) (λ _. (none, refl))
  where
    passive : (outer : Parsed) → Returns (passive_parsed host mac wire_types outer)
    passive (rejected _) = (none, refl)
    passive (frame outer) =
        if_elim Returns
          (outer.operation == 0x04
            && bytes_eq outer.identity.mac mac
            && one_of outer.identity.wire_type wire_types)
          _ _
          (λ _.
            bind-Returns _ _ (valid_state-Returns outer.identity.wire_type outer.payload)
              (λ v. (_, refl)))
          (λ _. (none, refl))

network_parsed-Returns :
    (s : NetworkSearch) (datagram : Bytes) (source : Endpoint)
    → IsBytes datagram
    → (outer : Parsed) → Returns (network_parsed s datagram source outer)
unfolding network_parsed
network_parsed-Returns s datagram source b (rejected _) = (s, refl)
network_parsed-Returns s datagram source b (frame outer) =
    if_elim Returns
      (source.port == device_port
        && one_of outer.identity.wire_type all_wire_types
        && not (any_equal outer.identity.mac no_macs))
      _ _ (λ _. bind-Returns _ _ (bind-Returns _ _ reply found') (λ read. (_, refl)))
      (λ _. (s, refl))
  where
    reply : Returns (decode_discovery_reply datagram source)
    reply = elim (decode_discovery_reply-Verdict datagram source b) [
      | inl (f, _, e) ↦ (_, e)
      | inr (_, e) ↦ (none, e)
    ]

    passive :
        Returns
          (decode_passive_status datagram source source.host outer.identity.mac all_wire_types)
    passive =
        decode_passive_status-Returns datagram source source.host outer.identity.mac all_wire_types
          b

    found' :
        (decoded : Option DiscoveryResult)
        → Returns (elim decoded [
          | none ↦
              decode_passive_status datagram source source.host outer.identity.mac all_wire_types
          | some reply ↦
              if one_of reply.sequence s.sequences
              then ok (some (found reply.host reply.identity))
              else decode_passive_status datagram source source.host outer.identity.mac
                  all_wire_types
        ])
    found' none = passive
    found' (some reply) =
        if_elim Returns (one_of reply.sequence s.sequences) _ _ (λ _. (_, refl)) (λ _. passive)

network_received-Returns :
    (s : NetworkSearch) (datagram : Bytes) (source : Endpoint)
    → IsBytes datagram
    → Returns (network_received s datagram source)
unfolding network_received
network_received-Returns s datagram source b =
    if_elim Returns (differs s.expected_host source.host) _ _ (λ _. (_, refl))
      (λ _.
        bind-Returns _ _ (parse-Returns datagram b)
          (network_parsed-Returns (record s { received = s.received + 1 }) datagram source b))

-- The datagrams of a search, in order.
unfoldable pub network_run : NetworkSearch → List (Bytes × Endpoint) → Result NetworkSearch
network_run s [] = ok s
network_run s ((datagram, source) ∷ packets) = do
  next ← network_received s datagram source
  network_run next packets

-- Whatever datagrams of bytes arrive, from whomever, a network search that holds nothing raises no
-- exception, and then holds at most 64 results, each once, under its own MAC, which is not excluded and
-- is the expected one if there is one.
pub network_run-IsSearch :
    (s : NetworkSearch) (packets : List (Bytes × Endpoint))
    → IsSearch s
    → All (λ packet. IsBytes (packet.0)) packets
    → (t : NetworkSearch) × (network_run s packets ≡ ok t) × IsSearch t
unfolding network_run
network_run-IsSearch s [] v b = (s, refl, v)
network_run-IsSearch s ((datagram, source) ∷ packets) v b =
    let (next, e) = network_received-Returns s datagram source (b.0) in
    let (t, f, w) =
      network_run-IsSearch next packets (network_received-Keeps s datagram source v next e) (b.1) in
    (t, rw (e, f) refl, w)
