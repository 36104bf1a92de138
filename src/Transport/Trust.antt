-- ===== src/Transport/Trust.antt =====
-- What a datagram can change in the client, and by which packets.
use ha_352air_legacy_local.Base.{
  ℕ, ◌≡◌, refl, ◌⊎◌, inl, inr, true, false, Option, none, some, Result, ok, err, arith, Bool-cases,
  Option-cases, ◌==◌, ◌||◌, not,
}
use ha_352air_legacy_local.Base.Bytes.{Bytes, bytes_eq, bytes_eq→eq, bytes_eq_self}
use ha_352air_legacy_local.Models.{HeaderIdentity}
use ha_352air_legacy_local.Models.State.{DeviceState, Endpoint, DecodedPacket}
use ha_352air_legacy_local.Codec.{decode}
use ha_352air_legacy_local.Transport.{Client}
use ha_352air_legacy_local.Transport.Receive.{
  datagram_received, decode_datagram, accept, observe, learn_identity, next_state, same_identity,
  Window, seen, prune, remember,
}

-- The client with another window of datagrams.
abbrev pub with_window : Client → Window → Client
with_window c window = record c { recent_datagrams = window }

-- The datagram is a packet of the client's device, from the device's port.
pub record FromDevice (c : Client) (datagram : Bytes) (source : Endpoint) (packet : DecodedPacket)
    : Type 0 where
  pub decoded : decode c.codec datagram source ≡ ok (some packet)
  pub own_mac : packet.identity.mac ≡ c.identity.mac
  pub own_port : source.port ≡ c.port
  pub running : c.closed ≡ false

-- Nothing but the window changes, or a packet of the device is accepted.
abbrev pub Received : Client → Bytes → Endpoint → ℕ → Type 0
Received c datagram source now =
    ((window : Window) × (datagram_received c datagram source now ≡ (with_window c window, none)))
    ⊎ ((packet : DecodedPacket) × (window : Window) × FromDevice c datagram source packet
        × (datagram_received c datagram source now
            ≡ accept (with_window c window) packet source now))

decoded :
    (c : Client) (window : Window) (datagram : Bytes) (source : Endpoint) (now : ℕ)
    (r : Result (Option DecodedPacket))
    → decode c.codec datagram source ≡ r
    → (decode_datagram (with_window c window) datagram source now ≡ (with_window c window, none))
      ⊎ ((packet : DecodedPacket) × (r ≡ ok (some packet))
          × (packet.identity.mac ≡ c.identity.mac)
          × (decode_datagram (with_window c window) datagram source now
              ≡ accept (with_window c window) packet source now))
unfolding decode_datagram accept
decoded c window datagram source now (err e) q = inl (ground arith)
decoded c window datagram source now (ok none) q = inl (ground arith)
decoded c window datagram source now (ok (some packet)) q =
    elim (Bool-cases (bytes_eq packet.identity.mac c.identity.mac)) [
      | inl t ↦ inr (packet, refl, bytes_eq→eq packet.identity.mac c.identity.mac t, ground arith)
      | inr t ↦ inl (ground arith)
    ]

pub receives :
    (c : Client) (datagram : Bytes) (source : Endpoint) (now : ℕ) → Received c datagram source now
unfolding datagram_received
receives c datagram source now =
    elim (Bool-cases (c.closed || not (source.port == c.port) || not c.has_loop)) [
      | inl t ↦ inl (c.recent_datagrams, rw t refl)
      | inr t ↦ elim (Bool-cases (seen datagram (prune now c.recent_datagrams))) [
        | inl u ↦ inl (prune now c.recent_datagrams, rw (t, u) refl)
        | inr u ↦
            let window = remember datagram now (prune now c.recent_datagrams) in
            elim (decoded c window datagram source now _ refl) [
              | inl q ↦ inl (window, rw (t, u) q)
              | inr (packet, e, m, q) ↦ inr (
                packet,
                window,
                record {
                  decoded = e;
                  own_mac = m;
                  own_port = ground arith;
                  running = ground arith;
                },
                rw (t, u) q,
              )
            ]
      ]
    ]

same_identity→eq : (a b : HeaderIdentity) → same_identity a b ≡ true → a ≡ b
same_identity→eq a b e = ground (arith, bytes_eq→eq a.mac b.mac)

pub learn_identity-eq :
    (c : Client) (learned : HeaderIdentity)
    → (learn_identity c learned)
      ≡ record c { identity = learned; delivered = (learn_identity c learned).delivered }
unfolding learn_identity
learn_identity-eq c learned = elim (Bool-cases (same_identity learned c.identity)) [
  | inl t ↦ ground (arith, same_identity→eq learned c.identity t)
  | inr t ↦ ground arith
]

-- A packet's effect: the device's identity and address are learned; without a state nothing else
-- changes, with one it is the client's state from then on.
abbrev pub Learned : Client → Client → DecodedPacket → Endpoint → Type 0
Learned before after packet source =
    (after.identity ≡ packet.identity)
    × (after.host ≡ source.host)
    × (after.port ≡ before.port)
    × (after.codec ≡ before.codec)
    × (after.model ≡ before.model)
    × (after.closed ≡ before.closed)
    × (after.outer_sequence ≡ before.outer_sequence)
    × (after.inner_sequence ≡ before.inner_sequence)

abbrev pub Observed : Client → Client → DecodedPacket → ℕ → Type 0
Observed before after packet now =
    ((packet.observed ≡ none)
      × (after.observed ≡ before.observed)
      × (after.available ≡ before.available)
      × (after.last_state_at ≡ before.last_state_at)
      × (after.pending ≡ before.pending))
    ⊎ ((received : DeviceState) × (packet.observed ≡ some received)
        × (after.observed ≡ some (next_state before packet received))
        × (after.available ≡ true)
        × (after.last_state_at ≡ some now))

accept-Learned :
    (c : Client) (packet : DecodedPacket) (source : Endpoint) (now : ℕ)
    → packet.identity.mac ≡ c.identity.mac
    → Learned c (accept c packet source now).0 packet source
unfolding accept observe
accept-Learned c packet source now e = elim (Option-cases packet.observed) [
  | inl n ↦ ground (arith, learn_identity-eq c packet.identity, bytes_eq_self c.identity.mac)
  | inr (s, n) ↦ ground (arith, learn_identity-eq c packet.identity, bytes_eq_self c.identity.mac)
]

accept-Observed :
    (c : Client) (packet : DecodedPacket) (source : Endpoint) (now : ℕ)
    → packet.identity.mac ≡ c.identity.mac
    → Observed c (accept c packet source now).0 packet now
unfolding accept observe
accept-Observed c packet source now e = elim (Option-cases packet.observed) [
  | inl n ↦ ground (arith, learn_identity-eq c packet.identity, bytes_eq_self c.identity.mac)
  | inr (s, n) ↦ ground (arith, learn_identity-eq c packet.identity, bytes_eq_self c.identity.mac)
]

-- Whatever arrives, either nothing but the duplicate window changes, or the client is open and the
-- datagram, from the device's port, decodes to a packet with the client's own MAC. Then the client
-- has the packet's identity and address and keeps its port, codec, model and sequences. A packet
-- without a state leaves the state, the availability and the waits; one with a state, merged into
-- the last one for the M25, becomes the client's state, which is available from then.
pub datagram_received_effect :
    (c : Client) (datagram : Bytes) (source : Endpoint) (now : ℕ)
    → let after = datagram_received c datagram source now in
      ((window : Window) × (after ≡ (with_window c window, none)))
      ⊎ ((packet : DecodedPacket) × FromDevice c datagram source packet
          × Learned c after.0 packet source
          × Observed c after.0 packet now)
datagram_received_effect c datagram source now = elim (receives c datagram source now) [
  | inl same ↦ inl same
  | inr (packet, window, from, e) ↦ inr (
    packet,
    from,
    rw e (accept-Learned (with_window c window) packet source now from.own_mac),
    rw e (accept-Observed (with_window c window) packet source now from.own_mac),
  )
]
