-- ===== src/Transport/Arrival.antt =====
-- Which datagrams `_datagram_received` of transport.py takes for a state of its device.
use ha_352air_legacy_local.Base.{
  ℕ, ◌≡◌, refl, ◌⊎◌, inl, inr, true, false, Option, none, some, ok, err, Result, arith, Bool-cases,
  ap, ℕ_discrete,
}
use ha_352air_legacy_local.Base.Bytes.{Bytes, bytes_eq, bytes_eq→eq, bytes_eq_self}
use ha_352air_legacy_local.Models.State.{DeviceState, Endpoint, DecodedPacket}
use ha_352air_legacy_local.Codec.{decode}
use ha_352air_legacy_local.Transport.{Client}
use ha_352air_legacy_local.Transport.Receive.{
  datagram_received, decode_datagram, accept, seen, prune, remember,
}
use ha_352air_legacy_local.Transport.Trust.{FromDevice, with_window}

-- A new datagram of the client's device, with a state.
abbrev pub IsNew : Client → Bytes → ℕ → Type 0
IsNew c datagram now = (c.has_loop ≡ true) × (seen datagram (prune now c.recent_datagrams) ≡ false)

abbrev pub Arrives : Client → Bytes → Endpoint → ℕ → DecodedPacket → DeviceState → Type 0
Arrives c datagram source now packet received =
    FromDevice c datagram source packet × (packet.observed ≡ some received) × IsNew c datagram now

pub FromDevice-cases :
    (c : Client) (datagram : Bytes) (source : Endpoint)
    → ((packet : DecodedPacket) × FromDevice c datagram source packet)
      ⊎ (¬ ((packet : DecodedPacket) × FromDevice c datagram source packet))
FromDevice-cases c datagram source = decided (decode c.codec datagram source) refl
  where
    decided :
        (r : Result (Option DecodedPacket))
        → decode c.codec datagram source ≡ r
        → ((packet : DecodedPacket) × FromDevice c datagram source packet)
          ⊎ (¬ ((packet : DecodedPacket) × FromDevice c datagram source packet))
    decided (err e) q = inr (λ (p, f). absurd (ground (arith, q, f.decoded)))
    decided (ok none) q = inr (λ (p, f). absurd (ground (arith, q, f.decoded)))
    decided (ok (some packet)) q = elim (Bool-cases (bytes_eq packet.identity.mac c.identity.mac)) [
      | inr t ↦ inr (λ (p, f). other_mac p (ground (arith, q, f.decoded)) f.own_mac t)
      | inl t ↦ elim (ℕ_discrete source.port c.port) [
        | no n ↦ inr (λ (p, f). n f.own_port)
        | yes y ↦ elim (Bool-cases c.closed) [
          | inl k ↦ inr (λ (p, f). absurd (ground (arith, k, f.running)))
          | inr k ↦ inl (
            packet,
            record {
              decoded = q;
              own_mac = bytes_eq→eq packet.identity.mac c.identity.mac t;
              own_port = y;
              running = k;
            },
          )
        ]
      ]
    ]
      where
        other_mac :
            (p : DecodedPacket)
            → p ≡ packet
            → p.identity.mac ≡ c.identity.mac
            → bytes_eq packet.identity.mac c.identity.mac ≡ false
            → ⊥
        other_mac p e m t =
            ground (arith, bytes_eq_self c.identity.mac, ap (λ p. p.identity.mac) e, m, t)

pub one_packet :
    (c : Client) (datagram : Bytes) (source : Endpoint) (p q : DecodedPacket)
    → FromDevice c datagram source p
    → FromDevice c datagram source q
    → p ≡ q
one_packet c datagram source p q f g = ground (arith, f.decoded, g.decoded)

pub accepts :
    (c : Client) (datagram : Bytes) (source : Endpoint) (now : ℕ) (packet : DecodedPacket)
    → FromDevice c datagram source packet
    → IsNew c datagram now
    → datagram_received c datagram source now
      ≡ accept
          (with_window c (remember datagram now (prune now c.recent_datagrams)))
          packet
          source
          now
unfolding datagram_received decode_datagram
accepts c datagram source now packet from new =
    ground (arith, from.decoded, from.own_port, from.running, new.0, new.1)

pub ignored :
    (c : Client) (datagram : Bytes) (source : Endpoint) (now : ℕ)
    → (c.has_loop ≡ false) ⊎ (seen datagram (prune now c.recent_datagrams) ≡ true)
    → let after = datagram_received c datagram source now in
      (after.1 ≡ none) × (after.0.pending ≡ c.pending)
unfolding datagram_received
ignored c datagram source now (inl h) = ground (arith, h)
ignored c datagram source now (inr h) = ground (arith, h)
