-- ===== src/Transport/Waits.antt =====
-- Which waits a datagram answers.
use ha_352air_legacy_local.Base.{
  ◌∙◌, ℕ, ◌≡◌, ◌⊎◌, inl, inr, true, false, Option, none, Error, arith, Bool-cases, Option-cases,
  All, ap, sym,
}
use mathlib.Core.Path.{subst}
use ha_352air_legacy_local.Base.Bytes.{Bytes}
use ha_352air_legacy_local.Models.State.{DeviceState, Endpoint, DecodedPacket}
use ha_352air_legacy_local.Transport.{Client}
use ha_352air_legacy_local.Transport.Receive.{datagram_received, next_state, seen, prune, remember}
use ha_352air_legacy_local.Transport.Arrival.{
  Arrives, FromDevice-cases, one_packet, accepts, ignored,
}
use ha_352air_legacy_local.Transport.Trust.{FromDevice, learn_identity-eq, receives, with_window}
use ha_352air_legacy_local.Transport.Settling.{
  Confirmable, Settles, Pairwise, accept_stateless, accept-Outcome,
}

abbrev pub Unsettled : Client → Bytes → Endpoint → ℕ → Type 0
Unsettled c datagram source now =
    (¬ (
      (packet : DecodedPacket) × (received : DeviceState) × Arrives c datagram source now packet
        received))
    × ((datagram_received c datagram source now).0.pending ≡ c.pending)

abbrev pub SettlesAll : Client → Bytes → Endpoint → ℕ → Type 0
SettlesAll c datagram source now =
    (packet : DecodedPacket) × (received : DeviceState) × Arrives c datagram source now packet
      received
    × Pairwise
        (Settles (datagram_received c datagram source now).0 packet (next_state c packet received)
          now)
        c.pending (datagram_received c datagram source now).0.pending

abbrev Waiting : Client → Bytes → Endpoint → ℕ → Type 0
Waiting c datagram source now =
    ((datagram_received c datagram source now).1 ≡ none)
    × (Unsettled c datagram source now ⊎ SettlesAll c datagram source now)

foreign-Waiting :
    (c : Client) (datagram : Bytes) (source : Endpoint) (now : ℕ)
    → (¬ ((packet : DecodedPacket) × FromDevice c datagram source packet))
    → Waiting c datagram source now
foreign-Waiting c datagram source now foreign = elim (receives c datagram source now) [
  | inl (window, e) ↦
      (ap (λ r. r.1) e, inl (λ (p, s, a). foreign (p, a.0), ap (λ r. r.0.pending) e))
  | inr (packet, window, from, e) ↦ absurd (foreign (packet, from))
]

stateless-Waiting :
    (c : Client) (datagram : Bytes) (source : Endpoint) (now : ℕ) (packet : DecodedPacket)
    → FromDevice c datagram source packet
    → packet.observed ≡ none
    → Waiting c datagram source now
stateless-Waiting c datagram source now packet from n = elim (receives c datagram source now) [
  | inl (window, e) ↦ (ap (λ r. r.1) e, inl (never, ap (λ r. r.0.pending) e))
  | inr (other, window, again, e) ↦
      let same = one_packet c datagram source other packet again from in
      let quiet =
        accept_stateless (with_window c window) other source now again.own_mac
          (ap (λ p. p.observed) same ∙ n) in
      let learnt = learn_identity-eq (with_window c window) other.identity in
      (
        ap (λ r. r.1) (e ∙ quiet),
        inl (never, ap (λ r. r.0.pending) (e ∙ quiet) ∙ ap (λ d. d.pending) learnt),
      )
]
  where
    never : ¬ (
        (p : DecodedPacket) × (received : DeviceState) × Arrives c datagram source now p received)
    never (p, s, (f, o, new)) =
        absurd (
          ground (arith, n, o, ap (λ p. p.observed) (one_packet c datagram source p packet f from)))

old-Waiting :
    (c : Client) (datagram : Bytes) (source : Endpoint) (now : ℕ)
    → (c.has_loop ≡ false) ⊎ (seen datagram (prune now c.recent_datagrams) ≡ true)
    → Waiting c datagram source now
old-Waiting c datagram source now old =
    let (r, same) = ignored c datagram source now old in (r, inl (never old, same))
  where
    never :
        (c.has_loop ≡ false) ⊎ (seen datagram (prune now c.recent_datagrams) ≡ true)
        → ¬ (
            (p : DecodedPacket) × (received : DeviceState) × Arrives c datagram source now p
              received)
    never (inl h) (p, s, (f, o, new)) = absurd (ground (arith, h, new.0))
    never (inr h) (p, s, (f, o, new)) = absurd (ground (arith, h, new.1))

-- The client behind the window's new datagram.
abbrev opened : Client → Bytes → ℕ → Client
opened c datagram now = with_window c (remember datagram now (prune now c.recent_datagrams))

new-Waiting :
    (c : Client) (datagram : Bytes) (source : Endpoint) (now : ℕ) (packet : DecodedPacket)
    (received : DeviceState)
    → Arrives c datagram source now packet received
    → All (Confirmable c.codec) c.pending
    → Waiting c datagram source now
new-Waiting c datagram source now packet received (from, n, new) k =
    let r = accept-Outcome (opened c datagram now) packet source now from.own_mac k in
    subst
      (λ (r : Client × Option Error).
        (r.1 ≡ none)
        × (Unsettled c datagram source now
            ⊎ ((packet : DecodedPacket) × (received : DeviceState) × Arrives c datagram source now
                  packet received
                × Pairwise (Settles r.0 packet (next_state c packet received) now) c.pending
                    r.0.pending)))
      (sym (accepts c datagram source now packet from new))
      (
        r.0,
        elim r.1 [
          | inl (m, same) ↦ absurd (ground (arith, m, n))
          | inr (s, m, all) ↦ inr (packet, s, (from, m, new), all)
        ],
      )

-- If every power, lock and display command that is waited for has a documented value, and every
-- percentage is 0, or at most 100 with the codec of a G30 or G45, no datagram makes the client raise.
-- Unless it is a packet of the device with a state, from the device's port, to an open client that
-- was started and has not seen it in its window, it changes no wait. If it is, exactly the waits
-- that it settles are done, with the client's new state as their result, and the others are as they
-- were. A wait is settled if it was open, is not newer than the packet, waits for its kind, is
-- answered by a sequence number or by a report the device sends unasked, and has no command, or one
-- whose setting the new state reports, or one that no state reports: a filter command, or a PTC
-- command if the state has no PTC setting.
pub datagram_received_waits :
    (c : Client) (datagram : Bytes) (source : Endpoint) (now : ℕ)
    → All (Confirmable c.codec) c.pending
    → ((datagram_received c datagram source now).1 ≡ none)
      × (Unsettled c datagram source now ⊎ SettlesAll c datagram source now)
datagram_received_waits c datagram source now k = elim (FromDevice-cases c datagram source) [
  | inr foreign ↦ foreign-Waiting c datagram source now foreign
  | inl (packet, from) ↦ elim (Option-cases packet.observed) [
    | inl n ↦ stateless-Waiting c datagram source now packet from n
    | inr (received, n) ↦ elim (Bool-cases c.has_loop) [
      | inr h ↦ old-Waiting c datagram source now (inl h)
      | inl h ↦ elim (Bool-cases (seen datagram (prune now c.recent_datagrams))) [
        | inl u ↦ old-Waiting c datagram source now (inr u)
        | inr u ↦ new-Waiting c datagram source now packet received (from, n, (h, u)) k
      ]
    ]
  ]
]
