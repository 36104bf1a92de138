-- ===== src/Transport/Settling.antt =====
-- Which waits `_resolve_matching_pending` of transport.py answers with a state.
use ha_352air_legacy_local.Base.{
  ◌++◌, ℕ, ◌≤◌, ◌≡◌, refl, ◌⊎◌, inl, inr, true, false, Option, none, some, List, [], ◌∷◌, ok, Error,
  arith, Bool-cases, Option-cases, one_of, All, ap, sym,
}
use mathlib.Core.Path.{subst}
use ha_352air_legacy_local.Base.Bytes.{bytes_eq_self}
use ha_352air_legacy_local.Models.{PacketKind, same_kind, CommandContext, Command}
use ha_352air_legacy_local.Models.State.{DeviceState, Endpoint, DecodedPacket, lookup}
use ha_352air_legacy_local.Codec.{DeviceCodec}
use ha_352air_legacy_local.Transport.{Client, state_event, PendingState, preview_context}
use ha_352air_legacy_local.Transport.Confirm.{
  Reports, IsUnreported, IsConfirmable, state_confirms_command_exact,
}
use ha_352air_legacy_local.Transport.Receive.{
  accept, observe, learn_identity, next_state, matches, matched_inner, is_broadcast, confirmed,
  resolve, resolve_pending, resolved,
}
use ha_352air_legacy_local.Transport.Trust.{learn_identity-eq}

-- The packet is an answer to the wait's own request, or a report that the device sends by itself.
abbrev pub Answers : DecodedPacket → PendingState → Type 0
Answers packet p =
    (one_of packet.sequence p.outer_sequences ≡ true)
    ⊎ ((matched_inner packet.inner_sequence p.inner_sequences ≡ true)
        ⊎ (is_broadcast (lookup "outer_operation" packet.raw_metadata) ≡ true))

-- What there is to show: nothing without a command; else that the state reports what the command asks
-- for, unless no state can.
abbrev ShowsAll : DeviceCodec → CommandContext → DeviceState → Option Command → Type 0
ShowsAll codec context s none = Unit
ShowsAll codec context s (some command) =
    Reports codec context s command.operation command.value ⊎ IsUnreported s command.operation

-- The wait is open and not newer than the packet, which is of the kind it waits for and answers it;
-- the state shows what there is to show.
abbrev pub Settled : Client → DecodedPacket → DeviceState → ℕ → PendingState → Type 0
Settled c packet s now p =
    (p.outcome ≡ none)
    × (p.created_at ≤ now)
    × (packet.kind ≡ p.expected_kind)
    × Answers packet p
    × ShowsAll c.codec (preview_context c) s p.command

abbrev pub Confirmable : DeviceCodec → PendingState → Type 0
Confirmable codec p =
    (command : Command)
    → p.command ≡ some command
    → IsConfirmable codec command.operation command.value

same_kind→eq : (a b : PacketKind) → same_kind a b ≡ true → a ≡ b
same_kind→eq a b e = ground arith

eq→same_kind : (a b : PacketKind) → a ≡ b → same_kind a b ≡ true
eq→same_kind a b e = ground arith

abbrev Matched : DecodedPacket → ℕ → PendingState → Type 0
Matched packet now p =
    (p.outcome ≡ none) × (p.created_at ≤ now) × (packet.kind ≡ p.expected_kind) × Answers packet p

matches-Matched :
    (packet : DecodedPacket) (now : ℕ) (p : PendingState)
    → ((matches packet now p ≡ true) × Matched packet now p)
      ⊎ ((matches packet now p ≡ false) × (¬ Matched packet now p))
unfolding matches
matches-Matched packet now p = elim (Bool-cases (same_kind packet.kind p.expected_kind)) [
  | inl t ↦ let k = same_kind→eq packet.kind p.expected_kind t in ground arith
  | inr t ↦ inr (ground arith, λ m. cc (eq→same_kind packet.kind p.expected_kind m.2))
]

-- The wait after the packet.
abbrev pub Settles : Client → DecodedPacket → DeviceState → ℕ → PendingState → PendingState → Type 0
Settles c packet s now p q =
    (Settled c packet s now p × (q ≡ resolved p s)) ⊎ ((¬ Settled c packet s now p) × (q ≡ p))

confirmed-ShowsAll :
    (c : Client) (s : DeviceState) (command : Option Command)
    → ((k : Command) → command ≡ some k → IsConfirmable c.codec k.operation k.value)
    → ((confirmed c s command ≡ ok true) × ShowsAll c.codec (preview_context c) s command)
      ⊎ ((confirmed c s command ≡ ok false) × (¬ ShowsAll c.codec (preview_context c) s command))
confirmed-ShowsAll c s none k = inl (refl, tt)
confirmed-ShowsAll c s (some command) k = state_confirms_command_exact c s command (k command refl)

resolve-Settles :
    (c : Client) (packet : DecodedPacket) (s : DeviceState) (now : ℕ) (p : PendingState)
    → Confirmable c.codec p
    → (q : PendingState) × (resolve c packet s now p ≡ ok q) × Settles c packet s now p q
unfolding resolve
resolve-Settles c packet s now p k = elim (matches-Matched packet now p) [
  | inr (t, n) ↦ (p, ground arith, inr (λ m. n (m.0, m.1, m.2, m.3), refl))
  | inl (t, m) ↦ elim (confirmed-ShowsAll c s p.command k) [
    | inl (u, h) ↦ (resolved p s, rw (resolve, t, u) refl, inl ((m.0, m.1, m.2, m.3, h), refl))
    | inr (u, h) ↦ (p, rw (resolve, t, u) refl, inr (λ x. h x.4, refl))
  ]
]

-- Related element by element.
abbrev pub Pairwise :
    (PendingState → PendingState → Type 0) → List PendingState → List PendingState → Type 0
Pairwise R [] [] = Unit
Pairwise R [] (q ∷ qs) = ⊥
Pairwise R (p ∷ ps) [] = ⊥
Pairwise R (p ∷ ps) (q ∷ qs) = R p q × Pairwise R ps qs

resolve_pending-Settles :
    (c : Client) (packet : DecodedPacket) (s : DeviceState) (now : ℕ) (ps : List PendingState)
    → All (Confirmable c.codec) ps
    → ((resolve_pending c packet s now ps).1 ≡ none)
      × Pairwise (Settles c packet s now) ps (resolve_pending c packet s now ps).0
unfolding resolve_pending
resolve_pending-Settles c packet s now [] k = (refl, tt)
resolve_pending-Settles c packet s now (p ∷ ps) k =
    let (q, e, settles) = resolve-Settles c packet s now p k.0 in
    let rest = resolve_pending-Settles c packet s now ps k.1 in
    rw (resolve_pending, e) (rest.0, (settles, rest.1))

abbrev Outcome : Client → DecodedPacket → ℕ → Client → Option Error → Type 0
Outcome before packet now after raised =
    (raised ≡ none)
    × (((packet.observed ≡ none) × (after.pending ≡ before.pending))
        ⊎ ((received : DeviceState) × (packet.observed ≡ some received)
            × Pairwise (Settles after packet (next_state before packet received) now) before.pending
                after.pending))

observe-Settles :
    (c : Client) (packet : DecodedPacket) (s : DeviceState) (now : ℕ)
    → All (Confirmable c.codec) c.pending
    → ((observe c packet s now).1 ≡ none)
      × Pairwise
          (Settles (observe c packet s now).0 packet s now)
          c.pending
          (observe c packet s now).0.pending
unfolding observe
observe-Settles c packet s now k =
    resolve_pending-Settles
      (record c {
        observed = some s;
        available = true;
        last_state_at = some now;
        delivered = c.delivered ++ state_event s ∷ [];
      })
      packet s now c.pending k

abbrev learned : Client → DecodedPacket → Endpoint → Client
learned c packet source = record (learn_identity c packet.identity) { host = source.host }

accept_state :
    (c : Client) (packet : DecodedPacket) (source : Endpoint) (now : ℕ) (s : DeviceState)
    → packet.identity.mac ≡ c.identity.mac
    → packet.observed ≡ some s
    → accept c packet source now
      ≡ observe (learned c packet source) packet (next_state c packet s) now
unfolding accept
accept_state c packet source now s e n = ground (arith, bytes_eq_self c.identity.mac)

pub accept_stateless :
    (c : Client) (packet : DecodedPacket) (source : Endpoint) (now : ℕ)
    → packet.identity.mac ≡ c.identity.mac
    → packet.observed ≡ none
    → accept c packet source now ≡ (learned c packet source, none)
unfolding accept
accept_stateless c packet source now e n = ground (arith, bytes_eq_self c.identity.mac)

pub accept-Outcome :
    (c : Client) (packet : DecodedPacket) (source : Endpoint) (now : ℕ)
    → packet.identity.mac ≡ c.identity.mac
    → All (Confirmable c.codec) c.pending
    → Outcome c packet now (accept c packet source now).0 (accept c packet source now).1
accept-Outcome c packet source now e k =
    let l = learned c packet source in
    let here : l
        ≡ record c { identity = packet.identity; host = source.host; delivered = l.delivered } =
      ground (arith, learn_identity-eq c packet.identity) in
    elim (Option-cases packet.observed) [
      | inl n ↦
          subst (λ r. Outcome c packet now r.0 r.1) (sym (accept_stateless c packet source now e n))
            (refl, inl (n, ap (λ d. d.pending) here))
      | inr (s, n) ↦
          let merged = next_state c packet s in
          let r =
            observe-Settles l packet merged now
              (subst (λ d. All (Confirmable d.codec) d.pending) (sym here) k) in
          subst (λ r. Outcome c packet now r.0 r.1) (sym (accept_state c packet source now s e n))
            (
              r.0,
              inr (
                s,
                n,
                subst
                    (λ d.
                      Pairwise (Settles (observe l packet merged now).0 packet merged now) d.pending
                        (observe l packet merged now).0.pending)
                    here r.1,
              ),
            )
    ]
