-- ===== src/Discovery/Layouts.antt =====
-- What each codec's decoder takes for a state, and the layouts that passive discovery tests.
use ha_352air_legacy_local.Base.{
  ℕ, ◌+◌, ◌-◌, ◌≤◌, ◌≡◌, refl, ◌⊎◌, inl, inr, true, false, Option, none, some, [], ◌∷◌, ◌++◌, ◌==◌,
  leb, ltb, ◌&&◌, ◌||◌, not, if_elim, ◌>>=◌, if◌then◌else◌, length, length-drop, length-take, take,
  drop, one_of, Result, ok, err, arith, Result-cases, ℕ_discrete,
}
use ha_352air_legacy_local.Base.Bytes.{Bytes, at, at-get_or, slice, bytes_eq, but_last_two}
use mathlib.Core.Path.{subst}
use ha_352air_legacy_local.Models.{PacketKind, f072_x50, f072_g30, same_family, HeaderIdentity}
use ha_352air_legacy_local.Models.State.{Dict, Endpoint, DecodedPacket}
use ha_352air_legacy_local.Outer.{OuterFrame}
use ha_352air_legacy_local.M25
use ha_352air_legacy_local.F072
use ha_352air_legacy_local.F072.{F072Codec}
use ha_352air_legacy_local.A5a0.Decode.{
  decode_payload as a5a0_payload, decode_state, decode_ack, read_state,
}
use ha_352air_legacy_local.A5a0.{
  state_response_prefix, state_payload_length, double_state_payload_length,
}
use ha_352air_legacy_local.F072.Decode.{is_g30_state, is_x50_state, read_common}
use ha_352air_legacy_local.Crc.{f072_prefix, f072_response_crc_is_valid}
use ha_352air_legacy_local.Discovery.{f072_frame, valid_state}

-- A frame's state, and what discovery needs of it.
abbrev pub IsLearned : OuterFrame → DecodedPacket → Type 0
IsLearned f p = (p.identity ≡ f.identity) × (valid_state f.identity.wire_type f.payload ≡ ok true)

-- The packet of a result is a state of the identity, if it is one, and then `L` holds.
abbrev StateOf : HeaderIdentity → Type 0 → Result (Option DecodedPacket) → Type 0
StateOf identity L r =
    (p : DecodedPacket) → r ≡ ok (some p) → p.kind ≡ PacketKind.state → (p.identity ≡ identity) × L

a5a0_state-StateOf :
    (f : OuterFrame) (payload : Bytes) (source : Endpoint) (L : Type 0)
    → L
    → StateOf f.identity L (decode_state f payload source >>= λ p. ok (some p))
unfolding decode_state
a5a0_state-StateOf f payload source L l p e k = elim (Result-cases (read_state payload)) [
  | inl (b, r) ↦ (ground (arith, r, e), l)
  | inr (x, r) ↦ absurd (ground (arith, r, e))
]

a5a0_ack-StateOf :
    (f : OuterFrame) (source : Endpoint) (L : Type 0) → StateOf f.identity L (decode_ack f source)
unfolding decode_ack
a5a0_ack-StateOf f source L p e k = elim (ℕ_discrete (length f.payload) 7) [
  | no n ↦ absurd (ground (arith, e))
  | yes y ↦ absurd (
      ground (
        arith,
        e,
        k,
        at-get_or f.payload 0 (omega arith),
        at-get_or f.payload 6 (omega arith),
        at-get_or f.payload 3 (omega arith),
        at-get_or f.payload 4 (omega arith),
      ))
]

pub a5a0-IsLearned :
    (f : OuterFrame) (source : Endpoint)
    → f.identity.wire_type ≡ 2
    → StateOf f.identity
        (valid_state f.identity.wire_type f.payload ≡ ok true)
        (a5a0_payload f source)
unfolding a5a0_payload valid_state
a5a0-IsLearned f source w =
    if_elim (StateOf f.identity (valid_state f.identity.wire_type f.payload ≡ ok true))
      (bytes_eq (take 3 f.payload) state_response_prefix
        && length f.payload == state_payload_length)
      _ _ (λ t. a5a0_state-StateOf f f.payload source _ (ground arith))
      (λ _.
        if_elim (StateOf f.identity (valid_state f.identity.wire_type f.payload ≡ ok true))
          (bytes_eq (take 3 f.payload) state_response_prefix
            && (length f.payload == double_state_payload_length
                && bytes_eq (slice f.payload 33 35) (0x5A ∷ 0xA1 ∷ [])))
          _ _
          (λ t.
            a5a0_state-StateOf f (take 1 f.payload ++ drop 33 f.payload) source _ (ground arith))
          (λ _. a5a0_ack-StateOf f source _))

bind-StateOf {ℓ} :
    {A : Type ℓ} (I : HeaderIdentity) (L : Type 0) (r : Result A)
    (next : A → Result (Option DecodedPacket))
    → ((a : A) → r ≡ ok a → StateOf I L (next a))
    → StateOf I L (r >>= next)
bind-StateOf I L (err x) next h p e k = absurd (ground (arith, e))
bind-StateOf I L (ok a) next h p e k = h a refl p e k

-- The M25's reports.
m25_sensors-StateOf :
    (f : OuterFrame) (form : ℕ) (source : Endpoint) (m : Dict)
    → StateOf f.identity (length f.payload ≡ 17) (M25.decode_sensors f form source m)
unfolding M25.decode_sensors
m25_sensors-StateOf f form source m =
    if_elim (StateOf f.identity (length f.payload ≡ 17)) (length f.payload == 17) _ _
      (λ t.
        bind-StateOf f.identity _ (at f.payload 7) _
          (λ a _ p e k. (ground (arith, e), ground arith)))
      (λ _ p e k. absurd (ground (arith, e)))

m25_backlight-StateOf :
    (f : OuterFrame) (source : Endpoint) (m : Dict) (L : Type 0)
    → StateOf f.identity L (M25.backlight_packet f source m)
unfolding M25.backlight_packet
m25_backlight-StateOf f source m L =
    bind-StateOf f.identity L (at f.payload 5) _ (λ a _ p e k. absurd (ground (arith, e, k)))

none-StateOf : (I : HeaderIdentity) (L : Type 0) → StateOf I L (ok none)
none-StateOf I L p e k = absurd (ground (arith, e))

m25_form-StateOf :
    (f : OuterFrame) (form : ℕ) (source : Endpoint) (m : Dict)
    → StateOf f.identity
        ((length f.payload ≡ 17) × (one_of form (0xA1 ∷ 0xA2 ∷ []) ≡ true))
        (M25.decode_form f form source m)
unfolding M25.decode_form M25.decode_backlight_set M25.decode_backlight_read
m25_form-StateOf f form source m =
    let P =
      StateOf f.identity ((length f.payload ≡ 17) × (one_of form (0xA1 ∷ 0xA2 ∷ []) ≡ true)) in
    let B =
      m25_backlight-StateOf f source m
        ((length f.payload ≡ 17) × (one_of form (0xA1 ∷ 0xA2 ∷ []) ≡ true)) in
    let N =
      none-StateOf f.identity ((length f.payload ≡ 17) × (one_of form (0xA1 ∷ 0xA2 ∷ []) ≡ true)) in
    if_elim P (one_of form (0xA1 ∷ 0xA2 ∷ [])) _ _
      (λ t p e k. let (i, l) = m25_sensors-StateOf f form source m p e k in (i, (l, t)))
      (λ _.
        if_elim P (form == 0xA3) _ _
          (λ _.
            if_elim P (length f.payload == 7 && bytes_eq (slice f.payload 3 5) (0x03 ∷ 0x01 ∷ [])) _
              _ (λ _. B) (λ _. N))
          (λ _.
            if_elim P (form == 0xA4) _ _
              (λ _.
                if_elim P (leb 6 (length f.payload)) _ _
                  (λ _.
                    bind-StateOf f.identity _ (at f.payload 4) _
                      (λ mark _. if_elim P (mark == 0x01) _ _ (λ _. B) (λ _. N)))
                  (λ _. N))
              (λ _. N)))

pub m25-IsLearned :
    (f : OuterFrame) (source : Endpoint)
    → f.identity.wire_type ≡ 1
    → StateOf f.identity
        (valid_state f.identity.wire_type f.payload ≡ ok true)
        (M25.decode_payload f source)
unfolding M25.decode_payload valid_state
m25-IsLearned f source w =
    let I = f.identity in
    let V = valid_state f.identity.wire_type f.payload ≡ ok true in
    if_elim (StateOf I V) (ltb (length f.payload) 3) _ _ (λ _. none-StateOf I V)
      (λ _. bind-StateOf I V (at f.payload 0) _ (λ route r.
        bind-StateOf I V (at f.payload 1) _ (λ marker m.
          bind-StateOf I V (at f.payload 2) _ (λ form g.
            if_elim (StateOf I V) (one_of route (0x03 ∷ 0x04 ∷ []) && marker == 0xF5) _ _
              (λ t p e k.
                let (i, l) = m25_form-StateOf f form source _ p e k in
                (i, ground (arith, w, l, r, m, g, t)))
              (λ _. none-StateOf I V)))))

-- The F072 families' reports.
f072_data-StateOf :
    (c : F072Codec) (f : OuterFrame) (area : Bytes) (source : Endpoint) (m : Dict)
    → StateOf f.identity
        ((if same_family c.family f072_x50 then 30 else 29) ≤ length area)
        (F072.Decode.decode_data c f area source m)
unfolding F072.Decode.decode_data F072.Decode.decode_x50_state F072.Decode.decode_g30_state
    F072.Decode.decode_ack
f072_data-StateOf c f area source m =
    let I = f.identity in
    let V = (if same_family c.family f072_x50 then 30 else 29) ≤ length area in
    if_elim (StateOf I V) (same_family c.family f072_g30 && is_g30_state area) _ _
      (λ t. bind-StateOf I V (read_common area) _ (λ b _. bind-StateOf I V (at area 18) _ (λ _ _.
        bind-StateOf I V (at area 14) _ (λ _ _.
          bind-StateOf I V (at area 15) _ (λ _ _ p e k. (ground (arith, e), ground (arith, t)))))))
      (λ _.
        if_elim (StateOf I V) (same_family c.family f072_x50 && is_x50_state area) _ _
          (λ t. bind-StateOf I V (read_common area) _ (λ b _. bind-StateOf I V (at area 4) _ (λ _ _.
            bind-StateOf I V (at area 29) _ (λ _ _ p e k. (ground (arith, e), ground (arith, t))))))
          (λ _.
            if_elim (StateOf I V) (length area == 4) _ _
              (λ _. bind-StateOf I V (at area 1) _ (λ _ _.
                bind-StateOf I V (at area 2) _ (λ _ _ p e k. absurd (ground (arith, e, k)))))
              (λ _. none-StateOf I V)))

area_long :
    (inner : Bytes) (n : ℕ)
    → 1 ≤ n
    → n ≤ length (drop 7 (but_last_two inner))
    → n + 9 ≤ length inner
area_long inner n p h =
    omega (arith, length-drop 7 (but_last_two inner), length-take (length inner - 2) inner)

f072_frame-StateOf :
    (c : F072Codec) (f : OuterFrame) (inner : Bytes) (source : Endpoint) (m : Dict)
    → bytes_eq (take 2 inner) f072_prefix ≡ true
    → f072_response_crc_is_valid inner ≡ true
    → StateOf f.identity
        (((if same_family c.family f072_x50 then 30 else 29) + 9 ≤ length inner)
          × (f072_frame inner (if same_family c.family f072_x50 then 30 else 29) ≡ ok true))
        (F072.Decode.decode_frame c f inner source m)
unfolding F072.Decode.decode_frame
f072_frame-StateOf c f inner source m b v =
    let I = f.identity in
    let V =
      ((if same_family c.family f072_x50 then 30 else 29) + 9 ≤ length inner)
      × (f072_frame inner (if same_family c.family f072_x50 then 30 else 29) ≡ ok true) in
    bind-StateOf I V (at inner 5) _ (λ marker r. bind-StateOf I V (at inner 6) _ (λ kind k.
      if_elim (StateOf I V) (not (one_of marker (0x84 ∷ 0x03 ∷ [])) || not (kind == 0x02)) _ _
        (λ _. none-StateOf I V)
        (λ t p e s.
          let area = drop 7 (but_last_two inner) in
          let (i, l) = f072_data-StateOf c f area source _ p e s in
          let long = area_long inner _ (ground arith) l in
          (i, (long, ground (arith, long, b, v, r, k, t))))))

layout_valid :
    (wire_type n route : ℕ) (payload : Bytes)
    → ((wire_type ≡ 3) × (n ≡ 30)) ⊎ ((wire_type ≡ 4) × (n ≡ 29))
    → n + 9 ≤ length (drop 1 payload)
    → at payload 0 ≡ ok route
    → one_of route (0x01 ∷ 0x02 ∷ []) ≡ true
    → f072_frame (drop 1 payload) n ≡ ok true
    → valid_state wire_type payload ≡ ok true
unfolding valid_state
layout_valid wire_type n route payload (inl (w, e)) l r t h =
    let long : ltb (length payload) 16 ≡ false = ground (arith, e, l, length-drop 1 payload) in
    rw (w, long, r, t) (subst (λ n. f072_frame (drop 1 payload) n ≡ ok true) e h)
layout_valid wire_type n route payload (inr (w, e)) l r t h =
    let long : ltb (length payload) 16 ≡ false = ground (arith, e, l, length-drop 1 payload) in
    rw (w, long, r, t) (subst (λ n. f072_frame (drop 1 payload) n ≡ ok true) e h)

pub f072-IsLearned :
    (c : F072Codec) (f : OuterFrame) (source : Endpoint)
    → f.identity.wire_type ≡ F072.wire_type c
    → StateOf f.identity
        (valid_state f.identity.wire_type f.payload ≡ ok true)
        (F072.Decode.decode_payload c f source)
unfolding F072.Decode.decode_payload valid_state
f072-IsLearned c f source w =
    let I = f.identity in
    let V = valid_state f.identity.wire_type f.payload ≡ ok true in
    if_elim (StateOf I V) (ltb (length f.payload) 14) _ _ (λ _. none-StateOf I V)
      (λ _. bind-StateOf I V (at f.payload 0) _ (λ route r.
        if_elim (StateOf I V)
          (one_of route F072.routes
            && bytes_eq (take 2 (drop 1 f.payload)) f072_prefix
            && f072_response_crc_is_valid (drop 1 f.payload))
          _ _
          (λ t p e s.
            let (i, (long, l)) =
              f072_frame-StateOf c f (drop 1 f.payload) source _ (ground (arith, t))
                (ground (arith, t)) p e s in
            (
              i,
              layout_valid f.identity.wire_type _ route f.payload (ground (arith, w)) long r
                  (ground (arith, t)) l,
            ))
          (λ _. none-StateOf I V)))
