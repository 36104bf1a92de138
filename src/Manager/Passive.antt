-- ===== src/Manager/Passive.antt =====
-- The tool's test of a passive status against the states that the integration learns from.
use ha_352air_legacy_local.Base.{
  ℕ, ◌≡◌, ◌⊎◌, inl, inr, refl, [], ◌∷◌, true, false, ◌==◌, length, drop, ok, arith, if◌then◌else◌,
  dec_lt,
}
use ha_352air_legacy_local.Base.Bytes.{Bytes, at, at-get_or, bytes_eq}
use ha_352air_legacy_local.Discovery.{valid_state, f072_frame, f072_layout}
use ha_352air_legacy_local.Manager.{
  m25_status, long_status, valid_f072_status, valid_passive_status,
}

-- The second byte of an M25's report is F5, and the tool's E5.
m25_missed : (payload : Bytes) → valid_state 1 payload ≡ ok true → m25_status payload ≡ ok false
unfolding valid_state m25_status at bytes_eq
m25_missed (a ∷ b ∷ c ∷ rest) e = ground arith
m25_missed [] e = ground arith
m25_missed (a ∷ []) e = ground arith
m25_missed (a ∷ b ∷ []) e = ground arith

-- The byte that is 84 or 03 stands one place earlier than the tool looks, where a state has 02.
frame_kind : (inner : Bytes) (n : ℕ) → f072_frame inner n ≡ ok true → at inner 6 ≡ ok 2
frame_kind inner n e = elim (dec_lt (length inner) 8) [
  | yes short ↦ absurd (ground arith)
  | no long ↦
      let marker = at-get_or inner 5 (omega arith) in
      let kind = at-get_or inner 6 (omega arith) in ground (arith, marker, kind)
]

frame_refused :
    (frame : Bytes) (family : ℕ) → at frame 6 ≡ ok 2 → valid_f072_status frame family ≡ ok false
unfolding valid_f072_status
frame_refused frame family e = elim (dec_lt (length frame) 8) [
  | yes short ↦ ground arith
  | no long ↦ ground (arith, e, at-get_or frame 7 (omega arith))
]

layout_frame :
    (payload : Bytes) (family : ℕ)
    → f072_layout payload family ≡ ok true
    → (n : ℕ) × (f072_frame (drop 1 payload) n ≡ ok true)
layout_frame payload family e = elim (dec_lt (length payload) 16) [
  | yes short ↦ absurd (ground arith)
  | no long ↦ ((if family == 3 then 30 else 29), ground (arith, at-get_or payload 0 (omega arith)))
]

f072_missed :
    (payload : Bytes) (family : ℕ)
    → f072_layout payload family ≡ ok true
    → long_status payload family ≡ ok false
unfolding long_status
f072_missed payload family e =
    let (n, f) = layout_frame payload family e in
    let refused = frame_refused (drop 1 payload) family (frame_kind (drop 1 payload) n f) in
    elim (dec_lt (length payload) 17) [
      | yes short ↦ ground arith
      | no long ↦ ground (arith, refused, at-get_or payload 0 (omega arith))
    ]

-- The tool tests the status of an X83 as the integration does.
x83_agree : (payload : Bytes) → valid_state 2 payload ≡ valid_passive_status payload 2
unfolding valid_state valid_passive_status
x83_agree payload = refl

-- Of the families other than the X83's, the tool refuses every status that the integration learns a
-- device from: it looks for an M25's marker E5, where the states have F5, and for the type of a
-- longer frame one byte late.
pub valid_passive_status_refuses :
    (payload : Bytes) (family : ℕ)
    → (family ≡ 1) ⊎ ((family ≡ 3) ⊎ (family ≡ 4))
    → valid_state family payload ≡ ok true
    → valid_passive_status payload family ≡ ok false
unfolding valid_state valid_passive_status
valid_passive_status_refuses payload family k e = elim k [
  | inl one ↦ rw one (m25_missed payload (rw one at e))
  | inr (inl three) ↦ rw three (f072_missed payload 3 (rw three at e))
  | inr (inr four) ↦ rw four (f072_missed payload 4 (rw four at e))
]
