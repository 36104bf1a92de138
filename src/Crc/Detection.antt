-- ===== src/Crc/Detection.antt =====
-- What the checksum detects.
use ha_352air_legacy_local.Base.{
  ℕ, suc, ◌*◌, Bool-cases, inl, inr, ◌+◌, ◌-◌, ◌≡◌, sym, ap, ◌∙◌, ◌≢◌, true, false, [], ◌∷◌, ◌++◌,
  All-append, length, length-append, drop, take-length, drop-length, arith, bit_xor,
}
use ha_352air_legacy_local.Base.Bytes.{
  Bytes, IsBytes, IsByte, IsU16, int_from_bytes, int_from_bytes_pair, but_last_two, last_two,
}
use ha_352air_legacy_local.Base.Xor.{bit_xor-lt, bit_xor-bit_xor}
use ha_352air_legacy_local.Crc.{crc_loop, crc16_genibus, f072_response_crc_is_valid}
use ha_352air_legacy_local.Crc.Register.{absorb, absorb-lt, absorb_injective, absorb_byte}

crc_loop-lt : (crc : ℕ) (xs : Bytes) → IsU16 crc → IsBytes xs → IsU16 (crc_loop crc xs)
unfolding crc_loop
crc_loop-lt crc [] p b = p
crc_loop-lt crc (x ∷ xs) p b = crc_loop-lt (absorb crc x) xs (absorb-lt crc x p b.0) b.1

-- The checksum of bytes fits the two bytes that carry it.
pub crc16_genibus-lt : (xs : Bytes) → IsBytes xs → IsU16 (crc16_genibus xs)
unfolding crc16_genibus
crc16_genibus-lt xs b = bit_xor-lt 16 _ 0xFFFF (crc_loop-lt 0xFFFF xs (omega arith) b) (omega arith)

crc_loop_injective :
    (c d : ℕ) (xs : Bytes) → IsU16 c → IsU16 d → IsBytes xs → crc_loop c xs ≡ crc_loop d xs → c ≡ d
unfolding crc_loop
crc_loop_injective c d [] p q b e = e
crc_loop_injective c d (x ∷ xs) p q b e = absorb_injective c d x p q b.0 (
    crc_loop_injective (absorb c x) (absorb d x) xs (absorb-lt c x p b.0) (absorb-lt d x q b.0) b.1
      e)

crc_loop_detects :
    (c a b : ℕ) (front back : Bytes)
    → IsU16 c
    → IsBytes front
    → IsByte a
    → IsByte b
    → IsBytes back
    → crc_loop c (front ++ a ∷ back) ≡ crc_loop c (front ++ b ∷ back)
    → a ≡ b
unfolding crc_loop
crc_loop_detects c a b [] back p f ha hb k e = absorb_byte c a b p ha hb (
    crc_loop_injective (absorb c a) (absorb c b) back (absorb-lt c a p ha) (absorb-lt c b p hb) k e)
crc_loop_detects c a b (x ∷ front) back p f ha hb k e =
    crc_loop_detects (absorb c x) a b front back (absorb-lt c x p f.0) f.1 ha hb k e

-- Two messages of bytes that differ in exactly one place have different checksums.
pub crc16_genibus_detects :
    (front back : Bytes) (a b : ℕ)
    → IsBytes front
    → IsBytes back
    → IsByte a
    → IsByte b
    → a ≢ b
    → crc16_genibus (front ++ a ∷ back) ≢ crc16_genibus (front ++ b ∷ back)
unfolding crc16_genibus
crc16_genibus_detects front back a b f k ha hb ne e =
    let la =
      crc_loop-lt 0xFFFF (front ++ a ∷ back) (omega arith)
        (All-append IsByte front (a ∷ back) f (ha, k)) in
    let lb =
      crc_loop-lt 0xFFFF (front ++ b ∷ back) (omega arith)
        (All-append IsByte front (b ∷ back) f (hb, k)) in
    ne (
      crc_loop_detects 0xFFFF a b front back (omega arith) f ha hb k (
        sym (bit_xor-bit_xor 16 _ 0xFFFF la (omega arith))
        ∙ ap (λ x. bit_xor x 0xFFFF) e
        ∙ bit_xor-bit_xor 16 _ 0xFFFF lb (omega arith)))

-- The covered bytes and the checksum of a frame with a message `m` behind its prefix.
frame_covered :
    (m : Bytes) (c0 c1 : ℕ) → drop 2 (but_last_two (0xF0 ∷ 0x72 ∷ (m ++ c0 ∷ c1 ∷ []))) ≡ m
frame_covered m c0 c1 =
    let e : suc (suc (length (m ++ c0 ∷ c1 ∷ []))) - 2 ≡ suc (suc (length m)) =
      omega (arith, length-append m (c0 ∷ c1 ∷ [])) in
    rw e (take-length m (c0 ∷ c1 ∷ []))

frame_last : (m : Bytes) (c0 c1 : ℕ) → last_two (0xF0 ∷ 0x72 ∷ (m ++ c0 ∷ c1 ∷ [])) ≡ c0 ∷ c1 ∷ []
frame_last m c0 c1 =
    let e : suc (suc (length (m ++ c0 ∷ c1 ∷ []))) - 2 ≡ suc (suc (length m)) =
      omega (arith, length-append m (c0 ∷ c1 ∷ [])) in
    rw e (drop-length m (c0 ∷ c1 ∷ []))

abbrev pub checked : Bytes → ℕ → ℕ → Bytes
checked m c0 c1 = 0xF0 ∷ 0x72 ∷ (m ++ c0 ∷ c1 ∷ [])

checks :
    (frame : Bytes)
    → f072_response_crc_is_valid frame ≡ true
    → crc16_genibus (drop 2 (but_last_two frame)) ≡ int_from_bytes (last_two frame)
unfolding f072_response_crc_is_valid
checks frame e = ground arith

-- A valid frame carries the checksum of its message in its last two bytes.
pub response_crc-eq :
    (m : Bytes) (c0 c1 : ℕ)
    → f072_response_crc_is_valid (checked m c0 c1) ≡ true
    → crc16_genibus m ≡ c0 * 256 + c1
response_crc-eq m c0 c1 e =
    ap crc16_genibus (sym (frame_covered m c0 c1))
    ∙ checks (checked m c0 c1) e
    ∙ ap int_from_bytes (frame_last m c0 c1)
    ∙ int_from_bytes_pair c0 c1

-- Of two frames whose messages differ in exactly one byte, and which carry the same checksum bytes,
-- at most one passes the test.
pub response_crc_detects :
    (front back : Bytes) (a b c0 c1 : ℕ)
    → IsBytes front
    → IsBytes back
    → IsByte a
    → IsByte b
    → a ≢ b
    → f072_response_crc_is_valid (checked (front ++ a ∷ back) c0 c1) ≡ true
    → f072_response_crc_is_valid (checked (front ++ b ∷ back) c0 c1) ≡ false
response_crc_detects front back a b c0 c1 f k ha hb ne e =
    elim (Bool-cases (f072_response_crc_is_valid (checked (front ++ b ∷ back) c0 c1))) [
      | inr bad ↦ bad
      | inl good ↦ absurd (
          crc16_genibus_detects front back a b f k ha hb ne (
            response_crc-eq (front ++ a ∷ back) c0 c1 e
            ∙ sym (response_crc-eq (front ++ b ∷ back) c0 c1 good)))
    ]
