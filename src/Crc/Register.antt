-- ===== src/Crc/Register.antt =====
-- The shift register: each step of the loop can be undone, so no two registers run together.
use ha_352air_legacy_local.Base.{
  ℕ, zero, suc, ◌+◌, ◌*◌, ◌/◌, ◌%◌, ◌<◌, ◌≡◌, refl, sym, ap, ◌∙◌, Bool, true, ◌==◌, ==_iff,
  if◌then◌else◌, arith, bit_xor,
}
use ha_352air_legacy_local.Base.Xor.{
  bit_xor-lt, bit_xor-bit_xor, bit_xor_comm, every_below, every_below_sound,
}
use ha_352air_legacy_local.Crc.{shift_bit, shift_bits}

-- The lowest bit tells whether the polynomial was added.
unshift_bit : ℕ → ℕ
unshift_bit r = if r % 2 == 1 then bit_xor r 0x1021 / 2 + 0x8000 else r / 2

abbrev undone : ℕ → Bool
undone c = unshift_bit (shift_bit c) == c

undone_row : ℕ → Bool
undone_row h = every_below (λ l. undone (h * 256 + l)) 256

undone_table : every_below undone_row 256 ≡ true
unfolding every_below undone_row unshift_bit
undone_table = refl

shift_bit_table :
    (h l : ℕ) → h < 256 → l < 256 → unshift_bit (shift_bit (h * 256 + l)) ≡ h * 256 + l
unfolding undone_row
shift_bit_table h l p q = (==_iff _ (h * 256 + l)).0 (
    every_below_sound (λ l. undone (h * 256 + l)) 256 l
      (every_below_sound undone_row 256 h undone_table p) q)

unshift_bit-shift_bit : (c : ℕ) → c < 65536 → unshift_bit (shift_bit c) ≡ c
unshift_bit-shift_bit c p =
    let e : c / 256 * 256 + c % 256 ≡ c = omega arith in
    rw e at (shift_bit_table (c / 256) (c % 256) (omega arith) (omega arith))

shift_bit-lt : (c : ℕ) → shift_bit c < 65536
shift_bit-lt c = ground arith

shift_bits-lt : (n c : ℕ) → c < 65536 → shift_bits n c < 65536
unfolding shift_bits
shift_bits-lt zero c p = p
shift_bits-lt (suc n) c p = shift_bits-lt n (shift_bit c) (shift_bit-lt c)

shift_bits_injective : (n c d : ℕ) → c < 65536 → d < 65536 → shift_bits n c ≡ shift_bits n d → c ≡ d
unfolding shift_bits
shift_bits_injective zero c d p q e = e
shift_bits_injective (suc n) c d p q e =
    let same =
      shift_bits_injective n (shift_bit c) (shift_bit d) (shift_bit-lt c) (shift_bit-lt d) e in
    sym (unshift_bit-shift_bit c p) ∙ ap unshift_bit same ∙ unshift_bit-shift_bit d q

-- One byte of the message, as the loop takes it in.
abbrev pub absorb : ℕ → ℕ → ℕ
absorb crc byte = shift_bits 8 (bit_xor crc (byte * 256))

mixed-lt : (crc byte : ℕ) → crc < 65536 → byte < 256 → bit_xor crc (byte * 256) < 65536
mixed-lt crc byte p q = bit_xor-lt 16 crc (byte * 256) (omega arith) (omega arith)

pub absorb-lt : (crc byte : ℕ) → crc < 65536 → byte < 256 → absorb crc byte < 65536
absorb-lt crc byte p q = shift_bits-lt 8 _ (mixed-lt crc byte p q)

-- Two registers that take in the same byte and agree behind it agreed before.
pub absorb_injective :
    (c d byte : ℕ) → c < 65536 → d < 65536 → byte < 256 → absorb c byte ≡ absorb d byte → c ≡ d
absorb_injective c d byte p q r e =
    let mixed = shift_bits_injective 8 _ _ (mixed-lt c byte p r) (mixed-lt d byte q r) e in
    sym (bit_xor-bit_xor 16 c (byte * 256) (omega arith) (omega arith))
    ∙ ap (λ x. bit_xor x (byte * 256)) mixed
    ∙ bit_xor-bit_xor 16 d (byte * 256) (omega arith) (omega arith)

-- Two bytes that take one register to the same value are the same byte.
pub absorb_byte : (c a b : ℕ) → c < 65536 → a < 256 → b < 256 → absorb c a ≡ absorb c b → a ≡ b
absorb_byte c a b p q r e =
    let mixed = shift_bits_injective 8 _ _ (mixed-lt c a p q) (mixed-lt c b p r) e in
    let scaled : a * 256 ≡ b * 256 =
      sym (bit_xor-bit_xor 16 (a * 256) c (omega arith) (omega arith))
      ∙ ap (λ x. bit_xor x c) (bit_xor_comm (a * 256) c ∙ mixed ∙ bit_xor_comm c (b * 256))
      ∙ bit_xor-bit_xor 16 (b * 256) c (omega arith) (omega arith) in
    omega arith
