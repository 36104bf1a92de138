-- ===== src/Base/Xor.antt =====
-- Laws of `^` at every width, from the recursion on binary digits that the native operation means.
use Prim.Native.Nat.{ℕ, zero, suc, ◌+◌, ◌*◌, ◌/◌, ◌%◌, ◌^◌, ◌≤◌, ◌<◌}
use Prim.Native.Nat.{bit_xor, bit_xor-bitwise, digits, differ}
use mathlib.Core.Path.{◌≡◌, refl, ◌∙◌}
use mathlib.Core.Bool.{Bool, true, ◌&&◌}
use native.Mathlib.Nat.{pow-suc}
use native.Mathlib.Omega.{arith}

abbrev xor_digits : ℕ → ℕ → ℕ → ℕ
xor_digits n a b = digits (λ y. y) differ n a b

-- Any fuel from the first operand on gives the same digits.
xor_digits_enough : (n m a b : ℕ) → a ≤ n → a ≤ m → xor_digits n a b ≡ xor_digits m a b
xor_digits_enough zero zero a b p q = refl
xor_digits_enough zero (suc m) zero b p q = refl
xor_digits_enough zero (suc m) (suc a) b p q = absurd (omega arith)
xor_digits_enough (suc n) zero zero b p q = refl
xor_digits_enough (suc n) zero (suc a) b p q = absurd (omega arith)
xor_digits_enough (suc n) (suc m) zero b p q = refl
xor_digits_enough (suc n) (suc m) (suc a) b p q =
    rw (xor_digits_enough n m (suc a / 2) (b / 2) (omega arith) (omega arith))

abbrev differ_bits : ℕ → ℕ → ℕ
differ_bits a b = differ (a % 2) (b % 2)

zero-bit_xor : (b : ℕ) → bit_xor 0 b ≡ b
zero-bit_xor b = bit_xor-bitwise 0 b

differ-zero : (y : ℕ) → differ 0 y ≡ y
differ-zero y = refl

pub bit_xor_step : (a b : ℕ) → bit_xor a b ≡ bit_xor (a / 2) (b / 2) * 2 + differ_bits a b
bit_xor_step zero b = omega (arith, zero-bit_xor b, zero-bit_xor (b / 2), differ-zero (b % 2))
bit_xor_step (suc a) b = omega (
  arith,
  bit_xor-bitwise (suc a) b,
  bit_xor-bitwise (suc a / 2) (b / 2),
  xor_digits_enough a (suc a / 2) (suc a / 2) (b / 2) (omega arith) (omega arith),
)

differ-lt : (x y : ℕ) → x < 2 → y < 2 → differ x y < 2
differ-lt zero y p q = q
differ-lt (suc zero) zero p q = omega arith
differ-lt (suc zero) (suc zero) p q = omega arith
differ-lt (suc zero) (suc (suc y)) p q = absurd (omega arith)
differ-lt (suc (suc x)) y p q = absurd (omega arith)

differ-differ : (x y : ℕ) → x < 2 → y < 2 → differ (differ x y) y ≡ x
differ-differ zero zero p q = refl
differ-differ zero (suc zero) p q = refl
differ-differ zero (suc (suc y)) p q = absurd (omega arith)
differ-differ (suc zero) zero p q = refl
differ-differ (suc zero) (suc zero) p q = refl
differ-differ (suc zero) (suc (suc y)) p q = absurd (omega arith)
differ-differ (suc (suc x)) y p q = absurd (omega arith)

-- The sum of two numbers of `k` bits has `k` bits.
pub bit_xor-lt : (k a b : ℕ) → a < 2 ^ k → b < 2 ^ k → bit_xor a b < 2 ^ k
bit_xor-lt zero zero zero p q = omega arith
bit_xor-lt zero zero (suc b) p q = absurd (omega arith)
bit_xor-lt zero (suc a) b p q = absurd (omega arith)
bit_xor-lt (suc k) a b p q = omega (
  arith,
  bit_xor_step a b,
  pow-suc 2 k,
  bit_xor-lt k (a / 2) (b / 2) (omega (arith, pow-suc 2 k)) (omega (arith, pow-suc 2 k)),
  differ-lt (a % 2) (b % 2) (omega arith) (omega arith),
)

-- Adding the same number twice changes nothing.
pub bit_xor-bit_xor : (k a b : ℕ) → a < 2 ^ k → b < 2 ^ k → bit_xor (bit_xor a b) b ≡ a
bit_xor-bit_xor zero zero zero p q = refl
bit_xor-bit_xor zero zero (suc b) p q = absurd (omega arith)
bit_xor-bit_xor zero (suc a) b p q = absurd (omega arith)
bit_xor-bit_xor (suc k) a b p q =
    bit_xor_step (bit_xor a b) b
    ∙ rw
        (
          high,
          low,
          bit_xor-bit_xor k (a / 2) (b / 2) (omega (arith, pow-suc 2 k))
              (omega (arith, pow-suc 2 k)),
          differ-differ (a % 2) (b % 2) (omega arith) (omega arith),
        )
        (omega arith)
  where
    bit : differ_bits a b < 2
    bit = differ-lt (a % 2) (b % 2) (omega arith) (omega arith)

    high : bit_xor a b / 2 ≡ bit_xor (a / 2) (b / 2)
    high = omega (arith, bit_xor_step a b, bit)

    low : bit_xor a b % 2 ≡ differ_bits a b
    low = omega (arith, bit_xor_step a b, bit)

differ_comm : (x y : ℕ) → differ x y ≡ differ y x
differ_comm zero zero = refl
differ_comm zero (suc y) = refl
differ_comm (suc x) zero = refl
differ_comm (suc x) (suc y) = differ_comm x y

bit_xor_comm_bounded : (k a b : ℕ) → a < k → b < k → bit_xor a b ≡ bit_xor b a
bit_xor_comm_bounded zero a b p q = absurd (omega arith)
bit_xor_comm_bounded (suc zero) zero zero p q = refl
bit_xor_comm_bounded (suc zero) zero (suc b) p q = absurd (omega arith)
bit_xor_comm_bounded (suc zero) (suc a) b p q = absurd (omega arith)
bit_xor_comm_bounded (suc (suc k)) a b p q = omega (
  arith,
  bit_xor_step a b,
  bit_xor_step b a,
  differ_comm (a % 2) (b % 2),
  bit_xor_comm_bounded (suc k) (a / 2) (b / 2) (omega arith) (omega arith),
)

pub bit_xor_comm : (a b : ℕ) → bit_xor a b ≡ bit_xor b a
bit_xor_comm a b = bit_xor_comm_bounded (suc (a + b)) a b (omega arith) (omega arith)

-- A test of every number below a bound, by evaluation.
unfoldable pub every_below : (ℕ → Bool) → ℕ → Bool
every_below test zero = true
every_below test (suc bound) = every_below test bound && test bound

pub every_below_sound :
    (test : ℕ → Bool) (bound x : ℕ) → every_below test bound ≡ true → x < bound → test x ≡ true
unfolding every_below
every_below_sound test zero x passed below = absurd (omega arith)
every_below_sound test (suc bound) x passed below = ground (arith, every_below_sound test bound x)
