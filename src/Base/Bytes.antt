-- ===== src/Base/Bytes.antt =====
-- `bytes` as lists of numbers. An index out of range raises IndexError, a slice never does; a
-- number that does not fit raises ValueError in `bytes((…))` and OverflowError in `to_bytes`.
use ha_352air_legacy_local.Base.Tests.{ltb, ◌==◌, if◌then◌else◌}
use ha_352air_legacy_local.Base.Lists.{length, get_or, take, drop, All}
use ha_352air_legacy_local.Base.Errors.{
  Result, ok, err, value_error, overflow_error, index_error, ◌>>=◌,
}
use Prim.Native.Nat.{ℕ, zero, suc, ◌+◌, ◌-◌, ◌*◌, ◌/◌, ◌%◌, ◌<◌}
use mathlib.Core.Path.{◌≡◌, refl}
use mathlib.Core.Bool.{Bool, true, false, ◌&&◌}
use mathlib.Core.List.{List, [], ◌∷◌}
use native.Mathlib.Omega.{arith}

abbrev pub Bytes : Type 0
Bytes = List ℕ

abbrev pub IsByte : ℕ → Type 0
IsByte b = b < 256

abbrev pub IsBytes : Bytes → Type 0
IsBytes xs = All IsByte xs

abbrev pub IsU16 : ℕ → Type 0
IsU16 n = n < 65536

-- xs[i]
unfoldable pub at : Bytes → ℕ → Result ℕ
at [] i = err index_error
at (x ∷ xs) zero = ok x
at (x ∷ xs) (suc i) = at xs i

pub at-get_or : (xs : Bytes) (i : ℕ) → i < length xs → at xs i ≡ ok (get_or xs i 0)
unfolding at
at-get_or [] i h = absurd (omega arith)
at-get_or (x ∷ xs) zero h = refl
at-get_or (x ∷ xs) (suc i) h = at-get_or xs i (omega arith)

-- xs[i:j]
abbrev pub slice : Bytes → ℕ → ℕ → Bytes
slice xs i j = take (j - i) (drop i xs)

-- xs[:-2] and xs[-2:], of at least two bytes.
abbrev pub but_last_two : Bytes → Bytes
but_last_two xs = take (length xs - 2) xs

abbrev pub last_two : Bytes → Bytes
last_two xs = drop (length xs - 2) xs

-- int.from_bytes(xs, "big")
big_from : ℕ → Bytes → ℕ
big_from n [] = n
big_from n (x ∷ xs) = big_from (n * 256 + x) xs

unfoldable pub int_from_bytes : Bytes → ℕ
unfolding big_from
int_from_bytes xs = big_from 0 xs

-- bytes((…)): every value must be below 256.
unfoldable pub bytes_of : List ℕ → Result Bytes
bytes_of [] = ok []
bytes_of (x ∷ xs) =
    let rest = bytes_of xs in if ltb x 256 then (rest >>= λ ys. ok (x ∷ ys)) else err value_error

pub bytes_of-ok : (xs : Bytes) → IsBytes xs → bytes_of xs ≡ ok xs
unfolding bytes_of
bytes_of-ok [] h = refl
bytes_of-ok (x ∷ xs) h = ground (arith, bytes_of-ok xs h.1)

-- n.to_bytes(2, "big")
unfoldable pub to_bytes_2 : ℕ → Result Bytes
to_bytes_2 n = if ltb n 65536 then ok (n / 256 ∷ n % 256 ∷ []) else err overflow_error

pub to_bytes_2-ok : (n : ℕ) → IsU16 n → to_bytes_2 n ≡ ok (n / 256 ∷ n % 256 ∷ [])
unfolding to_bytes_2
to_bytes_2-ok n h = ground arith

pub int_from_bytes-two : (n : ℕ) → int_from_bytes (n / 256 ∷ n % 256 ∷ []) ≡ n
unfolding int_from_bytes
int_from_bytes-two n = omega arith

pub int_from_bytes_pair : (a b : ℕ) → int_from_bytes (a ∷ b ∷ []) ≡ a * 256 + b
unfolding int_from_bytes
int_from_bytes_pair a b = omega arith

-- xs == ys
unfoldable pub bytes_eq : Bytes → Bytes → Bool
bytes_eq [] [] = true
bytes_eq [] (y ∷ ys) = false
bytes_eq (x ∷ xs) [] = false
bytes_eq (x ∷ xs) (y ∷ ys) = x == y && bytes_eq xs ys

pub bytes_eq_self : (xs : Bytes) → bytes_eq xs xs ≡ true
unfolding bytes_eq
bytes_eq_self [] = refl
bytes_eq_self (x ∷ xs) = ground (arith, bytes_eq_self xs)

pub bytes_eq→eq : (xs ys : Bytes) → bytes_eq xs ys ≡ true → xs ≡ ys
unfolding bytes_eq
bytes_eq→eq [] [] h = refl
bytes_eq→eq [] (y ∷ ys) h = cc
bytes_eq→eq (x ∷ xs) [] h = cc
bytes_eq→eq (x ∷ xs) (y ∷ ys) h = ground (arith, bytes_eq→eq xs ys)

-- sum(xs)
unfoldable pub sum : Bytes → ℕ
sum [] = 0
sum (x ∷ xs) = x + sum xs
