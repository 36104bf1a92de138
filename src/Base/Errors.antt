-- ===== src/Base/Errors.antt =====
-- Python's exceptions as results. `InvalidCommandError` and the other errors of models.py are
-- classes of their own; a `raise` is `err`, and a `do` block stops at the first.
use mathlib.Core.Option.{Option, none, some}
use mathlib.Core.Bool.{Bool, true, false}
use mathlib.Core.Path.{◌≡◌, refl}
use mathlib.Core.Logic.{◌⊎◌, inl, inr}

pub data Error : Type 0 where
  value_error overflow_error index_error key_error : Error
  invalid_command client_closed request_timeout device_unavailable schedule_cleanup : Error
  service_validation os_error timeout_error cancelled_error alcs_error alcs_outcome_unknown : Error
  schedule_error : Error

-- What a call comes to: an exception, or its return value.
pub data Result {ℓ} (V : Type ℓ) : Type ℓ where
  err : Error → Result V
  ok : V → Result V

-- `if not test: raise e`.
abbrev pub require : Bool → Error → Result (Unit {0})
require false e = err e
require true e = ok tt

-- `if x is None: raise e`.
abbrev pub required {ℓ} : {V : Type ℓ} → Option V → Error → Result V
required none e = err e
required (some v) e = ok v

infixl 5 ◌>>=◌
abbrev pub ◌>>=◌ {ℓ κ} : {V : Type ℓ} {W : Type κ} → Result V → (V → Result W) → Result W
err raised >>= next = err raised
ok v >>= next = next v

infixl 5 ◌>>◌
abbrev pub ◌>>◌ {ℓ} : {W : Type ℓ} → Result (Unit {0}) → Result W → Result W
check >> next = check >>= λ _. next

pub Result-cases {ℓ} :
    {A : Type ℓ} (r : Result A) → ((a : A) × (r ≡ ok a)) ⊎ ((e : Error) × (r ≡ err e))
Result-cases (ok a) = inl (a, refl)
Result-cases (err e) = inr (e, refl)
