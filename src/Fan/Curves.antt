-- ===== src/Fan/Curves.antt =====
-- The nominal airflows of airflow.py.
use ha_352air_legacy_local.Base.{
  ℕ, zero, suc, ◌-◌, ◌==◌, false, Option-cases, inl, inr, ◌≤◌, ◌<◌, ◌≡◌, Bool, true, Option, none,
  some, List, [], ◌∷◌, leb, ◌&&◌, if◌then◌else◌, length, get_or, arith,
}
use mathlib.Core.Path.{subst}
use ha_352air_legacy_local.Models.{DeviceModel}
use ha_352air_legacy_local.Const.{is_six_speed, is_five_speed, is_continuous_airflow}

-- _A5_AIRFLOW_CURVES.get and _X50_AIRFLOW_CURVES.get
abbrev a5_airflow_curve : ℕ → Option (List ℕ)
a5_airflow_curve profile =
    if profile == 0
    then some (140 ∷ 240 ∷ 360 ∷ 500 ∷ 610 ∷ 760 ∷ [])
    else if profile == 1
    then some (60 ∷ 140 ∷ 220 ∷ 330 ∷ 390 ∷ 500 ∷ [])
    else if profile == 2
    then some (130 ∷ 220 ∷ 330 ∷ 430 ∷ 500 ∷ 640 ∷ [])
    else none

abbrev x50_airflow_curve : ℕ → Option (List ℕ)
x50_airflow_curve profile =
    if profile == 0
    then some (150 ∷ 220 ∷ 300 ∷ 400 ∷ 510 ∷ 600 ∷ [])
    else if profile == 1
    then some (120 ∷ 170 ∷ 240 ∷ 330 ∷ 430 ∷ 540 ∷ [])
    else none

abbrev pub airflow_curve : DeviceModel → ℕ → Option (List ℕ)
airflow_curve model profile =
    if is_six_speed model
    then a5_airflow_curve profile
    else if is_five_speed model
    then x50_airflow_curve profile
    else none

abbrev on_curve : Option (List ℕ) → ℕ → Option ℕ
on_curve none speed = none
on_curve (some curve) speed =
    if leb 1 speed && leb speed (length curve) then some (get_or curve (speed - 1) 0) else none

unfoldable pub current_airflow_m3h : DeviceModel → Option ℕ → Option ℕ → Option ℕ → Option ℕ
current_airflow_m3h model speed filter_profile reported_airflow =
    if is_continuous_airflow model then reported_airflow else elim speed [
      | none ↦ none
      | some v ↦ elim filter_profile [
        | none ↦ none
        | some profile ↦ on_curve (airflow_curve model profile) v
      ]
    ]

-- Each number of the list is above the one before it, and the first above `low`.
abbrev Rises : ℕ → List ℕ → Type 0
Rises low [] = Unit {0}
Rises low (x ∷ xs) = (low < x) × Rises x xs

above_low : (low : ℕ) (xs : List ℕ) (i : ℕ) → Rises low xs → i < length xs → low < get_or xs i 0
above_low low [] i r h = absurd (omega arith)
above_low low (x ∷ xs) zero r h = r.0
above_low low (x ∷ xs) (suc i) r h =
    let rest = above_low x xs i r.1 (omega arith) in let first = r.0 in omega arith

rising :
    (low : ℕ) (xs : List ℕ) (i j : ℕ)
    → Rises low xs
    → i < j
    → j < length xs
    → get_or xs i 0 < get_or xs j 0
rising low [] i j r l h = absurd (omega arith)
rising low (x ∷ xs) i zero r l h = absurd (omega arith)
rising low (x ∷ xs) zero (suc j) r l h = above_low x xs j r.1 (omega arith)
rising low (x ∷ xs) (suc i) (suc j) r l h = rising x xs i j r.1 (omega arith) (omega arith)

abbrev RisesIf : Option (List ℕ) → Type 0
RisesIf none = Unit {0}
RisesIf (some curve) = Rises 0 curve

either-RisesIf :
    (b : Bool) (x y : Option (List ℕ)) → RisesIf x → RisesIf y → RisesIf (if b then x else y)
either-RisesIf true x y p q = p
either-RisesIf false x y p q = q

airflow_curve-RisesIf : (model : DeviceModel) (profile : ℕ) → RisesIf (airflow_curve model profile)
airflow_curve-RisesIf model profile =
    either-RisesIf (is_six_speed model) _ _
      (either-RisesIf (profile == 0) _ _ (omega arith) (
        either-RisesIf (profile == 1) _ _ (omega arith)
          (either-RisesIf (profile == 2) _ _ (omega arith) tt)))
      (either-RisesIf (is_five_speed model) _ _
        (either-RisesIf (profile == 0) _ _ (omega arith)
          (either-RisesIf (profile == 1) _ _ (omega arith) tt))
        tt)

on_curve-some :
    (curve : List ℕ) (speed flow : ℕ)
    → on_curve (some curve) speed ≡ some flow
    → (1 ≤ speed) × (speed ≤ length curve) × (get_or curve (speed - 1) 0 ≡ flow)
on_curve-some curve speed flow e = (ground arith, ground arith, ground arith)

-- On a model with discrete speeds a higher speed has a higher airflow, whatever the filter profile.
pub current_airflow_m3h_mono :
    (model : DeviceModel) (low high : ℕ) (profile reported : Option ℕ) (flow more : ℕ)
    → is_continuous_airflow model ≡ false
    → low < high
    → current_airflow_m3h model (some low) profile reported ≡ some flow
    → current_airflow_m3h model (some high) profile reported ≡ some more
    → flow < more
unfolding current_airflow_m3h
current_airflow_m3h_mono model low high none reported flow more m h e f = absurd (ground arith)
current_airflow_m3h_mono model low high (some profile) reported flow more m h e f =
    elim (Option-cases (airflow_curve model profile)) [
      | inl n ↦ absurd (ground (arith, m, n))
      | inr (curve, c) ↦
          let rises = subst RisesIf c (airflow_curve-RisesIf model profile) in
          let (lo, _, l) = on_curve-some curve low flow (ground (arith, m, c, e)) in
          let (_, hi, r) = on_curve-some curve high more (ground (arith, m, c, f)) in
          let above = rising 0 curve (low - 1) (high - 1) rises (omega arith) (omega arith) in
          omega arith
    ]
