-- ===== src/F072/Airflow.antt =====
-- The airflow steps of the G30 and G45.
use ha_352air_legacy_local.Base.{
  ℕ, ◌+◌, ◌-◌, ◌*◌, ◌/◌, ◌%◌, ◌≤◌, ◌<◌, ◌≡◌, ◌⊎◌, inl, inr, ok, arith,
}
use ha_352air_legacy_local.Models.{CommandContext, f072_g30}
use ha_352air_legacy_local.F072.{F072Codec, flow_for_percentage, flow_maximum, validate_flow}

pub flow_maximum_cases :
    (c : F072Codec) (context : CommandContext)
    → (flow_maximum c context ≡ 300) ⊎ (flow_maximum c context ≡ 450)
flow_maximum_cases c context = ground arith

-- The flow of a percentage, for a model whose maximum is `top`.
abbrev flow_step : ℕ → ℕ → ℕ
flow_step top p = 40 + (2 * (p - 1) * (top - 40) + 99 * 5) / (2 * 99 * 5) * 5

-- It is a step of 5 in the range, no other step is nearer to the exact proportion, and a tie goes up.
pub record IsNearestStep (top p flow : ℕ) : Type 0 where
  pub above : 40 ≤ flow
  pub below : flow ≤ top
  pub step : flow % 5 ≡ 0
  pub not_low : 2 * (p - 1) * (top - 40) < 198 * (flow - 40) + 495
  pub not_high : 198 * (flow - 40) ≤ 2 * (p - 1) * (top - 40) + 495

flow_step_nearest_300 : (p : ℕ) → 1 ≤ p → p ≤ 100 → IsNearestStep 300 p (flow_step 300 p)
flow_step_nearest_300 p lo hi = omega arith

flow_step_nearest_450 : (p : ℕ) → 1 ≤ p → p ≤ 100 → IsNearestStep 450 p (flow_step 450 p)
flow_step_nearest_450 p lo hi = omega arith

flow_step_nearest :
    (top p : ℕ)
    → (top ≡ 300) ⊎ (top ≡ 450)
    → 1 ≤ p
    → p ≤ 100
    → IsNearestStep top p (flow_step top p)
flow_step_nearest top p (inl e) lo hi = rw e (flow_step_nearest_300 p lo hi)
flow_step_nearest top p (inr e) lo hi = rw e (flow_step_nearest_450 p lo hi)

-- For a G30 or G45 codec every percentage of 1 to 100 has an airflow: a multiple of 5 from 40 to the
-- model's maximum, which `_validate_flow` accepts and which is nearest to the exact proportion, a tie
-- going up.
pub flow_for_percentage_nearest :
    (c : F072Codec) (context : CommandContext) (p : ℕ)
    → c.family ≡ f072_g30
    → 1 ≤ p
    → p ≤ 100
    → (flow : ℕ) × (flow_for_percentage c p context ≡ ok flow)
      × IsNearestStep (flow_maximum c context) p flow
      × (validate_flow c flow context ≡ ok tt)
unfolding flow_for_percentage validate_flow
flow_for_percentage_nearest c context p g lo hi =
    let near = flow_step_nearest (flow_maximum c context) p (flow_maximum_cases c context) lo hi in
    (flow_step (flow_maximum c context) p, ground arith, near, ground arith)

flow_step_mono :
    (top p q : ℕ) → (top ≡ 300) ⊎ (top ≡ 450) → p ≤ q → flow_step top p ≤ flow_step top q
flow_step_mono top p q (inl e) h = rw e (omega arith)
flow_step_mono top p q (inr e) h = rw e (omega arith)

-- A higher percentage never gives a lower airflow.
pub flow_for_percentage_mono :
    (c : F072Codec) (context : CommandContext) (p q : ℕ) {flow more : ℕ}
    → p ≤ q
    → flow_for_percentage c p context ≡ ok flow
    → flow_for_percentage c q context ≡ ok more
    → flow ≤ more
unfolding flow_for_percentage
flow_for_percentage_mono c context p q h e f =
    ground (arith, flow_step_mono (flow_maximum c context) p q (flow_maximum_cases c context) h)
