-- ===== src/Fan/Airflow.antt =====
-- Airflows as percentages and back, for the G30 and G45.
use ha_352air_legacy_local.Base.{
  ℕ, ◌+◌, ◌-◌, ◌*◌, ◌/◌, ◌%◌, ◌≤◌, ◌≡◌, ◌⊎◌, inl, inr, ok, arith, some, true, false, refl, ap, sym,
  leb, ◌&&◌,
}
use ha_352air_legacy_local.Models.{CommandContext, DeviceModel, f072_g30, same_family}
use ha_352air_legacy_local.Models.State.{DeviceState}
use ha_352air_legacy_local.Const.{is_six_speed, is_five_speed, is_continuous_airflow}
use ha_352air_legacy_local.F072.{F072Codec, flow_for_percentage, flow_maximum, validate_flow}
use ha_352air_legacy_local.Fan.{
  Percentages, reported_percentage, percentage, is_off, airflow_maximum, airflow_percentage, round,
}

-- The number of steps of 5 above 40 at a percentage that `round` gives for `k` steps.
back_300 : (k : ℕ) → k ≤ 52 → (2 * (round (260 + 99 * (5 * k)) 260 - 1) * 260 + 495) / 990 ≡ k
back_300 k h = ground arith

back_450 : (k : ℕ) → k ≤ 82 → (2 * (round (410 + 99 * (5 * k)) 410 - 1) * 410 + 495) / 990 ≡ k
back_450 k h = ground arith

abbrev FlowBack : ℕ → ℕ → Type 0
FlowBack top flow =
    (1 ≤ round ((top - 40) + 99 * (flow - 40)) (top - 40))
    × (round ((top - 40) + 99 * (flow - 40)) (top - 40) ≤ 100)
    × (40
          + (2 * (round ((top - 40) + 99 * (flow - 40)) (top - 40) - 1) * (top - 40) + 99 * 5)
            / (2 * 99 * 5)
            * 5
        ≡ flow)

flow_back :
    (top flow k : ℕ)
    → (top ≡ 300) ⊎ (top ≡ 450)
    → flow ≡ 40 + 5 * k
    → flow ≤ top
    → FlowBack top flow
flow_back top flow k (inl t) e h =
    rw (t, e) (ground arith, ground arith, ground (arith, back_300 k))
flow_back top flow k (inr t) e h =
    rw (t, e) (ground arith, ground arith, ground (arith, back_450 k))

flow_of :
    (c : F072Codec) (context : CommandContext) (top p flow : ℕ)
    → c.family ≡ f072_g30
    → flow_maximum c context ≡ top
    → 1 ≤ p
    → p ≤ 100
    → 40 + (2 * (p - 1) * (top - 40) + 99 * 5) / (2 * 99 * 5) * 5 ≡ flow
    → flow_for_percentage c p context ≡ ok flow
unfolding flow_for_percentage
flow_of c context top p flow g t lo hi e =
    let family : same_family c.family f072_g30 ≡ true = ground arith in
    let fits : (leb 1 p && leb p 100) ≡ true = ground arith in rw (family, fits, t) (ap ok e)

airflow_shown :
    (top flow : ℕ)
    → 40 ≤ flow
    → flow ≤ top
    → airflow_percentage top flow ≡ some (round ((top - 40) + 99 * (flow - 40)) (top - 40))
airflow_shown top flow lo hi =
    let fit : (leb 40 flow && leb flow top) ≡ true = ground arith in
    rw (airflow_percentage, fit) refl

percentage_shown :
    (h : Percentages) (model : DeviceModel) (s : DeviceState) (flow p : ℕ)
    → is_continuous_airflow model ≡ true
    → s.airflow_m3h ≡ some flow
    → is_off (some s) ≡ false
    → airflow_percentage (airflow_maximum model) flow ≡ some p
    → percentage h model (some s) ≡ some p
unfolding percentage
percentage_shown h model s flow p m a o e =
    let six : is_six_speed model ≡ false = ground arith in
    let five : is_five_speed model ≡ false = ground arith in
    rw (o, reported_percentage, six, five, m, a) e

-- The percentage that the fan of a G30 or G45 shows for an airflow step of the model is one that the
-- codec turns back into that same airflow: setting the percentage shown changes nothing.
pub percentage-flow_for_percentage :
    (h : Percentages) (c : F072Codec) (context : CommandContext) (model : DeviceModel)
    (s : DeviceState) (flow : ℕ)
    → is_continuous_airflow model ≡ true
    → c.family ≡ f072_g30
    → context.model ≡ some model
    → validate_flow c flow context ≡ ok tt
    → s.airflow_m3h ≡ some flow
    → is_off (some s) ≡ false
    → (p : ℕ) × (percentage h model (some s) ≡ some p) × (flow_for_percentage c p context ≡ ok flow)
unfolding validate_flow
percentage-flow_for_percentage h c context model s flow m g e v a o =
    let top : airflow_maximum model ≡ flow_maximum c context = ground arith in
    let fits : (40 ≤ flow) × (flow ≤ airflow_maximum model) × (flow % 5 ≡ 0) = ground arith in
    let (lo, hi, back) =
      flow_back (airflow_maximum model) flow ((flow - 40) / 5) (ground arith) (ground arith)
        (fits.1) in
    (
      round ((airflow_maximum model - 40) + 99 * (flow - 40)) (airflow_maximum model - 40),
      percentage_shown h model s flow _ m a o
          (airflow_shown (airflow_maximum model) flow fits.0 fits.1),
      flow_of c context (airflow_maximum model) _ flow g (sym top) lo hi back,
    )
