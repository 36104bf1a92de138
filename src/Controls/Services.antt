-- ===== src/Controls/Services.antt =====
-- The requests of the services of fan.py, select.py, switch.py and light.py against the codecs.
use ha_352air_legacy_local.Base.{
  ℕ, All-if, All-append, ◌≡◌, refl, ◌⊎◌, inl, inr, true, false, Option, none, some, ◌==◌, ok, err,
  arith, service_validation, All, Option-cases,
}
use ha_352air_legacy_local.Models.{
  CommandContext, IsContext, DeviceModel, m25, x83, g30, x83c, x50, x50s, x83c_plus, x60, x70, g45,
  CommandOperation, power_op, child_lock_op, display_op, timer_op, ptc_op, backlight_op,
}
use ha_352air_legacy_local.Models.State.{DeviceState, Dict, lookup}
use ha_352air_legacy_local.Const.{model_wire_type, model_is_purifier}
use ha_352air_legacy_local.Fan.{
  Percentages, set_preset_mode, manual_percentage, turn_on, mode_options,
}
use ha_352air_legacy_local.Controls.{
  Service, fan_set_percentage, fan_set_preset_mode, fan_turn_on, fan_turn_off, select_timer,
  select_ptc, select_backlight, turn_lock, turn_display, outcome_of, selected, offers, issued,
  select_option, timer_options, ptc_options, backlight_options,
}
use text.Mathlib.Text.{◌==◌ as text_eq}
use Prim.Native.String.{String}
use ha_352air_legacy_local.Controls.Fits.{
  IsSent, Fits, All-IsSent, flag-Fits, set_percentage-Fits, preset-Fits, Selects, options-Fits,
  FitsAll,
}

preset-FitsAll :
    (h : Percentages) (model : DeviceModel) (s : Option DeviceState) (preset : String)
    → model_is_purifier model ≡ true
    → FitsAll model (outcome_of (set_preset_mode h model s preset))
unfolding set_preset_mode
preset-FitsAll h model s preset o =
    let (options, e) = mode_options_cases model o in
    elim (Option-cases (lookup preset options)) [
      | inl n ↦ rw (outcome_of, e, n) (tt, inr refl)
      | inr (v, f) ↦
          rw (outcome_of, e, f)
            (
              All-if (Fits model) (text_eq preset "manual") _ _
                  (λ _. set_percentage-Fits h model (manual_percentage h model s) o)
                  (λ n. (preset-Fits model preset options v e f n, tt)),
              inl refl,
            )
    ]
  where
    mode_options_cases :
        (model : DeviceModel)
        → model_is_purifier model ≡ true
        → (options : Dict) × (mode_options model ≡ ok options)
    mode_options_cases m25 o = absurd (ground arith)
    mode_options_cases x83 o = (_, refl)
    mode_options_cases g30 o = (_, refl)
    mode_options_cases x83c o = (_, refl)
    mode_options_cases x50 o = (_, refl)
    mode_options_cases x50s o = (_, refl)
    mode_options_cases x83c_plus o = (_, refl)
    mode_options_cases x60 o = (_, refl)
    mode_options_cases x70 o = (_, refl)
    mode_options_cases g45 o = (_, refl)

select-FitsAll :
    (model : DeviceModel) (op : CommandOperation) (options : Dict) (option : String)
    → Selects model op options
    → FitsAll model (selected (select_option op options option))
unfolding select_option
select-FitsAll model op options option o = elim (Option-cases (lookup option options)) [
  | inl n ↦ rw (selected, n) (tt, inr refl)
  | inr (v, f) ↦ rw (selected, f) ((options-Fits model option v op options o f, tt), inl refl)
]

turn_on-FitsAll :
    (h : Percentages) (model : DeviceModel) (s : Option DeviceState) (p : Option ℕ)
    (preset : Option String)
    → model_is_purifier model ≡ true
    → FitsAll model (outcome_of ((turn_on h model s p preset).1))
unfolding turn_on
turn_on-FitsAll h model s p (some preset) o = preset-FitsAll h model s preset o
turn_on-FitsAll h model s none none o = (tt, inl refl)
turn_on-FitsAll h model s (some p) none o =
    (All-if (Fits model) (p == 0) _ _ (λ _. tt) (λ _. set_percentage-Fits h model p o), inl refl)

turn_on-first :
    (h : Percentages) (model : DeviceModel) (s : Option DeviceState) (p : Option ℕ)
    (preset : Option String)
    → model_is_purifier model ≡ true
    → All (Fits model) ((turn_on h model s p preset).0)
unfolding turn_on
turn_on-first h model s p (some preset) o = (flag-Fits model true power_op o (inl refl), tt)
turn_on-first h model s none none o = (flag-Fits model true power_op o (inl refl), tt)
turn_on-first h model s (some p) none o = (flag-Fits model true power_op o (inl refl), tt)

issued-FitsAll :
    (h : Percentages) (model : DeviceModel) (s : Option DeviceState) (service : Service)
    → offers model service ≡ true
    → FitsAll model (issued h model s service)
unfolding issued
issued-FitsAll h model s (fan_set_percentage p) o = (set_percentage-Fits h model p o, inl refl)
issued-FitsAll h model s (fan_set_preset_mode preset) o = preset-FitsAll h model s preset o
issued-FitsAll h model s (fan_turn_on p preset) o =
    let (f, e) = turn_on-FitsAll h model s p preset o in
    (All-append (Fits model) _ _ (turn_on-first h model s p preset o) f, e)
issued-FitsAll h model s fan_turn_off o =
    ((flag-Fits model false power_op o (inl refl), tt), inl refl)
issued-FitsAll h model s (select_timer option) o =
    select-FitsAll model timer_op timer_options option (inl (o, refl, refl))
issued-FitsAll h model s (select_ptc option) o =
    select-FitsAll model ptc_op ptc_options option (inr (inl (o, refl, refl)))
issued-FitsAll h model s (select_backlight option) o =
    select-FitsAll model backlight_op backlight_options option
      (inr (inr (ground arith, refl, refl)))
issued-FitsAll h model s (turn_lock b) o =
    ((flag-Fits model b child_lock_op o (inr (inl refl)), tt), inl refl)
issued-FitsAll h model s (turn_display b) o =
    ((flag-Fits model b display_op o (inr (inr refl)), tt), inl refl)

-- In a valid context of the model's wire type, the codec of the model sends every request that a
-- service of one of the model's own entities issues, whatever the state and the arguments of the
-- service, and the only exception that the service raises before a request is ServiceValidationError.
pub issued-IsSent :
    (h : Percentages) (model : DeviceModel) (context : CommandContext) (s : Option DeviceState)
    (service : Service)
    → IsContext context
    → context.identity.wire_type ≡ model_wire_type model
    → offers model service ≡ true
    → All (IsSent model context) ((issued h model s service).0)
      × (((issued h model s service).1 ≡ ok tt)
          ⊎ ((issued h model s service).1 ≡ err service_validation))
issued-IsSent h model context s service v w o =
    let (f, e) = issued-FitsAll h model s service o in (All-IsSent model context _ v w f, e)
