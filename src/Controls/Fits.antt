-- ===== src/Controls/Fits.antt =====
-- The commands that single services issue, and what their model can be sent.
use ha_352air_legacy_local.Base.{
  ℕ, ◌≤◌, ◌<◌, length, All-if, ◌≡◌, refl, ◌⊎◌, inl, inr, Bool, true, false, some, List, [], ◌∷◌,
  ◌==◌, min, one_of, Result, ok, err, arith, service_validation, All,
}
use ha_352air_legacy_local.Models.{
  Command, CommandContext, IsContext, DeviceModel, family_for_model, make_command, CommandOperation,
  power_op, child_lock_op, display_op, mode_op, timer_op, ptc_op, backlight_op, speed_op,
  percentage_op, ProtocolFamily,
}
use ha_352air_legacy_local.Models.State.{Dict, lookup}
use ha_352air_legacy_local.Const.{
  model_wire_type, model_is_purifier, is_six_speed, is_five_speed, is_continuous_airflow,
}
use ha_352air_legacy_local.Fan.{
  Percentages, a5a0_speeds, x50_command_speeds, set_percentage, mode_options,
}
use ha_352air_legacy_local.Runtime.{
  Request, command_for, wire_command_value, number, flag, flag_value,
}
use ha_352air_legacy_local.Runtime.Encodable.{valid_for, Sends, valid_for-Sends}
use ha_352air_legacy_local.Controls.{timer_options, ptc_options, backlight_options}
use text.Mathlib.Text.{◌==◌ as text_eq}
use text.Mathlib.TextEquality.{eq_iff}
use Prim.Native.String.{String}

-- The command that a request becomes, and its datagram.
abbrev pub IsSent : DeviceModel → CommandContext → Request → Type 0
IsSent model context r =
    (command : Command) × (command_for model r ≡ ok command) × Sends model context command

abbrev pub Fits : DeviceModel → Request → Type 0
Fits model r =
    valid_for (family_for_model model) r.operation (wire_command_value model r.operation r.value)
    ≡ true

valid_for-small :
    (family : ProtocolFamily) (op : CommandOperation) (v : ℕ)
    → valid_for family op v ≡ true
    → v ≤ 0xFFFF
valid_for-small family op v t = ground arith

Fits-IsSent :
    (model : DeviceModel) (context : CommandContext) (r : Request)
    → IsContext context
    → context.identity.wire_type ≡ model_wire_type model
    → Fits model r
    → IsSent model context r
unfolding command_for make_command
Fits-IsSent model context r v w f =
    let value = wire_command_value model r.operation r.value in
    let small : value ≤ 0xFFFF = valid_for-small (family_for_model model) r.operation value f in
    (
      record { operation = r.operation; value = value },
      ground arith,
      valid_for-Sends model context (record { operation = r.operation; value = value }) v w f,
    )

pub All-IsSent :
    (model : DeviceModel) (context : CommandContext) (rs : List Request)
    → IsContext context
    → context.identity.wire_type ≡ model_wire_type model
    → All (Fits model) rs
    → All (IsSent model context) rs
All-IsSent model context [] v w f = tt
All-IsSent model context (r ∷ rs) v w f =
    (Fits-IsSent model context r v w f.0, All-IsSent model context rs v w f.1)

pub flag-Fits :
    (model : DeviceModel) (b : Bool) (op : CommandOperation)
    → model_is_purifier model ≡ true
    → (op ≡ power_op) ⊎ (op ≡ child_lock_op) ⊎ (op ≡ display_op)
    → Fits model (record { operation = op; value = flag b })
unfolding wire_command_value flag_value family_for_model
flag-Fits model b op p o = ground arith

speed-Fits :
    (model : DeviceModel) (v : ℕ)
    → (is_six_speed model ≡ true) × (one_of v a5a0_speeds ≡ true)
      ⊎ ((is_five_speed model ≡ true) × (one_of v x50_command_speeds ≡ true))
    → Fits model (record { operation = speed_op; value = number v })
unfolding wire_command_value family_for_model
speed-Fits model v o = ground arith

percentage-Fits :
    (model : DeviceModel) (p : ℕ)
    → model_is_purifier model ≡ true
    → is_six_speed model ≡ false
    → is_five_speed model ≡ false
    → Fits model (record { operation = percentage_op; value = number (min 100 p) })
unfolding wire_command_value family_for_model
percentage-Fits model p o six five = ground arith

pub set_percentage-Fits :
    (h : Percentages) (model : DeviceModel) (p : ℕ)
    → model_is_purifier model ≡ true
    → All (Fits model) (set_percentage h model p)
unfolding set_percentage
set_percentage-Fits h model p o =
    All-if (Fits model) (p == 0) _ _ (λ _. (flag-Fits model false power_op o (inl refl), tt))
      (λ n.
        let listed = λ (speeds : List ℕ) (e : 0 < length speeds).
          h.to_item_listed speeds (min 100 p) e (ground (arith, n)) (omega arith) in
        All-if (Fits model) (is_six_speed model) _ _
          (λ s. (speed-Fits model _ (inl (s, listed a5a0_speeds (omega arith))), tt))
          (λ n6.
            All-if (Fits model) (is_five_speed model) _ _
              (λ s. (speed-Fits model _ (inr (s, listed x50_command_speeds (omega arith))), tt))
              (λ n5. (percentage-Fits model p o n6 n5, tt))))

pub preset-Fits :
    (model : DeviceModel) (preset : String) (options : Dict) (v : ℕ)
    → mode_options model ≡ ok options
    → lookup preset options ≡ some v
    → text_eq preset "manual" ≡ false
    → Fits model (record { operation = mode_op; value = number v })
unfolding wire_command_value family_for_model lookup
preset-Fits model preset options v e f n =
    ground (arith, eq_iff "manual" preset, eq_iff preset "manual")

abbrev pub Selects : DeviceModel → CommandOperation → Dict → Type 0
Selects model op options =
    ((model_is_purifier model ≡ true) × (op ≡ timer_op) × (options ≡ timer_options))
    ⊎ ((is_continuous_airflow model ≡ true) × (op ≡ ptc_op) × (options ≡ ptc_options))
    ⊎ ((model_is_purifier model ≡ false) × (op ≡ backlight_op) × (options ≡ backlight_options))

pub options-Fits :
    (model : DeviceModel) (option : String) (v : ℕ)
    → (op : CommandOperation) (options : Dict) → Selects model op options
    → lookup option options ≡ some v
    → Fits model (record { operation = op; value = number v })
unfolding wire_command_value family_for_model lookup
options-Fits model option v op options o e = ground arith

-- The requests of an outcome fit, and the only exception is ServiceValidationError.
abbrev pub FitsAll : DeviceModel → List Request × Result (Unit {0}) → Type 0
FitsAll model o = All (Fits model) (o.0) × ((o.1 ≡ ok tt) ⊎ (o.1 ≡ err service_validation))
