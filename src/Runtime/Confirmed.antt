-- ===== src/Runtime/Confirmed.antt =====
-- What an entity shows once the client has confirmed its request.
use ha_352air_legacy_local.Base.{
  ℕ, ◌≤◌, ◌≡◌, ◌⊎◌, ◌↔◌, inl, inr, Bool, true, false, Option, none, some, [], ◌∷◌, ok, arith,
  Option-cases, Result-cases, ◌∙◌, ap, sym,
}
use ha_352air_legacy_local.Models.{
  Command, DeviceModel, family_for_model, make_command, CommandOperation, power_op, child_lock_op,
  display_op, mode_op, timer_op, ptc_op, backlight_op, same_family, a5a0,
}
use ha_352air_legacy_local.Models.State.{DeviceState, Dict, lookup}
use ha_352air_legacy_local.Const.{is_six_speed}
use ha_352air_legacy_local.Codec.{codec_family, codec_for_model, codec_for_model-family}
use ha_352air_legacy_local.Transport.{Client, confirms, state_confirms_command}
use ha_352air_legacy_local.Fan.{
  Percentages, set_preset_mode, mode_options, preset_of, preset_mode, is_off,
}
use ha_352air_legacy_local.Runtime.{
  Request, command_for, wire_command_value, flag_value, number, flag,
}
use ha_352air_legacy_local.Controls.{
  select_option, shown_flag, shown_option, current_option, native_value, timer_options, ptc_options,
  backlight_options,
}
use Prim.Native.String.{String}
use text.Mathlib.Text.{◌==◌ as text_eq}
use text.Mathlib.TextEquality.{eq_iff}

abbrev Switches : CommandOperation → Type 0
Switches op = (op ≡ power_op) ⊎ (op ≡ child_lock_op) ⊎ (op ≡ display_op)

six_speed-a5a0 :
    (model : DeviceModel) → same_family (family_for_model model) a5a0 ≡ is_six_speed model
unfolding family_for_model
six_speed-a5a0 model = ground arith

flag_confirms :
    (c : Client) (s : DeviceState) (op : CommandOperation) (b : Bool)
    → same_family (codec_family c.codec) a5a0 ≡ is_six_speed c.model
    → Switches op
    → (confirms c s op (flag_value c.model op b) ≡ ok true) ↔ (shown_flag op s ≡ some b)
unfolding confirms flag_value
flag_confirms c s op b six (inl e) = rw e (ground arith, ground arith)
flag_confirms c s op b six (inr (inl e)) = rw e (ground arith, ground arith)
flag_confirms c s op b six (inr (inr e)) = rw e (ground arith, ground arith)

flag_value-small :
    (model : DeviceModel) (op : CommandOperation) (b : Bool) → flag_value model op b ≤ 0xFFFF
unfolding flag_value
flag_value-small model op b = ground arith

-- The request of a switch, of the light or of the fan's power becomes a command, which the client of
-- the model's codec takes as confirmed by a state exactly if the entity shows the requested value in
-- that state: each model's bytes agree with the client's reading of them.
pub command_for-confirms :
    (c : Client) (s : DeviceState) (op : CommandOperation) (b : Bool)
    → c.codec ≡ codec_for_model c.model
    → Switches op
    → (command : Command) × (command_for c.model (record { operation = op; value = flag b })
        ≡ ok command)
      × ((state_confirms_command c s command ≡ ok true) ↔ (shown_flag op s ≡ some b))
unfolding command_for make_command wire_command_value state_confirms_command
command_for-confirms c s op b k o =
    let six : same_family (codec_family c.codec) a5a0 ≡ is_six_speed c.model =
      ap (λ k. same_family (codec_family k) a5a0) k
      ∙ ap (λ f. same_family f a5a0) (codec_for_model-family c.model)
      ∙ six_speed-a5a0 c.model in
    let small : flag_value c.model op b ≤ 0xFFFF = flag_value-small c.model op b in
    (
      record { operation = op; value = flag_value c.model op b },
      ground arith,
      flag_confirms c s op b six o,
    )

abbrev Selects : CommandOperation → Dict → Type 0
Selects op options =
    ((op ≡ timer_op) × (options ≡ timer_options))
    ⊎ ((op ≡ ptc_op) × (options ≡ ptc_options))
    ⊎ ((op ≡ backlight_op) × (options ≡ backlight_options))

-- The values of the options are distinct.
option_shown :
    (op : CommandOperation) (options : Dict) (option : String) (v : ℕ)
    → Selects op options
    → lookup option options ≡ some v
    → current_option options (some v) ≡ some option
unfolding current_option preset_of lookup
option_shown op options option v (inl (_, e)) = rw e (λ f. ground (
  arith,
  f,
  eq_iff "off" option,
  eq_iff "1" option,
  eq_iff "2" option,
  eq_iff "3" option,
  eq_iff "5" option,
  eq_iff "8" option,
))
option_shown op options option v (inr (inl (_, e))) =
    rw e (λ f.
      ground (arith, f, eq_iff "off" option, eq_iff "level_1" option, eq_iff "level_2" option))
option_shown op options option v (inr (inr (_, e))) =
    rw e (λ f. ground (arith, f, eq_iff "five_minutes" option, eq_iff "always_on" option))

preset_shown :
    (model : DeviceModel) (options : Dict) (preset : String) (v : ℕ)
    → mode_options model ≡ ok options
    → lookup preset options ≡ some v
    → preset_of v options ≡ some preset
unfolding preset_of lookup
preset_shown model options preset v e f = ground (
  arith,
  eq_iff "auto" preset,
  eq_iff "manual" preset,
  eq_iff "sleep" preset,
  eq_iff "turbo" preset,
  eq_iff "deep_clean" preset,
)

number_command :
    (model : DeviceModel) (op : CommandOperation) (v : ℕ) {command : Command}
    → command_for model (record { operation = op; value = number v }) ≡ ok command
    → (command.operation ≡ op) × (command.value ≡ v)
unfolding command_for make_command wire_command_value
number_command model op v e = (ground arith, ground arith)

native_confirms :
    (c : Client) (s : DeviceState) (op : CommandOperation) (options : Dict) (v : ℕ)
    → Selects op options
    → confirms c s op v ≡ ok true
    → (native_value op s ≡ some v) ⊎ ((op ≡ ptc_op) × (s.ptc ≡ none))
unfolding confirms
native_confirms c s op options v (inl (o, _)) = rw o (λ h. inl (ground arith))
native_confirms c s op options v (inr (inl (o, _))) = rw o (λ h. ground arith)
native_confirms c s op options v (inr (inr (o, _))) = rw o (λ h. inl (ground arith))

-- A state that confirms the command of a chosen option of a select makes the select show that
-- option; only the PTC select may show none instead, for a state without a PTC level.
pub select_option-shown :
    (c : Client) (s : DeviceState) (op : CommandOperation) (options : Dict) (option : String)
    (r : Request) (command : Command)
    → Selects op options
    → select_option op options option ≡ ok r
    → command_for c.model r ≡ ok command
    → state_confirms_command c s command ≡ ok true
    → (shown_option op options s ≡ some option) ⊎ ((op ≡ ptc_op) × (s.ptc ≡ none))
unfolding select_option state_confirms_command
select_option-shown c s op options option r command k e f g =
    elim (Option-cases (lookup option options)) [
      | inl n ↦ absurd (ground (arith, n, e))
      | inr (v, l) ↦
          let same : r ≡ record { operation = op; value = number v } = ground (arith, l, e) in
          let (o, w) = number_command c.model _ v (ap (command_for c.model) (sym same) ∙ f) in
          let h : confirms c s op v ≡ ok true =
            ap (λ o. confirms c s o v) (sym o) ∙ ap (confirms c s command.operation) (sym w) ∙ g in
          elim (native_confirms c s op options v k h) [
            | inl n ↦ inl (ap (current_option options) n ∙ option_shown op options option v k l)
            | inr n ↦ inr n
          ]
    ]

chosen :
    (h : Percentages) (model : DeviceModel) (before : Option DeviceState) (preset : String)
    (r : Request)
    → set_preset_mode h model before preset ≡ ok (r ∷ [])
    → text_eq preset "manual" ≡ false
    → (options : Dict) × (v : ℕ) × (mode_options model ≡ ok options)
      × (lookup preset options ≡ some v)
      × (r ≡ record { operation = mode_op; value = number v })
unfolding set_preset_mode
chosen h model before preset r e m = elim (Result-cases (mode_options model)) [
  | inl (options, o) ↦ elim (Option-cases (lookup preset options)) [
    | inl n ↦ absurd (ground (arith, o, n, e))
    | inr (v, l) ↦ (options, v, o, l, ground (arith, o, l, e, m))
  ]
  | inr (_, o) ↦ absurd (ground (arith, o, e))
]

mode_shown :
    (c : Client) (s : DeviceState) (options : Dict) (preset : String) (v : ℕ)
    → mode_options c.model ≡ ok options
    → lookup preset options ≡ some v
    → confirms c s mode_op v ≡ ok true
    → is_off (some s) ≡ false
    → preset_mode c.model (some s) ≡ ok (some preset)
unfolding preset_mode confirms
mode_shown c s options preset v p l q o = ground (arith, preset_shown c.model options preset v p l)

-- A state that confirms the command of a preset other than "manual", and is not off, makes the fan
-- report that preset.
pub set_preset_mode-shown :
    (h : Percentages) (c : Client) (before : Option DeviceState) (s : DeviceState) (preset : String)
    (r : Request) (command : Command)
    → set_preset_mode h c.model before preset ≡ ok (r ∷ [])
    → text_eq preset "manual" ≡ false
    → command_for c.model r ≡ ok command
    → state_confirms_command c s command ≡ ok true
    → is_off (some s) ≡ false
    → preset_mode c.model (some s) ≡ ok (some preset)
unfolding set_preset_mode state_confirms_command
set_preset_mode-shown h c before s preset r command e m f g o =
    let (options, v, p, l, same) = chosen h c.model before preset r e m in
    let (o', w) = number_command c.model _ v (ap (command_for c.model) (sym same) ∙ f) in
    let q : confirms c s mode_op v ≡ ok true =
      ap (λ o. confirms c s o v) (sym o') ∙ ap (confirms c s command.operation) (sym w) ∙ g in
    mode_shown c s options preset v p l q o
