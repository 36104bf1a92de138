-- ===== src/Witnesses/Entities.antt =====
-- Services of Home Assistant and what they come to, at concrete devices.
use ha_352air_legacy_local.Base.{
  ℕ, ◌+◌, ◌*◌, ◌/◌, ◌<◌, ◌≡◌, ◌↔◌, ◌⊎◌, inl, refl, true, false, none, some, List, [], ◌∷◌, leb,
  if◌then◌else◌, one_of, length, All, ok, err, service_validation, request_timeout, arith, ◌==◌,
}
use ha_352air_legacy_local.Models.{
  CommandContext, Command, make_command, g45, x83, power_op, timer_op, ptc_op, mode_op, on, mode,
  auto,
}
use ha_352air_legacy_local.Models.State.{DeviceState, empty_state, lookup}
use ha_352air_legacy_local.Codec.{codec_for_model}
use ha_352air_legacy_local.Transport.{Client, confirms, state_confirms_command}
use ha_352air_legacy_local.F072.{flow_for_percentage, validate_flow}
use ha_352air_legacy_local.Fan.{Percentages, percentage, preset_mode, set_preset_mode}
use ha_352air_legacy_local.Fan.Airflow.{percentage-flow_for_percentage}
use ha_352air_legacy_local.Runtime.{number, flag, command_for, wire_command_value}
use ha_352air_legacy_local.Runtime.Confirmed.{
  command_for-confirms, select_option-shown, set_preset_mode-shown,
}
use ha_352air_legacy_local.Runtime.Availability.{
  RuntimeData, create_runtime, refresh_done, check_staleness, Reaches, here, after, waits, checked,
  refreshed, IsSound, Reaches-IsSound,
}
use ha_352air_legacy_local.Controls.{
  fan_set_preset_mode, issued, timer_options, shown_option, shown_flag, select_option,
}
use ha_352air_legacy_local.Controls.Services.{issued-IsSent}
use ha_352air_legacy_local.Controls.Fits.{IsSent}
use ha_352air_legacy_local.Witnesses.{
  x83_identity, x83_context, x83_context-IsContext, g45_codec, g45_context, device,
}

-- percentage_to_ordered_list_item and its converse, as Home Assistant defines them.
to_item_from : ℕ → ℕ → ℕ → List ℕ → ℕ
to_item_from size offset p [] = 0
to_item_from size offset p (x ∷ []) = x
to_item_from size offset p (x ∷ y ∷ speeds) =
    let rest = to_item_from size (offset + 1) p (y ∷ speeds) in
    if leb p ((offset + 1) * 100 / size) then x else rest

from_item_at : ℕ → ℕ → ℕ → List ℕ → ℕ
from_item_at size offset speed [] = 0
from_item_at size offset speed (x ∷ speeds) =
    let rest = from_item_at size (offset + 1) speed speeds in
    if x == speed then (offset + 1) * 100 / size else rest

to_item_from-one_of :
    (size offset p : ℕ) (speeds : List ℕ)
    → 0 < length speeds
    → one_of (to_item_from size offset p speeds) speeds ≡ true
unfolding to_item_from
to_item_from-one_of size offset p [] h = absurd (omega arith)
to_item_from-one_of size offset p (x ∷ []) h = ground arith
to_item_from-one_of size offset p (x ∷ y ∷ speeds) h =
    ground (arith, to_item_from-one_of size (offset + 1) p (y ∷ speeds))

ordered : Percentages
ordered = record {
  from_item = λ speeds speed. from_item_at (length speeds) 0 speed speeds;
  to_item = λ speeds p. to_item_from (length speeds) 0 p speeds;
  to_item_listed = λ speeds p n _ _. to_item_from-one_of (length speeds) 0 p speeds n;
}

-- An X83 in manual mode at half speed.
issued-IsSent_example :
    All (IsSent x83 x83_context) ((issued ordered x83 none (fan_set_preset_mode "manual")).0)
    × (((issued ordered x83 none (fan_set_preset_mode "manual")).1 ≡ ok tt)
        ⊎ ((issued ordered x83 none (fan_set_preset_mode "manual")).1 ≡ err service_validation))
issued-IsSent_example =
    issued-IsSent ordered x83 x83_context none (fan_set_preset_mode "manual") x83_context-IsContext
      refl refl

abbrev x83_client : Client
x83_client = record {
  host = device.host;
  port = 11530;
  model = x83;
  codec = codec_for_model x83;
  identity = x83_identity;
  observed = none;
  available = true;
  last_state_at = none;
  has_loop = true;
  closed = false;
  pending = [];
  outer_sequence = 0;
  inner_sequence = 0;
  recent_datagrams = [];
  delivered = [];
}

abbrev running : DeviceState
running = record empty_state { power = some on; timer_hours = some 8; mode = some (mode auto) }

command_for-confirms_example :
    (command : Command) × (command_for x83 (record { operation = power_op; value = flag true })
      ≡ ok command)
    × ((state_confirms_command x83_client running command ≡ ok true)
        ↔ (shown_flag power_op running ≡ some true))
command_for-confirms_example = command_for-confirms x83_client running power_op true refl (inl refl)

abbrev eight_hours : Command
eight_hours = record { operation = timer_op; value = 8 }

eight_chosen :
    select_option timer_op timer_options "8"
    ≡ ok (record { operation = timer_op; value = number 8 })
unfolding select_option lookup
eight_chosen = refl

eight_command : command_for x83 (record { operation = timer_op; value = number 8 }) ≡ ok eight_hours
unfolding command_for wire_command_value make_command
eight_command = refl

eight_confirmed : state_confirms_command x83_client running eight_hours ≡ ok true
unfolding state_confirms_command confirms
eight_confirmed = refl

select_option-shown_example :
    (shown_option timer_op timer_options running ≡ some "8")
    ⊎ ((timer_op ≡ ptc_op) × (running.ptc ≡ none))
select_option-shown_example =
    select_option-shown x83_client running timer_op timer_options "8"
      (record { operation = timer_op; value = number 8 }) eight_hours (inl (refl, refl))
      eight_chosen eight_command eight_confirmed

abbrev auto_mode : Command
auto_mode = record { operation = mode_op; value = 1 }

auto_chosen :
    set_preset_mode ordered x83 none "auto"
    ≡ ok (record { operation = mode_op; value = number 1 } ∷ [])
unfolding set_preset_mode lookup
auto_chosen = refl

auto_command : command_for x83 (record { operation = mode_op; value = number 1 }) ≡ ok auto_mode
unfolding command_for wire_command_value make_command
auto_command = refl

auto_confirmed : state_confirms_command x83_client running auto_mode ≡ ok true
unfolding state_confirms_command confirms
auto_confirmed = refl

set_preset_mode-shown_example : preset_mode x83 (some running) ≡ ok (some "auto")
set_preset_mode-shown_example =
    set_preset_mode-shown ordered x83_client none running "auto"
      (record { operation = mode_op; value = number 1 }) auto_mode auto_chosen refl auto_command
      auto_confirmed refl

abbrev blowing : DeviceState
blowing = record empty_state { power = some on; airflow_m3h = some 120 }

abbrev g45_model_context : CommandContext
g45_model_context = record g45_context { model = some g45 }

step_valid : validate_flow g45_codec 120 g45_model_context ≡ ok tt
unfolding validate_flow
step_valid = refl

percentage-flow_for_percentage_example :
    (p : ℕ) × (percentage ordered g45 (some blowing) ≡ some p)
    × (flow_for_percentage g45_codec p g45_model_context ≡ ok 120)
percentage-flow_for_percentage_example =
    percentage-flow_for_percentage ordered g45_codec g45_model_context g45 blowing 120 refl refl
      refl step_valid refl refl

-- A device that answers no refresh for two minutes.
abbrev silent : RuntimeData
silent = check_staleness (create_runtime running 0) 120

silent_refreshing : silent.refreshing ≡ true
unfolding check_staleness
silent_refreshing = refl

silent-Reaches :
    Reaches (create_runtime running 0, 0) (refresh_done silent (some request_timeout) 120, 120)
silent-Reaches =
    after (after (after here (waits 120)) checked)
      (refreshed (some request_timeout) silent_refreshing)

Reaches-IsSound_example : IsSound (refresh_done silent (some request_timeout) 120) 120
Reaches-IsSound_example =
    Reaches-IsSound running 0 (refresh_done silent (some request_timeout) 120, 120) silent-Reaches
