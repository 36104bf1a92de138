-- ===== src/Controls.antt =====
-- The services of select.py, switch.py and light.py. A select's options stand with the number that
-- the source sends for each: for the timer 0 for "off" and `int(option)` for the others.
pub mod Services
pub mod Fits
use ha_352air_legacy_local.Base.{
  ℕ, Bool, true, false, not, Option, none, some, List, [], ◌∷◌, ◌++◌, Result, ok, err,
  service_validation,
}
use ha_352air_legacy_local.Models.{
  DeviceModel, CommandOperation, timer_op, ptc_op, backlight_op, child_lock_op, display_op,
  power_op,
}
use ha_352air_legacy_local.Models.State.{DeviceState, Dict, lookup}
use ha_352air_legacy_local.Runtime.{Request, number, flag}
use ha_352air_legacy_local.Fan.{
  Percentages, is_on, set_percentage, set_preset_mode, turn_on, turn_off, preset_of,
}
use ha_352air_legacy_local.Const.{model_is_purifier, is_continuous_airflow}
use Prim.Native.String.{String}

-- _TIMER_OPTIONS
abbrev pub timer_options : Dict
timer_options = ("off", 0) ∷ ("1", 1) ∷ ("2", 2) ∷ ("3", 3) ∷ ("5", 5) ∷ ("8", 8) ∷ []

-- _PTC_OPTIONS
abbrev pub ptc_options : Dict
ptc_options = ("off", 0) ∷ ("level_1", 1) ∷ ("level_2", 2) ∷ []

-- _BACKLIGHT_OPTIONS
abbrev pub backlight_options : Dict
backlight_options = ("five_minutes", 0) ∷ ("always_on", 1) ∷ []

-- async_select_option of TimerSelect and of _MappedSelect
unfoldable pub select_option : CommandOperation → Dict → String → Result Request
select_option operation options option = elim (lookup option options) [
  | none ↦ err service_validation
  | some value ↦ ok (record { operation = operation; value = number value })
]

-- current_option
unfoldable pub current_option : Dict → Option ℕ → Option String
current_option options none = none
current_option options (some value) = preset_of value options

-- async_turn_on and async_turn_off of ChildLockSwitch and of DisplayLight
abbrev pub switch_lock : Bool → Request
switch_lock b = record { operation = child_lock_op; value = flag b }

abbrev pub switch_display : Bool → Request
switch_display b = record { operation = display_op; value = flag b }

-- A call of a service of one of a device's entities.
pub data Service : Type 0 where
  fan_set_percentage : ℕ → Service
  fan_set_preset_mode : String → Service
  fan_turn_on : Option ℕ → Option String → Service
  fan_turn_off : Service
  select_timer select_ptc select_backlight : String → Service
  turn_lock turn_display : Bool → Service

-- Whether a model has the entity: async_setup_entry of fan.py, select.py, switch.py and light.py.
abbrev pub offers : DeviceModel → Service → Bool
offers model (select_ptc _) = is_continuous_airflow model
offers model (select_backlight _) = not (model_is_purifier model)
offers model _ = model_is_purifier model

-- The requests of a service, in order, and its outcome when each of them succeeds. A later request
-- of the fan is chosen from the state at that time, which is the argument.
abbrev pub outcome_of : Result (List Request) → List Request × Result (Unit {0})
outcome_of (ok requests) = (requests, ok tt)
outcome_of (err e) = ([], err e)

abbrev pub selected : Result Request → List Request × Result (Unit {0})
selected (ok request) = (request ∷ [], ok tt)
selected (err e) = ([], err e)

unfoldable pub issued :
    Percentages → DeviceModel → Option DeviceState → Service → List Request × Result (Unit {0})
issued h model s (fan_set_percentage p) = (set_percentage h model p, ok tt)
issued h model s (fan_set_preset_mode preset) = outcome_of (set_preset_mode h model s preset)
issued h model s (fan_turn_on p preset) =
    let (first, rest) = turn_on h model s p preset in
    (first ++ (outcome_of rest).0, (outcome_of rest).1)
issued h model s fan_turn_off = (turn_off, ok tt)
issued h model s (select_timer option) = selected (select_option timer_op timer_options option)
issued h model s (select_ptc option) = selected (select_option ptc_op ptc_options option)
issued h model s (select_backlight option) =
    selected (select_option backlight_op backlight_options option)
issued h model s (turn_lock b) = (switch_lock b ∷ [], ok tt)
issued h model s (turn_display b) = (switch_display b ∷ [], ok tt)

-- state_attribute of the selects' attributes, and current_option of each.
abbrev pub native_value : CommandOperation → DeviceState → Option ℕ
native_value timer_op s = s.timer_hours
native_value ptc_op s = s.ptc
native_value backlight_op s = s.backlight
native_value _ s = none

abbrev pub shown_option : CommandOperation → Dict → DeviceState → Option String
shown_option operation options s = current_option options (native_value operation s)

-- is_on of the fan, of ChildLockSwitch and of DisplayLight
abbrev pub shown_flag : CommandOperation → DeviceState → Option Bool
shown_flag power_op s = is_on (some s)
shown_flag child_lock_op s = s.child_lock
shown_flag display_op s = s.display_on
shown_flag _ s = none
