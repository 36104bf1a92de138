-- ===== src/Fan.antt =====
-- The fan entity of fan.py: what it reports of a state, and the commands of its services. Home
-- Assistant's two conversions between a list of speeds and percentages are parameters.
pub mod Airflow
pub mod Curves
use ha_352air_legacy_local.Base.{
  ℕ, zero, suc, ◌+◌, ◌-◌, ◌*◌, ◌/◌, ◌%◌, ◌≤◌, ◌<◌, ◌≡◌, Bool, true, false, Option, none, some, List,
  [], ◌∷◌, ◌==◌, leb, ltb, ◌&&◌, if◌then◌else◌, one_of, length, min, max, Result, ok, err, Error,
  service_validation, key_error, ◌>>=◌,
}
use ha_352air_legacy_local.Models.{
  DeviceModel, m25, x83, g30, x83c, x50, x50s, x83c_plus, x60, x70, g45, PowerState, on, off,
  ModeValue, mode_int, mode_op, speed_op, power_op, percentage_op,
}
use ha_352air_legacy_local.Models.State.{DeviceState, Dict, lookup}
use ha_352air_legacy_local.Const.{is_six_speed, is_five_speed, is_continuous_airflow}
use ha_352air_legacy_local.Runtime.{LogicalValue, number, flag, Request}
use Prim.Native.String.{String}
use text.Mathlib.Text.{◌==◌ as text_eq}

-- homeassistant.util.percentage: the place of a speed in a list as a percentage, and back to a speed of
-- the list.
pub record Percentages : Type 0 where
  pub from_item : List ℕ → ℕ → ℕ
  pub to_item : List ℕ → ℕ → ℕ
  pub to_item_listed :
      (speeds : List ℕ) (p : ℕ)
      → 0 < length speeds
      → 1 ≤ p
      → p ≤ 100
      → one_of (to_item speeds p) speeds ≡ true

-- _A5A0_SPEEDS and _X50_COMMAND_SPEEDS
abbrev pub a5a0_speeds : List ℕ
a5a0_speeds = 1 ∷ 2 ∷ 3 ∷ 4 ∷ 5 ∷ 6 ∷ []

abbrev pub x50_command_speeds : List ℕ
x50_command_speeds = 1 ∷ 2 ∷ 3 ∷ 4 ∷ 5 ∷ []

abbrev full_modes : Dict
full_modes = ("auto", 1) ∷ ("manual", 4) ∷ ("sleep", 2) ∷ ("turbo", 3) ∷ ("deep_clean", 5) ∷ []

abbrev four_modes : Dict
four_modes = ("auto", 1) ∷ ("manual", 4) ∷ ("sleep", 2) ∷ ("turbo", 3) ∷ []

-- _MODE_OPTIONS_BY_MODEL; the M25 is no key.
abbrev pub mode_options : DeviceModel → Result Dict
mode_options m25 = err key_error
mode_options x83c = ok four_modes
mode_options x50s = ok four_modes
mode_options g30 = ok (("auto", 1) ∷ ("manual", 4) ∷ ("deep_clean", 5) ∷ [])
mode_options g45 = ok (("auto", 1) ∷ ("manual", 4) ∷ ("deep_clean", 5) ∷ [])
mode_options _ = ok full_modes

-- logical_bool of the power, and of a Boolean field.
abbrev power_flag : Option PowerState → Option Bool
power_flag none = none
power_flag (some on) = some true
power_flag (some off) = some false

-- is_on
abbrev pub is_on : Option DeviceState → Option Bool
is_on none = none
is_on (some s) = power_flag s.power

abbrev pub is_off : Option DeviceState → Bool
is_off s = elim (is_on s) [ some false ↦ true | _ ↦ false ]

-- `round` of a positive fraction: to the nearest, a tie to the even one. Python rounds a double here;
-- a tie is a double, and every other value of the range is further from a tie than its error.
abbrev pub round : ℕ → ℕ → ℕ
round numerator denominator =
    let whole = numerator / denominator in
    let twice = 2 * (numerator % denominator) in
    if ltb twice denominator
    then whole
    else if ltb denominator twice
    then whole + 1
    else whole + whole % 2

-- _airflow_range; the minimum is 40.
abbrev pub airflow_maximum : DeviceModel → ℕ
airflow_maximum g45 = 450
airflow_maximum _ = 300

abbrev pub airflow_percentage : ℕ → ℕ → Option ℕ
airflow_percentage maximum flow =
    if leb 40 flow && leb flow maximum
    then some (round ((maximum - 40) + 99 * (flow - 40)) (maximum - 40))
    else none

-- async_turn_off
abbrev pub turn_off : List Request
turn_off = record { operation = power_op; value = flag false } ∷ []

module _ (h : Percentages) where
  -- _ordered_speed_to_percentage
  abbrev pub ordered_speed_to_percentage : Option ℕ → List ℕ → Option ℕ
  ordered_speed_to_percentage none speeds = none
  ordered_speed_to_percentage (some speed) speeds =
      if one_of speed speeds then some (h.from_item speeds speed) else none

  abbrev five_speed_percentage : Option ℕ → Option ℕ
  five_speed_percentage none = none
  five_speed_percentage (some speed) =
      if speed == 6 then some 100 else ordered_speed_to_percentage (some speed) x50_command_speeds

  abbrev pub reported_percentage : DeviceModel → DeviceState → Option ℕ
  reported_percentage model s =
      if is_six_speed model
      then ordered_speed_to_percentage s.speed a5a0_speeds
      else if is_five_speed model
      then five_speed_percentage s.speed
      else if is_continuous_airflow model
      then elim s.airflow_m3h [
        | none ↦ none
        | some flow ↦ airflow_percentage (airflow_maximum model) flow
      ]
      else none

  -- percentage
  unfoldable pub percentage : DeviceModel → Option DeviceState → Option ℕ
  percentage model none = none
  percentage model (some s) = if is_off (some s) then some 0 else reported_percentage model s

  -- async_set_percentage
  unfoldable pub set_percentage : DeviceModel → ℕ → List Request
  set_percentage model p =
      if p == 0
      then turn_off
      else if is_six_speed model
      then record { operation = speed_op; value = number (h.to_item a5a0_speeds (min 100 p)) } ∷ []
      else if is_five_speed model
      then record {
        operation = speed_op;
        value = number (h.to_item x50_command_speeds (min 100 p));
      }
        ∷ []
      else record { operation = percentage_op; value = number (min 100 p) } ∷ []

  -- speed_count
  abbrev speed_count : DeviceModel → ℕ
  speed_count model = if is_six_speed model then 6 else if is_five_speed model then 5 else 100

  -- The percentage that manual mode is entered with.
  abbrev pub manual_percentage : DeviceModel → Option DeviceState → ℕ
  manual_percentage model s =
      let default = max 1 (round 100 (speed_count model)) in
      elim (percentage model s) [ none ↦ default | some p ↦ if p == 0 then default else p ]

  -- async_set_preset_mode
  unfoldable pub set_preset_mode : DeviceModel → Option DeviceState → String → Result (List Request)
  set_preset_mode model s preset = elim (mode_options model) [
    | err e ↦ err e
    | ok options ↦ elim (lookup preset options) [
      | none ↦ err service_validation
      | some value ↦ ok (
          if text_eq preset "manual"
          then set_percentage model (manual_percentage model s)
          else record { operation = mode_op; value = number value } ∷ [])
    ]
  ]

  -- async_turn_on: the power command, and what follows it or the exception behind it; the state is
  -- the one after the power command.
  unfoldable pub turn_on :
      DeviceModel
      → Option DeviceState
      → Option ℕ
      → Option String
      → List Request × Result (List Request)
  turn_on model s p (some preset) =
      (record { operation = power_op; value = flag true } ∷ [], set_preset_mode model s preset)
  turn_on model s none none = (record { operation = power_op; value = flag true } ∷ [], ok [])
  turn_on model s (some p) none = (
    record { operation = power_op; value = flag true } ∷ [],
    ok (if p == 0 then [] else set_percentage model p),
  )

-- The first option with a value.
unfoldable pub preset_of : ℕ → Dict → Option String
preset_of value [] = none
preset_of value ((preset, command_value) ∷ rest) =
    if command_value == value then some preset else preset_of value rest

-- preset_mode
unfoldable pub preset_mode : DeviceModel → Option DeviceState → Result (Option String)
preset_mode model none = ok none
preset_mode model (some s) = if is_off (some s) then ok none else elim s.mode [
  | none ↦ ok none
  | some m ↦ elim (mode_options model) [
    | err e ↦ err e
    | ok options ↦ ok (preset_of (mode_int m) options)
  ]
]
