-- ===== src/Transport/Merging.antt =====
-- The detector's partial reports, merged.
use ha_352air_legacy_local.Base.{ℕ, ◌≡◌, Option, none, some, arith}
use ha_352air_legacy_local.Models.State.{DeviceState}
use ha_352air_legacy_local.Transport.{merge_state}

abbrev pub ShowsBoth : DeviceState → ℕ → ℕ → Type 0
ShowsBoth s pm25 backlight = (s.pm25 ≡ some pm25) × (s.backlight ≡ some backlight)

-- A sensor report and a backlight report leave the value of each, in whichever order they come and
-- whatever was known before.
pub merge_state_orders :
    (before : Option DeviceState) (sensors light : DeviceState) {pm25 backlight : ℕ}
    → sensors.pm25 ≡ some pm25
    → sensors.backlight ≡ none
    → light.pm25 ≡ none
    → light.backlight ≡ some backlight
    → ShowsBoth (merge_state (some (merge_state before sensors)) light) pm25 backlight
      × ShowsBoth (merge_state (some (merge_state before light)) sensors) pm25 backlight
unfolding merge_state
merge_state_orders none sensors light a b c d = ground (arith, a, b, c, d)
merge_state_orders (some s) sensors light a b c d = ground (arith, a, b, c, d)
