-- ===== src/Runtime.antt =====
-- The bridge of runtime.py between Home Assistant's values and the client's commands.
pub mod Encodable
pub mod Confirmed
pub mod Availability
use ha_352air_legacy_local.Base.{ℕ, Bool, true, false, if◌then◌else◌, Result, ok, ◌>>=◌}
use ha_352air_legacy_local.Models.{
  DeviceModel, Command, make_command, CommandOperation, display_op, child_lock_op, power_op,
}
use ha_352air_legacy_local.Const.{is_six_speed}

-- `int | bool`
pub data LogicalValue : Type 0 where
  number : ℕ → LogicalValue
  flag : Bool → LogicalValue

-- A call of async_command.
pub record Request : Type 0 where
  pub operation : CommandOperation
  pub value : LogicalValue

-- _wire_command_value of a bool; the literal set of models is the six-speed one.
unfoldable pub flag_value : DeviceModel → CommandOperation → Bool → ℕ
flag_value model display_op value = if value then 0x00 else 0x11
flag_value model child_lock_op value =
    if is_six_speed model then (if value then 0x11 else 0x00) else (if value then 0x00 else 0x11)
flag_value model power_op value =
    if is_six_speed model then (if value then 0x35 else 0x11) else (if value then 0x00 else 0x11)
flag_value model _ value = if value then 1 else 0

-- _wire_command_value
unfoldable pub wire_command_value : DeviceModel → CommandOperation → LogicalValue → ℕ
unfolding flag_value
wire_command_value model operation (number n) = n
wire_command_value model operation (flag b) = flag_value model operation b

-- The command that async_command gives to the client.
unfoldable pub command_for : DeviceModel → Request → Result Command
command_for model r = make_command r.operation (wire_command_value model r.operation r.value)
