-- ===== src/Transport.antt =====
-- The state of `LocalDeviceClient` in transport.py that receiving a datagram reads and writes, the
-- merging of partial reports, and the confirmation of a command by an observed state. Time is the
-- loop's monotonic clock in milliseconds. A listener's own exception is caught by the client, so
-- listeners are modelled by what is delivered to them; debug logging is left out.
pub mod Receive
pub mod Confirm
pub mod Duplicates
pub mod Trust
pub mod Arrival
pub mod Encoded
pub mod Waits
pub mod Settling
pub mod Merging
use ha_352air_legacy_local.Base.{
  ℕ, ◌+◌, ◌%◌, Bool, true, false, Option, none, some, List, [], ◌∷◌, ◌++◌, ◌==◌, ◌||◌, ◌&&◌, not,
  if◌then◌else◌, one_of, Result, ok, err,
}
use ha_352air_legacy_local.Base.Bytes.{Bytes}
use ha_352air_legacy_local.Models.{
  HeaderIdentity, Command, CommandContext, CommandOperation, make_context, DeviceModel, PacketKind,
  PowerState, on, off, ModeValue, mode_int, mode_op, speed_op, ptc_op, timer_op, child_lock_op,
  display_op, power_op, airflow_op, percentage_op, backlight_op, ProtocolFamily, a5a0, same_family,
}
use ha_352air_legacy_local.Models.State.{DeviceState, Text, merge}
use ha_352air_legacy_local.Codec.{DeviceCodec, codec_family, f072_codec, m25_codec, a5a0_codec}
use ha_352air_legacy_local.F072.{F072Codec, flow_for_percentage}

-- _PendingState; `outcome` is its future, None until it is done.
pub record PendingState : Type 0 where
  pub outcome : Option (Result DeviceState)
  pub outer_sequences : List ℕ
  pub inner_sequences : List ℕ
  pub command : Option Command
  pub expected_kind : PacketKind
  pub created_at : ℕ

-- What the listeners are called with.
pub data Notification : Type 0 where
  state_event : DeviceState → Notification
  identity_event : HeaderIdentity → Notification

pub record Client : Type 0 where
  pub host : Text
  pub port : ℕ
  pub model : DeviceModel
  pub codec : DeviceCodec
  pub identity : HeaderIdentity
  pub observed : Option DeviceState
  pub available : Bool
  pub last_state_at : Option ℕ
  pub has_loop : Bool
  pub closed : Bool
  pub pending : List PendingState
  pub outer_sequence : ℕ
  pub inner_sequence : ℕ
  pub recent_datagrams : List (Bytes × ℕ)
  pub delivered : List Notification

-- `received if received is not None else previous`
abbrev pub newer {ℓ} : {A : Type ℓ} → Option A → Option A → Option A
newer previous none = previous
newer previous (some received) = some received

-- _merge_state, field by field.
unfoldable pub merge_state : Option DeviceState → DeviceState → DeviceState
merge_state none incoming = incoming
merge_state (some previous) incoming = record {
  mode = newer previous.mode incoming.mode;
  speed = newer previous.speed incoming.speed;
  timer_hours = newer previous.timer_hours incoming.timer_hours;
  timer_remaining_minutes = newer previous.timer_remaining_minutes incoming.timer_remaining_minutes;
  air_quality_raw = newer previous.air_quality_raw incoming.air_quality_raw;
  child_lock = newer previous.child_lock incoming.child_lock;
  display_on = newer previous.display_on incoming.display_on;
  power = newer previous.power incoming.power;
  ptc = newer previous.ptc incoming.ptc;
  pm25 = newer previous.pm25 incoming.pm25;
  filter_type_raw = newer previous.filter_type_raw incoming.filter_type_raw;
  processed_air_m3 = newer previous.processed_air_m3 incoming.processed_air_m3;
  purified_air_m3 = newer previous.purified_air_m3 incoming.purified_air_m3;
  processed_air_exponent = newer previous.processed_air_exponent incoming.processed_air_exponent;
  processed_air_base = newer previous.processed_air_base incoming.processed_air_base;
  purified_air_exponent = newer previous.purified_air_exponent incoming.purified_air_exponent;
  purified_air_base = newer previous.purified_air_base incoming.purified_air_base;
  temperature = newer previous.temperature incoming.temperature;
  humidity = newer previous.humidity incoming.humidity;
  co2 = newer previous.co2 incoming.co2;
  airflow_m3h = newer previous.airflow_m3h incoming.airflow_m3h;
  linkage_raw = newer previous.linkage_raw incoming.linkage_raw;
  backlight = newer previous.backlight incoming.backlight;
  raw_values = merge previous.raw_values incoming.raw_values;
}

-- `state.field == number`, `state.flag is expected` and `state.power is expected`.
abbrev pub is_number : Option ℕ → ℕ → Bool
is_number none n = false
is_number (some m) n = m == n

abbrev pub is_flag : Option Bool → Bool → Bool
is_flag none b = false
is_flag (some true) b = b
is_flag (some false) b = not b

abbrev pub is_on : Option PowerState → Bool
is_on (some on) = true
is_on _ = false

abbrev pub is_off : Option PowerState → Bool
is_off (some off) = true
is_off _ = false

abbrev pub is_mode : Option ModeValue → ℕ → Bool
is_mode none n = false
is_mode (some m) n = mode_int m == n

-- A device that reports no PTC state confirms by any state.
abbrev pub is_ptc : Option ℕ → ℕ → Bool
is_ptc none n = true
is_ptc (some m) n = m == n

-- _preview_context
abbrev pub preview_context : Client → CommandContext
preview_context c = record {
  identity = c.identity;
  outer_sequence = 0;
  inner_sequence = 0;
  model = some c.model;
  outer_operation = 4;
}

-- The airflow that an F072 codec derives from a percentage; another codec confirms none.
unfoldable pub flow_confirms : DeviceCodec → CommandContext → ℕ → DeviceState → Result Bool
flow_confirms m25_codec context value observed = ok false
flow_confirms a5a0_codec context value observed = ok false
flow_confirms (f072_codec f) context value observed = elim (flow_for_percentage f value context) [
  | ok flow ↦ ok (is_number observed.airflow_m3h flow)
  | err e ↦ err e
]

-- _state_confirms_command, by the command's operation.
unfoldable pub confirms : Client → DeviceState → CommandOperation → ℕ → Result Bool
unfolding flow_confirms
confirms c observed mode_op value = ok (is_mode observed.mode value)
confirms c observed speed_op value = ok (is_number observed.speed value)
confirms c observed ptc_op value = ok (is_ptc observed.ptc value)
confirms c observed timer_op value = ok (is_number observed.timer_hours value)
confirms c observed child_lock_op value =
    let locks = if same_family (codec_family c.codec) a5a0 then 0x11 else 0x00 in
    ok (is_flag observed.child_lock (value == locks))
confirms c observed display_op value = ok (is_flag observed.display_on (value == 0x00))
confirms c observed power_op value =
    let turns_on = if same_family (codec_family c.codec) a5a0 then 0x35 else 0x00 in
    ok (if value == turns_on then is_on observed.power else is_off observed.power)
confirms c observed airflow_op value = ok (is_number observed.airflow_m3h value)
confirms c observed percentage_op value =
    if value == 0
    then ok (is_off observed.power)
    else flow_confirms c.codec (preview_context c) value observed
confirms c observed backlight_op value = ok (is_number observed.backlight value)
confirms c observed _ value = ok true

unfoldable pub state_confirms_command : Client → DeviceState → Command → Result Bool
unfolding confirms
state_confirms_command c observed command = confirms c observed command.operation command.value

-- _next_context
unfoldable pub next_context : Client → Result (CommandContext × Client)
next_context c = elim (make_context c.identity c.outer_sequence c.inner_sequence (some c.model) 4) [
  | err e ↦ err e
  | ok context ↦ ok (
    context,
    record c {
      outer_sequence = (c.outer_sequence + 1) % 65536;
      inner_sequence = (c.inner_sequence + 1) % 65536;
    },
  )
]
