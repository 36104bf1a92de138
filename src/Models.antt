-- ===== src/Models.antt =====
-- The values of models.py that the codecs and the transport exchange: enumerations as data types
-- with the source's members, dataclasses as records, and each `__post_init__` as the function that
-- builds the record or raises. An `int` that the source checks to be unsigned is a natural number.
pub mod State
pub mod Laws
use ha_352air_legacy_local.Base.{
  ℕ, ◌^◌, ◌<◌, ◌≤◌, Bool, true, false, Option, none, some, ◌==◌, ltb, leb, if◌then◌else◌, length,
  Result, ok, err, value_error, ◌>>=◌, ◌>>◌, require, ◌||◌, ◌≡◌,
}
use ha_352air_legacy_local.Base.Bytes.{Bytes, IsBytes, IsByte, IsU16}

pub data DeviceModel : Type 0 where
  m25 x83 g30 x83c x50 x50s x83c_plus x60 x70 g45 : DeviceModel

pub data ProtocolFamily : Type 0 where
  m25_family a5a0 f072_x50 f072_g30 : ProtocolFamily

-- MODEL_FAMILIES
unfoldable pub family_for_model : DeviceModel → ProtocolFamily
family_for_model m25 = m25_family
family_for_model x83 = a5a0
family_for_model x83c = a5a0
family_for_model x83c_plus = a5a0
family_for_model x50 = f072_x50
family_for_model x50s = f072_x50
family_for_model x60 = f072_x50
family_for_model x70 = f072_x50
family_for_model g30 = f072_g30
family_for_model g45 = f072_g30

-- The tests `family is ProtocolFamily.X` and `model is DeviceModel.G45`.
abbrev family_index : ProtocolFamily → ℕ
family_index m25_family = 0
family_index a5a0 = 1
family_index f072_x50 = 2
family_index f072_g30 = 3

abbrev pub same_family : ProtocolFamily → ProtocolFamily → Bool
same_family a b = family_index a == family_index b

abbrev pub is_g45 : Option DeviceModel → Bool
is_g45 (some g45) = true
is_g45 _ = false

pub data PowerState : Type 0 where
  off on : PowerState

pub data OperatingMode : Type 0 where
  auto sleep turbo manual deep_clean : OperatingMode

-- `type ModeValue = OperatingMode | int`
pub data ModeValue : Type 0 where
  mode : OperatingMode → ModeValue
  raw : ℕ → ModeValue

pub data PacketKind : Type 0 where
  state ack discovery backlight_kind : PacketKind

abbrev kind_index : PacketKind → ℕ
kind_index state = 0
kind_index ack = 1
kind_index discovery = 2
kind_index backlight_kind = 3

abbrev pub same_kind : PacketKind → PacketKind → Bool
same_kind a b = kind_index a == kind_index b

pub data CommandOperation : Type 0 where
  mode_op speed_op ptc_op timer_op child_lock_op display_op filter_op : CommandOperation
  power_op airflow_op percentage_op backlight_op : CommandOperation

-- _check_unsigned
unfoldable pub check_unsigned : ℕ → ℕ → Result (Unit {0})
check_unsigned value bits = require (ltb value (2 ^ bits)) value_error

pub record HeaderIdentity : Type 0 where
  pub mac : Bytes
  pub company : ℕ
  pub wire_type : ℕ
  pub auth : ℕ

-- HeaderIdentity.__post_init__
unfoldable pub make_identity : Bytes → ℕ → ℕ → ℕ → Result HeaderIdentity
unfolding check_unsigned
make_identity mac company wire_type auth = do
  require (length mac == 6) value_error
  check_unsigned company 8
  check_unsigned wire_type 8
  check_unsigned auth 16
  ok (record { mac = mac; company = company; wire_type = wire_type; auth = auth })

-- What `__post_init__` lets through; that a MAC consists of bytes is Python's type.
pub record IsIdentity (h : HeaderIdentity) : Type 0 where
  pub mac_bytes : IsBytes h.mac
  pub mac_length : length h.mac ≡ 6
  pub company_byte : IsByte h.company
  pub wire_byte : IsByte h.wire_type
  pub auth_u16 : IsU16 h.auth

pub record Command : Type 0 where
  pub operation : CommandOperation
  pub value : ℕ

-- Command.__post_init__
unfoldable pub make_command : CommandOperation → ℕ → Result Command
make_command operation value = do
  require (leb value 0xFFFF) value_error
  ok (record { operation = operation; value = value })

-- Command.percentage
unfoldable pub percentage : ℕ → Result Command
unfolding make_command
percentage value = do require (leb value 100) value_error; make_command percentage_op value

-- Command.is_coalescible
unfoldable pub is_coalescible : Command → Bool
is_coalescible c = elim c.operation [ percentage_op ↦ true | speed_op ↦ true | _ ↦ false ]

pub record CommandContext : Type 0 where
  pub identity : HeaderIdentity
  pub outer_sequence : ℕ
  pub inner_sequence : ℕ
  pub model : Option DeviceModel
  pub outer_operation : ℕ

-- CommandContext.__post_init__
unfoldable pub make_context :
    HeaderIdentity → ℕ → ℕ → Option DeviceModel → ℕ → Result CommandContext
unfolding check_unsigned
make_context identity outer_sequence inner_sequence model outer_operation = do
  check_unsigned outer_sequence 16
  check_unsigned inner_sequence 16
  check_unsigned outer_operation 8
  ok (record {
    identity = identity;
    outer_sequence = outer_sequence;
    inner_sequence = inner_sequence;
    model = model;
    outer_operation = outer_operation;
  })

pub record IsContext (c : CommandContext) : Type 0 where
  pub identity_valid : IsIdentity c.identity
  pub outer_u16 : IsU16 c.outer_sequence
  pub inner_u16 : IsU16 c.inner_sequence
  pub operation_byte : IsByte c.outer_operation

-- known_mode
unfoldable pub known_mode : ℕ → ModeValue
known_mode value =
    if value == 1
    then mode auto
    else if value == 2
    then mode sleep
    else if value == 3
    then mode turbo
    else if value == 4
    then mode manual
    else if value == 5
    then mode deep_clean
    else raw value

-- int(mode): `OperatingMode` is an `int`.
abbrev operating_int : OperatingMode → ℕ
operating_int auto = 1
operating_int sleep = 2
operating_int turbo = 3
operating_int manual = 4
operating_int deep_clean = 5

abbrev pub mode_int : ModeValue → ℕ
mode_int (mode m) = operating_int m
mode_int (raw n) = n
