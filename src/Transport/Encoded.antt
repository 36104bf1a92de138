-- ===== src/Transport/Encoded.antt =====
-- The commands that a model's codec can encode, and those that a state can confirm.
use ha_352air_legacy_local.Base.{
  ℕ, ◌≤◌, [], ◌∷◌, Bool-cases, one_of, ◌≡◌, ◌⊎◌, inl, inr, true, false, ok, arith,
}
use ha_352air_legacy_local.Base.Bytes.{Bytes}
use ha_352air_legacy_local.Models.{
  Command, CommandContext, CommandOperation, mode_op, speed_op, ptc_op, timer_op, child_lock_op,
  display_op, filter_op, power_op, airflow_op, percentage_op, backlight_op, on, off, f072_x50,
  f072_g30,
}
use ha_352air_legacy_local.Codec.{DeviceCodec, f072_codec, m25_codec, a5a0_codec, encode_command}
use ha_352air_legacy_local.M25
use ha_352air_legacy_local.A5a0
use ha_352air_legacy_local.F072
use ha_352air_legacy_local.F072.{F072Codec}
use ha_352air_legacy_local.Transport.Confirm.{IsConfirmable}

abbrev pub IsCodec : DeviceCodec → Type 0
IsCodec (f072_codec c) = (c.family ≡ f072_x50) ⊎ (c.family ≡ f072_g30)
IsCodec _ = Unit

abbrev a_command : CommandOperation → ℕ → Command
a_command op value = record { operation = op; value = value }

m25-IsConfirmable :
    (context : CommandContext) (op : CommandOperation) (value : ℕ) (bytes : Bytes)
    → M25.encode_command context (a_command op value) ≡ ok bytes
    → IsConfirmable m25_codec op value
unfolding M25.encode_command
m25-IsConfirmable context power_op value bytes e = absurd (ground (arith, e))
m25-IsConfirmable context child_lock_op value bytes e = absurd (ground (arith, e))
m25-IsConfirmable context display_op value bytes e = absurd (ground (arith, e))
m25-IsConfirmable context percentage_op value bytes e = absurd (ground (arith, e))
m25-IsConfirmable context mode_op value bytes e = tt
m25-IsConfirmable context speed_op value bytes e = tt
m25-IsConfirmable context ptc_op value bytes e = tt
m25-IsConfirmable context timer_op value bytes e = tt
m25-IsConfirmable context filter_op value bytes e = tt
m25-IsConfirmable context airflow_op value bytes e = tt
m25-IsConfirmable context backlight_op value bytes e = tt

two : (value a b : ℕ) → one_of value (a ∷ b ∷ []) ≡ true → (value ≡ a) ⊎ (value ≡ b)
two value a b e = ground arith

a5a0-valid :
    (context : CommandContext) (op : CommandOperation) (value : ℕ) (bytes : Bytes)
    → A5a0.encode_command context (a_command op value) ≡ ok bytes
    → one_of value (A5a0.valid_values op) ≡ true
unfolding A5a0.encode_command
a5a0-valid context op value bytes e = elim (Bool-cases (one_of value (A5a0.valid_values op))) [
  | inl t ↦ t
  | inr t ↦ absurd (ground (arith, e, t))
]

a5a0-IsConfirmable :
    (context : CommandContext) (op : CommandOperation) (value : ℕ) (bytes : Bytes)
    → A5a0.encode_command context (a_command op value) ≡ ok bytes
    → IsConfirmable a5a0_codec op value
a5a0-IsConfirmable context power_op value bytes e =
    elim (two value 0x35 0x11 (a5a0-valid context power_op value bytes e)) [
      | inl q ↦ (on, q)
      | inr q ↦ (off, q)
    ]
a5a0-IsConfirmable context child_lock_op value bytes e =
    elim (two value 0x00 0x11 (a5a0-valid context child_lock_op value bytes e)) [
      | inl q ↦ (false, q)
      | inr q ↦ (true, q)
    ]
a5a0-IsConfirmable context display_op value bytes e =
    elim (two value 0x00 0x11 (a5a0-valid context display_op value bytes e)) [
      | inl q ↦ (true, q)
      | inr q ↦ (false, q)
    ]
a5a0-IsConfirmable context percentage_op value bytes e =
    absurd (ground (arith, a5a0-valid context percentage_op value bytes e))
a5a0-IsConfirmable context mode_op value bytes e = tt
a5a0-IsConfirmable context speed_op value bytes e = tt
a5a0-IsConfirmable context ptc_op value bytes e = tt
a5a0-IsConfirmable context timer_op value bytes e = tt
a5a0-IsConfirmable context filter_op value bytes e = tt
a5a0-IsConfirmable context airflow_op value bytes e = tt
a5a0-IsConfirmable context backlight_op value bytes e = tt

-- The settings of an F072 codec have the bytes 00 and 11.
module _ (c : F072Codec) (context : CommandContext) (value : ℕ) (bytes : Bytes) where
  f072-power :
      F072.encode_command c context (a_command power_op value) ≡ ok bytes
      → (value ≡ 0x00) ⊎ (value ≡ 0x11)
  unfolding F072.encode_command F072.encode_single_value
  f072-power e = ground (arith, e)

  f072-lock :
      F072.encode_command c context (a_command child_lock_op value) ≡ ok bytes
      → (value ≡ 0x00) ⊎ (value ≡ 0x11)
  unfolding F072.encode_command F072.encode_single_value
  f072-lock e = ground (arith, e)

  f072-display :
      F072.encode_command c context (a_command display_op value) ≡ ok bytes
      → (value ≡ 0x00) ⊎ (value ≡ 0x11)
  unfolding F072.encode_command F072.encode_single_value
  f072-display e = ground (arith, e)

f072-percentage :
    (c : F072Codec) (context : CommandContext) (value : ℕ) (bytes : Bytes)
    → F072.encode_command c context (a_command percentage_op value) ≡ ok bytes
    → (value ≡ 0) ⊎ ((value ≤ 100) × (c.family ≡ f072_g30))
unfolding F072.encode_command F072.encode_percentage
f072-percentage c context value bytes e = ground (arith, e)

f072-IsConfirmable :
    (c : F072Codec) (context : CommandContext) (op : CommandOperation) (value : ℕ) (bytes : Bytes)
    → IsCodec (f072_codec c)
    → F072.encode_command c context (a_command op value) ≡ ok bytes
    → IsConfirmable (f072_codec c) op value
f072-IsConfirmable c context power_op value bytes f e = elim (f072-power c context value bytes e) [
  | inl q ↦ (on, ground (arith, f, q))
  | inr q ↦ (off, ground (arith, f, q))
]
f072-IsConfirmable c context child_lock_op value bytes f e =
    elim (f072-lock c context value bytes e) [
      | inl q ↦ (true, ground (arith, f, q))
      | inr q ↦ (false, ground (arith, f, q))
    ]
f072-IsConfirmable c context display_op value bytes f e =
    elim (f072-display c context value bytes e) [ inl q ↦ (true, q) | inr q ↦ (false, q) ]
f072-IsConfirmable c context percentage_op value bytes f e = f072-percentage c context value bytes e
f072-IsConfirmable c context mode_op value bytes f e = tt
f072-IsConfirmable c context speed_op value bytes f e = tt
f072-IsConfirmable c context ptc_op value bytes f e = tt
f072-IsConfirmable c context timer_op value bytes f e = tt
f072-IsConfirmable c context filter_op value bytes f e = tt
f072-IsConfirmable c context airflow_op value bytes f e = tt
f072-IsConfirmable c context backlight_op value bytes f e = tt

-- A command that the codec of a family encodes is one whose confirmation is known.
pub encode_command-IsConfirmable :
    (codec : DeviceCodec) (context : CommandContext) (command : Command) (bytes : Bytes)
    → IsCodec codec
    → encode_command codec context command ≡ ok bytes
    → IsConfirmable codec command.operation command.value
unfolding encode_command
encode_command-IsConfirmable m25_codec context command bytes f e =
    m25-IsConfirmable context command.operation command.value bytes e
encode_command-IsConfirmable a5a0_codec context command bytes f e =
    a5a0-IsConfirmable context command.operation command.value bytes e
encode_command-IsConfirmable (f072_codec c) context command bytes f e =
    f072-IsConfirmable c context command.operation command.value bytes f e
