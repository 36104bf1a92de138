-- ===== src/Transport/Confirm.antt =====
-- What an observed state must show before a command counts as done.
use ha_352air_legacy_local.Base.{
  ap, sym, ◌∙◌, ℕ, ◌≤◌, ◌≡◌, refl, ◌≢◌, ◌⊎◌, inl, inr, Bool, true, false, Option, none, some,
  Result, ok, arith, ℕ_discrete, ◌==◌, if◌then◌else◌,
}
use ha_352air_legacy_local.Models.{
  Command, CommandContext, CommandOperation, mode_op, speed_op, ptc_op, timer_op, child_lock_op,
  display_op, filter_op, power_op, airflow_op, percentage_op, backlight_op, PowerState, on, off,
  ModeValue, ProtocolFamily, mode_int, a5a0, f072_g30, same_family,
}
use ha_352air_legacy_local.Models.State.{DeviceState}
use ha_352air_legacy_local.Codec.{DeviceCodec, codec_family, f072_codec, m25_codec, a5a0_codec}
use ha_352air_legacy_local.F072.{flow_maximum}
use ha_352air_legacy_local.F072.Airflow.{
  flow_maximum_cases, IsNearestStep, flow_for_percentage_nearest,
}
use ha_352air_legacy_local.Transport.{
  Client, state_confirms_command, confirms, preview_context, flow_confirms, is_flag, is_number,
  is_on, is_off, is_mode, is_ptc,
}

-- The documented bytes of the commands that ask for one of two settings, by family.
abbrev pub power_byte : ProtocolFamily → PowerState → ℕ
power_byte a5a0 on = 0x35
power_byte a5a0 off = 0x11
power_byte _ on = 0x00
power_byte _ off = 0x11

abbrev pub lock_byte : ProtocolFamily → Bool → ℕ
lock_byte a5a0 true = 0x11
lock_byte a5a0 false = 0x00
lock_byte _ true = 0x00
lock_byte _ false = 0x11

abbrev pub display_byte : Bool → ℕ
display_byte true = 0x00
display_byte false = 0x11

-- An airflow for a percentage above 0: the nearest step of the model's range.
abbrev ShowsFlow : DeviceCodec → CommandContext → DeviceState → ℕ → Type 0
ShowsFlow (f072_codec f) context s value =
    (flow : ℕ) × IsNearestStep (flow_maximum f context) value flow × (s.airflow_m3h ≡ some flow)
ShowsFlow _ context s value = ⊥

-- The state's field for a command reports the setting that the command's value asks for. No field
-- reports a filter command.
abbrev pub Reports : DeviceCodec → CommandContext → DeviceState → CommandOperation → ℕ → Type 0
Reports codec context s mode_op value = (m : ModeValue) × (s.mode ≡ some m) × (mode_int m ≡ value)
Reports codec context s speed_op value = s.speed ≡ some value
Reports codec context s ptc_op value = s.ptc ≡ some value
Reports codec context s timer_op value = s.timer_hours ≡ some value
Reports codec context s child_lock_op value =
    (b : Bool) × (value ≡ lock_byte (codec_family codec) b) × (s.child_lock ≡ some b)
Reports codec context s display_op value =
    (b : Bool) × (value ≡ display_byte b) × (s.display_on ≡ some b)
Reports codec context s filter_op value = ⊥
Reports codec context s power_op value =
    (b : PowerState) × (value ≡ power_byte (codec_family codec) b) × (s.power ≡ some b)
Reports codec context s airflow_op value = s.airflow_m3h ≡ some value
Reports codec context s percentage_op value =
    ((value ≡ 0) × (s.power ≡ some off)) ⊎ ((value ≢ 0) × ShowsFlow codec context s value)
Reports codec context s backlight_op value = s.backlight ≡ some value

-- The state cannot tell: of a filter command never, of a PTC command if it has no PTC setting.
abbrev pub IsUnreported : DeviceState → CommandOperation → Type 0
IsUnreported s filter_op = Unit
IsUnreported s ptc_op = s.ptc ≡ none
IsUnreported s _ = ⊥

abbrev IsG30 : DeviceCodec → Type 0
IsG30 (f072_codec f) = f.family ≡ f072_g30
IsG30 _ = ⊥

-- A documented value of a power, lock or display command; a percentage that is 0, or at most 100
-- with the codec of a G30 or G45; any other command.
abbrev pub IsConfirmable : DeviceCodec → CommandOperation → ℕ → Type 0
IsConfirmable codec power_op value = (b : PowerState) × (value ≡ power_byte (codec_family codec) b)
IsConfirmable codec child_lock_op value = (b : Bool) × (value ≡ lock_byte (codec_family codec) b)
IsConfirmable codec display_op value = (b : Bool) × (value ≡ display_byte b)
IsConfirmable codec percentage_op value = (value ≡ 0) ⊎ ((value ≤ 100) × IsG30 codec)
IsConfirmable codec _ value = Unit

-- The test answers, and answers True exactly if `P` holds.
abbrev pub Answers : Type 0 → Result Bool → Type 0
Answers P r = ((r ≡ ok true) × P) ⊎ ((r ≡ ok false) × (¬ P))

Answers-iff : {P Q : Type 0} (r : Result Bool) → (P → Q) → (Q → P) → Answers P r → Answers Q r
Answers-iff r f g (inl (e, p)) = inl (e, f p)
Answers-iff r f g (inr (e, n)) = inr (e, λ q. n (g q))

-- A field that reports is one disjunct of what confirms.
reported : {P : Type 0} (r : Result Bool) → Answers P r → Answers (P ⊎ ⊥) r
reported r a = Answers-iff r inl (λ h. elim h [ inl p ↦ p | inr never ↦ absurd never ]) a

number-Answers : (o : Option ℕ) (n : ℕ) → Answers (o ≡ some n) (ok (is_number o n))
number-Answers o n = ground arith

-- The byte of a setting determines it.
power_byte_injective :
    (family : ProtocolFamily) (a b : PowerState) → power_byte family a ≡ power_byte family b → a ≡ b
power_byte_injective family a b e = ground arith

lock_byte_injective :
    (family : ProtocolFamily) (a b : Bool) → lock_byte family a ≡ lock_byte family b → a ≡ b
lock_byte_injective family a b e = ground arith

display_byte_injective : (a b : Bool) → display_byte a ≡ display_byte b → a ≡ b
display_byte_injective a b e = ground arith

-- A setting that is asked for by one byte only.
setting-Answers :
    {S : Type 0} (byte : S → ℕ) (field : Option S) (value : ℕ) (b : S) (r : Result Bool)
    → ((x y : S) → byte x ≡ byte y → x ≡ y)
    → value ≡ byte b
    → Answers (field ≡ some b) r
    → Answers ((x : S) × (value ≡ byte x) × (field ≡ some x)) r
setting-Answers byte field value b r injective e a =
    Answers-iff r (λ h. (b, e, h)) (λ (x, q, h). h ∙ ap some (injective x b (sym q ∙ e))) a

power-Answers :
    (family : ProtocolFamily) (field : Option PowerState) (value : ℕ) (b : PowerState)
    → value ≡ power_byte family b
    → Answers (field ≡ some b) (
        ok (
          if value == (if same_family family a5a0 then 0x35 else 0x00)
          then is_on field
          else is_off field))
power-Answers family field value b e = ground (arith, e)

lock-Answers :
    (family : ProtocolFamily) (field : Option Bool) (value : ℕ) (b : Bool)
    → value ≡ lock_byte family b
    → Answers
        (field ≡ some b)
        (ok (is_flag field (value == (if same_family family a5a0 then 0x11 else 0x00))))
lock-Answers family field value b e = ground (arith, e)

display-Answers :
    (field : Option Bool) (value : ℕ) (b : Bool)
    → value ≡ display_byte b
    → Answers (field ≡ some b) (ok (is_flag field (value == 0x00)))
display-Answers field value b e = ground (arith, e)

mode-Answers :
    (o : Option ModeValue) (n : ℕ)
    → Answers ((m : ModeValue) × (o ≡ some m) × (mode_int m ≡ n)) (ok (is_mode o n))
mode-Answers none n = inr (refl, λ (m, e, _). cc)
mode-Answers (some m) n = elim (ℕ_discrete (mode_int m) n) [
  | yes e ↦ inl (ground arith, (m, refl, e))
  | no k ↦ inr (ground arith, λ (m, e, v). k (ap (mode_or n) e ∙ v))
]
  where
    mode_or : ℕ → Option ModeValue → ℕ
    mode_or n none = n
    mode_or n (some m) = mode_int m

ptc-Answers : (o : Option ℕ) (n : ℕ) → Answers ((o ≡ some n) ⊎ (o ≡ none)) (ok (is_ptc o n))
ptc-Answers o n = ground arith

nearest_unique :
    (top p a b : ℕ)
    → (top ≡ 300) ⊎ (top ≡ 450)
    → IsNearestStep top p a
    → IsNearestStep top p b
    → a ≡ b
nearest_unique top p a b t x y =
    omega (arith, x.step, y.step, x.above, y.above, x.not_low, y.not_low, x.not_high, y.not_high)

flow-Answers :
    (codec : DeviceCodec) (context : CommandContext) (s : DeviceState) (value : ℕ)
    → IsG30 codec
    → value ≢ 0
    → value ≤ 100
    → Answers (ShowsFlow codec context s value) (flow_confirms codec context value s)
unfolding flow_confirms
flow-Answers (f072_codec f) context s value g nz le =
    let (flow, q, near, _) = flow_for_percentage_nearest f context value g (omega arith) le in
    elim (number-Answers s.airflow_m3h flow) [
      | inl (t, a) ↦ inl (ground (arith, q, t), (flow, near, a))
      | inr (t, a) ↦ inr (
        ground (arith, q, t),
        λ (other, step, shown). a (
            shown
            ∙ ap some (
                nearest_unique (flow_maximum f context) value other flow
                  (flow_maximum_cases f context) step near)),
      )
    ]
flow-Answers m25_codec context s value g nz le = absurd g
flow-Answers a5a0_codec context s value g nz le = absurd g

percentage-Answers :
    (c : Client) (s : DeviceState) (value : ℕ)
    → (value ≡ 0) ⊎ ((value ≤ 100) × IsG30 c.codec)
    → Answers
        (((value ≡ 0) × (s.power ≡ some off))
          ⊎ ((value ≢ 0) × ShowsFlow c.codec (preview_context c) s value))
        (confirms c s percentage_op value)
unfolding confirms
percentage-Answers c s value k = elim (ℕ_discrete value 0) [
  | yes z ↦ ground arith
  | no n ↦ elim k [
    | inl z ↦ absurd (n z)
    | inr (le, g) ↦ ground (arith, flow-Answers c.codec (preview_context c) s value g n le)
  ]
]

operation-Answers :
    (c : Client) (s : DeviceState) (op : CommandOperation) (value : ℕ)
    → IsConfirmable c.codec op value
    → Answers
        (Reports c.codec (preview_context c) s op value ⊎ IsUnreported s op)
        (confirms c s op value)
unfolding confirms
operation-Answers c s mode_op value k = reported _ (mode-Answers s.mode value)
operation-Answers c s speed_op value k = reported _ (number-Answers s.speed value)
operation-Answers c s ptc_op value k = ptc-Answers s.ptc value
operation-Answers c s timer_op value k = reported _ (number-Answers s.timer_hours value)
operation-Answers c s child_lock_op value (b, e) =
    let family = codec_family c.codec in
    reported _ (
      setting-Answers (lock_byte family) s.child_lock value b _ (lock_byte_injective family) e
        (lock-Answers family s.child_lock value b e))
operation-Answers c s display_op value (b, e) = reported _ (
    setting-Answers display_byte s.display_on value b _ display_byte_injective e
      (display-Answers s.display_on value b e))
operation-Answers c s filter_op value k = inl (refl, inr tt)
operation-Answers c s power_op value (b, e) =
    let family = codec_family c.codec in
    reported _ (
      setting-Answers (power_byte family) s.power value b _ (power_byte_injective family) e
        (power-Answers family s.power value b e))
operation-Answers c s airflow_op value k = reported _ (number-Answers s.airflow_m3h value)
operation-Answers c s percentage_op value k = reported _ (percentage-Answers c s value k)
operation-Answers c s backlight_op value k = reported _ (number-Answers s.backlight value)

-- Of a power, lock or display command with a documented value, of the percentage 0, of one of at most
-- 100 with the codec of a G30 or G45, and of any other command but a percentage, the confirmation
-- raises nothing. It answers True exactly if the state's field reports the setting that the command
-- asks for, or if no state can report it: always of a filter command, and of a PTC command if
-- the state has no PTC setting. Of a command that a state reports it answers False otherwise.
pub state_confirms_command_exact :
    (c : Client) (s : DeviceState) (command : Command)
    → IsConfirmable c.codec command.operation command.value
    → Answers
        (Reports c.codec (preview_context c) s command.operation command.value
          ⊎ IsUnreported s command.operation)
        (state_confirms_command c s command)
unfolding state_confirms_command
state_confirms_command_exact c s command k = operation-Answers c s command.operation command.value k
