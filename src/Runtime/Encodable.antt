-- ===== src/Runtime/Encodable.antt =====
-- Which requests a model's codec sends.
use ha_352air_legacy_local.Base.{
  ℕ, ◌≤◌, ◌≡◌, refl, inl, inr, Bool, true, false, none, some, List, leb, one_of, ok, arith, ◌∙◌,
  Option-cases, ℕ_discrete,
}
use ha_352air_legacy_local.Base.Bytes.{Bytes}
use ha_352air_legacy_local.Models.{
  Command, CommandContext, IsContext, CommandOperation, percentage_op, airflow_op, backlight_op,
  ProtocolFamily, m25_family, a5a0, f072_x50, f072_g30, DeviceModel, family_for_model,
}
use ha_352air_legacy_local.Const.{model_wire_type, family_wire_type, model_wire_type-family}
use ha_352air_legacy_local.Codec.{codec_for_family, codec_for_model, encode_command}
use ha_352air_legacy_local.A5a0
use ha_352air_legacy_local.A5a0.Encoding.{encode_command_cases}
use ha_352air_legacy_local.M25
use ha_352air_legacy_local.M25.Encoding.{encode_m25_command}
use ha_352air_legacy_local.F072
use ha_352air_legacy_local.F072.{F072Codec}
use ha_352air_legacy_local.F072.Sending.{IsCodec, Encodes}
use ha_352air_legacy_local.F072.Encoding.{Body, value_body, flow_body}
use ha_352air_legacy_local.F072.Commands.{encode_command-Verdict}
use ha_352air_legacy_local.F072.Airflow.{flow_for_percentage_nearest}

-- The values that a family's codec has for an operation, but for the airflow of a single model.
abbrev f072_valid : ProtocolFamily → CommandOperation → ℕ → Bool
f072_valid family percentage_op v = elim family [ f072_g30 ↦ leb v 100 | _ ↦ false ]
f072_valid family airflow_op v = false
f072_valid family op v = elim (F072.command_code (record { family = family; model = none }) op) [
  | none ↦ false
  | some code ↦ elim (F072.valid_values family op) [ none ↦ false | some values ↦ one_of v values ]
]

abbrev pub valid_for : ProtocolFamily → CommandOperation → ℕ → Bool
valid_for m25_family backlight_op v = leb v 1
valid_for m25_family op v = false
valid_for a5a0 op v = one_of v (A5a0.valid_values op)
valid_for f072_x50 op v = f072_valid f072_x50 op v
valid_for f072_g30 op v = f072_valid f072_g30 op v

abbrev pub Sends : DeviceModel → CommandContext → Command → Type 0
Sends model context command =
    (datagram : Bytes) × (encode_command (codec_for_model model) context command ≡ ok datagram)

a5a0-Sends :
    (context : CommandContext) (command : Command)
    → IsContext context
    → context.identity.wire_type ≡ 2
    → one_of command.value (A5a0.valid_values command.operation) ≡ true
    → (datagram : Bytes) × (A5a0.encode_command context command ≡ ok datagram)
a5a0-Sends context command v w t = elim (encode_command_cases context command v) [
  | inl (code, _, _, e) ↦ (_, e)
  | inr (inl n, _) ↦ absurd (n w)
  | inr (inr (inl none'), _) ↦ absurd (no_code command.operation none' t)
  | inr (inr (inr f), _) ↦ absurd (cc (t, f))
]
  where
    no_code :
        (op : CommandOperation)
        → A5a0.command_code op ≡ none
        → one_of command.value (A5a0.valid_values op) ≡ true
        → ⊥
    no_code op n t = ground arith

m25-Sends :
    (context : CommandContext) (command : Command)
    → IsContext context
    → context.identity.wire_type ≡ 1
    → valid_for m25_family command.operation command.value ≡ true
    → (datagram : Bytes) × (M25.encode_command context command ≡ ok datagram)
m25-Sends context command v w t = elim (encode_m25_command context command v) [
  | inl (_, _, e) ↦ (_, e)
  | inr (n, _) ↦ absurd (n (w, backlight command.operation t))
]
  where
    backlight :
        (op : CommandOperation)
        → valid_for m25_family op command.value ≡ true
        → (op ≡ backlight_op) × (command.value ≤ 1)
    backlight op t = ground arith

single_values :
    (c : F072Codec) (op : CommandOperation) (v : ℕ)
    → (elim (F072.command_code c op) [
      | none ↦ false
      | some code ↦ elim (F072.valid_values c.family op) [
        | none ↦ false
        | some values ↦ one_of v values
      ]
    ])
      ≡ true
    → (code : ℕ) × (values : List ℕ) × (F072.command_code c op ≡ some code)
      × (F072.valid_values c.family op ≡ some values)
      × (one_of v values ≡ true)
single_values c op v t = elim (Option-cases (F072.command_code c op)) [
  | inl n ↦ absurd (ground (arith, n, t))
  | inr (code, e) ↦ elim (Option-cases (F072.valid_values c.family op)) [
    | inl n ↦ absurd (ground (arith, n, t))
    | inr (values, f) ↦ (code, values, e, f, ground (arith, e, f, t))
  ]
]

f072_body :
    (c : F072Codec) (context : CommandContext) (op : CommandOperation) (v : ℕ)
    → f072_valid c.family op v ≡ true
    → (b : Body) × Encodes c context v op b
f072_body c context percentage_op v t = elim (ℕ_discrete v 0) [
  | yes z ↦ (value_body 0x5E 0x11, (ground arith, inl (z, refl)))
  | no z ↦
      let g : c.family ≡ f072_g30 = ground arith in
      let small : v ≤ 100 = ground arith in
      let (flow, e, _, _) = flow_for_percentage_nearest c context v g (omega arith) small in
      (flow_body flow, (g, inr (omega arith, small, (flow, e, refl))))
]
f072_body c context airflow_op v t = absurd (ground arith)
f072_body c context op v t =
    let (code, values, e, f, g) = single_values c op v t in
    (value_body code v, (code, values, e, f, g, refl))

f072-Sends :
    (c : F072Codec) (context : CommandContext) (command : Command)
    → IsCodec c
    → IsContext context
    → context.identity.wire_type ≡ F072.wire_type c
    → f072_valid c.family command.operation command.value ≡ true
    → (datagram : Bytes) × (F072.encode_command c context command ≡ ok datagram)
f072-Sends c context command k w y t = elim (encode_command-Verdict c context command k w) [
  | inl (_, _, _, e) ↦ (_, e)
  | inr (n, _) ↦
      let (b, d) = f072_body c context command.operation command.value t in absurd (n (b, (y, d)))
]

family-Sends :
    (family : ProtocolFamily) (model : DeviceModel) (context : CommandContext) (command : Command)
    → IsContext context
    → context.identity.wire_type ≡ family_wire_type family
    → valid_for family command.operation command.value ≡ true
    → (datagram : Bytes) × (encode_command (codec_for_family family model) context command
        ≡ ok datagram)
unfolding codec_for_family encode_command
family-Sends m25_family model context command v w t = m25-Sends context command v w t
family-Sends a5a0 model context command v w t = a5a0-Sends context command v w t
family-Sends f072_x50 model context command v w t =
    f072-Sends (record { family = f072_x50; model = some model }) context command (inl refl) v w t
family-Sends f072_g30 model context command v w t =
    f072-Sends (record { family = f072_g30; model = some model }) context command (inr refl) v w t

-- The codec of a model sends every value that its family has, in a valid context of its wire type.
pub valid_for-Sends :
    (model : DeviceModel) (context : CommandContext) (command : Command)
    → IsContext context
    → context.identity.wire_type ≡ model_wire_type model
    → valid_for (family_for_model model) command.operation command.value ≡ true
    → Sends model context command
unfolding codec_for_model
valid_for-Sends model context command v w t =
    family-Sends (family_for_model model) model context command v (w ∙ model_wire_type-family model)
      t
