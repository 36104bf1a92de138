-- ===== src/F072/Single.antt =====
-- The commands of one value: a code for the operation, and a value of its table.
use ha_352air_legacy_local.Base.{
  ℕ, ◌<◌, ◌≡◌, refl, inl, inr, true, false, some, List, one_of, ok, arith, Bool-cases, Option-cases,
}
use ha_352air_legacy_local.Models.{
  Command, CommandContext, IsContext, CommandOperation, mode_op, speed_op, ptc_op, timer_op,
  child_lock_op, display_op, power_op,
}
use ha_352air_legacy_local.Outer.Totality.{envelope}
use ha_352air_legacy_local.F072.{F072Codec, encode_single_value, command_code, valid_values}
use ha_352air_legacy_local.F072.Encoding.{Body, value_body}
use ha_352air_legacy_local.F072.Sending.{Verdict, sent, value_sent, value_body-IsBody}

abbrev Documented : F072Codec → CommandOperation → ℕ → ℕ → List ℕ → Type 0
Documented c op v code values =
    (command_code c op ≡ some code)
    × (valid_values c.family op ≡ some values)
    × (one_of v values ≡ true)

Documented-lt :
    (c : F072Codec) (op : CommandOperation) (v code : ℕ) (values : List ℕ)
    → Documented c op v code values
    → (code < 256) × (v < 256)
Documented-lt c op v code values d = ground arith

has_values :
    (c : F072Codec) (op : CommandOperation) (code : ℕ)
    → command_code c op ≡ some code
    → (values : List ℕ) × (valid_values c.family op ≡ some values)
has_values c mode_op code e = (_, refl)
has_values c speed_op code e = (_, refl)
has_values c ptc_op code e = (_, refl)
has_values c timer_op code e = (_, refl)
has_values c child_lock_op code e = (_, refl)
has_values c display_op code e = (_, refl)
has_values c power_op code e = (_, refl)
has_values c op code e = ground arith

abbrev pub Single : F072Codec → Command → Body → Type 0
Single c command b =
    (code : ℕ) × (values : List ℕ) × (command_code c command.operation ≡ some code)
    × (valid_values c.family command.operation ≡ some values)
    × (one_of command.value values ≡ true)
    × (b ≡ value_body code command.value)

single_sent :
    (c : F072Codec) (context : CommandContext) (command : Command) (code : ℕ) (values : List ℕ)
    → IsContext context
    → Documented c command.operation command.value code values
    → encode_single_value c context command
      ≡ ok (envelope (sent c context (value_body code command.value)))
unfolding encode_single_value
single_sent c context command code values w d =
    let (p, q) = Documented-lt c command.operation command.value code values d in
    rw (d.0, d.1, d.2) (value_sent c context code command.value w p q)

Single-known :
    (c : F072Codec) (context : CommandContext) (command : Command) (code : ℕ) (values : List ℕ)
    → IsContext context
    → command_code c command.operation ≡ some code
    → valid_values c.family command.operation ≡ some values
    → Verdict c context (Single c command) (encode_single_value c context command)
unfolding encode_single_value
Single-known c context command code values w e f = elim (Bool-cases (one_of command.value values)) [
  | inl t ↦
      let (p, q) = Documented-lt c command.operation command.value code values (e, f, t) in
      inl (
        value_body code command.value,
        (code, values, e, f, t, refl),
        value_body-IsBody code command.value p q,
        single_sent c context command code values w (e, f, t),
      )
  | inr t ↦ inr (λ x. outside x.1.1 x.1.3 x.1.4 t, rw (e, f, t))
]
  where
    outside :
        (others : List ℕ)
        → valid_values c.family command.operation ≡ some others
        → one_of command.value others ≡ true
        → one_of command.value values ≡ false
        → ⊥
    outside others g u t = cc

pub Single-Verdict :
    (c : F072Codec) (context : CommandContext) (command : Command)
    → IsContext context
    → Verdict c context (Single c command) (encode_single_value c context command)
unfolding encode_single_value
Single-Verdict c context command w = elim (Option-cases (command_code c command.operation)) [
  | inl e ↦ inr (λ x. cc (x.1.2), rw e)
  | inr (code, e) ↦
      let (values, f) = has_values c command.operation code e in
      Single-known c context command code values w e f
]
