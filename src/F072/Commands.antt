-- ===== src/F072/Commands.antt =====
-- `F072Codec.encode_command` and `encode_query` as a whole.
use ha_352air_legacy_local.Base.{ℕ, ◌≡◌, inl, inr, arith, ℕ_discrete}
use ha_352air_legacy_local.Models.{
  Command, CommandContext, IsContext, CommandOperation, airflow_op, percentage_op,
}
use ha_352air_legacy_local.F072.{F072Codec, wire_type, encode_command, encode_operation}
use ha_352air_legacy_local.F072.Sending.{
  IsCodec, Encodes, Verdict, airflow-Verdict, percentage-Verdict,
}
use ha_352air_legacy_local.F072.Single.{Single-Verdict}

operation-Verdict :
    (c : F072Codec) (context : CommandContext) (op : CommandOperation) (v : ℕ)
    → IsCodec c
    → IsContext context
    → Verdict c context
        (Encodes c context v op)
        (encode_operation c context (record { operation = op; value = v }) op)
unfolding encode_operation
operation-Verdict c context percentage_op v k w = percentage-Verdict c context v k w
operation-Verdict c context airflow_op v k w = airflow-Verdict c context v k w
operation-Verdict c context op v k w =
    Single-Verdict c context (record { operation = op; value = v }) w

-- In a valid context a codec of either family sends a command exactly if the identity has its wire
-- type and the command has a documented body (a G30/G45 percentage of at most 100, a G30/G45 airflow
-- step in the model's range, or an operation of the family with a value of its table); it sends that
-- body in a checksummed frame on route 1. Otherwise it raises InvalidCommandError, and nothing else.
pub encode_command-Verdict :
    (c : F072Codec) (context : CommandContext) (command : Command)
    → IsCodec c
    → IsContext context
    → Verdict c context
        (λ b.
          (context.identity.wire_type ≡ wire_type c)
          × Encodes c context command.value command.operation b)
        (encode_command c context command)
unfolding encode_command
encode_command-Verdict c context command k w =
    elim (ℕ_discrete context.identity.wire_type (wire_type c)) [
      | no n ↦ inr (λ x. n (x.1.0), ground arith)
      | yes y ↦ typed y (operation-Verdict c context command.operation command.value k w)
    ]
  where
    typed :
        (context.identity.wire_type ≡ wire_type c)
        → Verdict c context
            (Encodes c context command.value command.operation)
            (encode_operation c context command command.operation)
        → Verdict c context
            (λ b.
              (context.identity.wire_type ≡ wire_type c)
              × Encodes c context command.value command.operation b)
            (encode_command c context command)
    typed y (inl (b, d, v, e)) = inl (b, (y, d), v, ground arith)
    typed y (inr (n, e)) = inr (λ x. n (x.0, x.1.1), ground arith)
