-- ===== src/Outer/Totality.antt =====
-- The envelope on every input: building succeeds on valid arguments, parsing always returns.
use ha_352air_legacy_local.Base.{
  ℕ, ◌+◌, ◌/◌, ◌%◌, ◌≤◌, ◌≡◌, Option, none, [], ◌∷◌, ◌++◌, length, ok, arith,
}
use ha_352air_legacy_local.Base.Bytes.{Bytes, IsBytes, IsByte, IsU16, bytes_of-ok, to_bytes_2-ok}
use ha_352air_legacy_local.Models.{HeaderIdentity, IsIdentity, CommandContext, IsContext}
use ha_352air_legacy_local.Outer.{OuterFrame, outer_marker, build_outer_frame, or_default}

-- The layout of a datagram: marker, operation, MAC, length, reserved byte, sequence, company, wire
-- type, auth, payload.
abbrev pub envelope : OuterFrame → Bytes
envelope f =
    outer_marker
    ∷ f.operation
    ∷ (f.identity.mac
        ++ ((length f.payload + 7)
            ∷ 0
            ∷ f.sequence / 256
            ∷ f.sequence % 256
            ∷ f.identity.company
            ∷ f.identity.wire_type
            ∷ f.identity.auth / 256
            ∷ f.identity.auth % 256
            ∷ f.payload))

pub record IsFrame (f : OuterFrame) : Type 0 where
  pub identity_valid : IsIdentity f.identity
  pub operation_byte : IsByte f.operation
  pub sequence_u16 : IsU16 f.sequence
  pub payload_bytes : IsBytes f.payload
  pub payload_short : length f.payload ≤ 248

abbrev pub built : CommandContext → Bytes → Option ℕ → Option HeaderIdentity → OuterFrame
built context payload operation identity = record {
  identity = or_default identity context.identity;
  operation = or_default operation context.outer_operation;
  sequence = context.outer_sequence;
  payload = payload;
}

-- On a frame of valid parts, with at most 248 payload bytes, building raises nothing and writes the
-- documented layout.
pub build_outer_frame-envelope :
    (context : CommandContext) (payload : Bytes) (operation : Option ℕ)
    (identity : Option HeaderIdentity)
    → IsFrame (built context payload operation identity)
    → build_outer_frame context payload operation identity
      ≡ ok (envelope (built context payload operation identity))
unfolding build_outer_frame
build_outer_frame-envelope context payload operation identity v =
    let header = or_default identity context.identity in
    let op = or_default operation context.outer_operation in
    ground (
      arith,
      bytes_of-ok (outer_marker ∷ op ∷ []) (omega arith),
      bytes_of-ok ((length payload + 7) ∷ 0 ∷ []) (omega arith),
      to_bytes_2-ok context.outer_sequence v.sequence_u16,
      bytes_of-ok (header.company ∷ header.wire_type ∷ []) (omega arith),
      to_bytes_2-ok header.auth (omega arith),
    )

-- The frames that the codecs send.
pub sent-IsFrame :
    (context : CommandContext) (payload : Bytes)
    → IsContext context
    → IsBytes payload
    → length payload ≤ 248
    → IsFrame (built context payload none none)
sent-IsFrame context payload v b l = record {
  identity_valid = v.identity_valid;
  operation_byte = v.operation_byte;
  sequence_u16 = v.outer_u16;
  payload_bytes = b;
  payload_short = l;
}
