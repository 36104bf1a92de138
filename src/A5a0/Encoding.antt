-- ===== src/A5a0/Encoding.antt =====
-- What the A5A0 encoders accept and write, and that `decode` reads a command back as its echo.
use ha_352air_legacy_local.Base.{
  ℕ, ◌+◌, ◌%◌, ◌<◌, ◌≤◌, ◌≡◌, refl, ◌≢◌, ◌⊎◌, inl, inr, Bool, true, false, Option, none, some, [],
  ◌∷◌, one_of, ok, err, invalid_command, arith, ℕ_discrete, ==-self, ◌∙◌,
}
use ha_352air_legacy_local.Base.Bytes.{Bytes, at, bytes_of-ok, sum, bytes_eq}
use ha_352air_legacy_local.Models.{Command, CommandContext, IsContext, CommandOperation, PacketKind}
use ha_352air_legacy_local.Models.State.{insert, Endpoint, DecodedPacket}
use ha_352air_legacy_local.Outer.{outer_metadata}
use ha_352air_legacy_local.Outer.Totality.{
  envelope, IsFrame, sent-IsFrame, built, build_outer_frame-envelope,
}
use ha_352air_legacy_local.A5a0.{command_code, valid_values, encode_query, encode_command}
use ha_352air_legacy_local.A5a0.Decode.{decode, decode_payload, decode_ack, packet_of}
use ha_352air_legacy_local.A5a0.Reading.{decode_framed}

-- The commands of the family: an operation with a code, and a value from its table.
pub record IsAccepted (command : Command) (code : ℕ) : Type 0 where
  pub has_code : command_code command.operation ≡ some code
  pub has_value : one_of command.value (valid_values command.operation) ≡ true

-- The seven routed bytes of a command.
abbrev pub command_payload : Command → ℕ → Bytes
command_payload command code =
    0x01
    ∷ 0xA5
    ∷ 0xA0
    ∷ code
    ∷ command.value
    ∷ 0
    ∷ (0xA5 + (0xA0 + (code + (command.value + (0 + 0))))) % 256
    ∷ []

abbrev pub query_payload : Bytes
query_payload = 0x01 ∷ 0xA5 ∷ 0xA0 ∷ 0x11 ∷ 0x11 ∷ 0x00 ∷ 0x00 ∷ []

command_code-lt : (op : CommandOperation) (code : ℕ) → command_code op ≡ some code → code < 256
command_code-lt op code e = ground arith

valid_values-lt : (op : CommandOperation) (v : ℕ) → one_of v (valid_values op) ≡ true → v < 256
valid_values-lt op v e = ground arith

accepted-IsFrame :
    (context : CommandContext) (command : Command) (code : ℕ)
    → IsContext context
    → IsAccepted command code
    → IsFrame (built context (command_payload command code) none none)
accepted-IsFrame context command code v a =
    sent-IsFrame context (command_payload command code) v
      (omega (
        arith,
        command_code-lt command.operation code a.has_code,
        valid_values-lt command.operation command.value a.has_value,
      ))
      (omega arith)

encode_command-envelope :
    (context : CommandContext) (command : Command) (code : ℕ)
    → IsContext context
    → context.identity.wire_type ≡ 2
    → IsAccepted command code
    → encode_command context command
      ≡ ok (envelope (built context (command_payload command code) none none))
unfolding encode_command sum
encode_command-envelope context command code v w a = ground (
  arith,
  command_code-lt command.operation code a.has_code,
  valid_values-lt command.operation command.value a.has_value,
  bytes_of-ok (0xA5 ∷ 0xA0 ∷ code ∷ command.value ∷ 0 ∷ []) (
      omega (
        arith,
        command_code-lt command.operation code a.has_code,
        valid_values-lt command.operation command.value a.has_value,
      )),
  bytes_of-ok (0x01 ∷ []) (omega arith),
  bytes_of-ok ((0xA5 + (0xA0 + (code + (command.value + (0 + 0))))) % 256 ∷ []) (omega arith),
  build_outer_frame-envelope context (command_payload command code) none none
      (accepted-IsFrame context command code v a),
)

abbrev pub Sends : CommandContext → Command → Type 0
Sends context command =
    (code : ℕ) × (context.identity.wire_type ≡ 2)
    × IsAccepted command code
    × (encode_command context command
        ≡ ok (envelope (built context (command_payload command code) none none)))

-- Not the family's wire type, no code for the operation, or a value outside its table.
abbrev pub Refuses : CommandContext → Command → Type 0
Refuses context command =
    (context.identity.wire_type ≢ 2)
    ⊎ ((command_code command.operation ≡ none)
        ⊎ (one_of command.value (valid_values command.operation) ≡ false))

Sends-with :
    (context : CommandContext) (command : Command)
    → IsContext context
    → (o : Option ℕ) → command_code command.operation ≡ o
    → (b : Bool) → one_of command.value (valid_values command.operation) ≡ b
    → Sends context command
      ⊎ (Refuses context command × (encode_command context command ≡ err invalid_command))
unfolding encode_command
Sends-with context command v none e b eb = inr (inr (inl e), ground arith)
Sends-with context command v (some code) e false eb = inr (inr (inr eb), ground arith)
Sends-with context command v (some code) e true eb =
    elim (ℕ_discrete context.identity.wire_type 2) [
      | yes w ↦ inl (code, w, a, encode_command-envelope context command code v w a)
      | no w ↦ inr (inl w, ground arith)
    ]
  where
    a : IsAccepted command code
    a = record { has_code = e; has_value = eb }

-- In a valid context a command is either sent, as the seven routed bytes with the additive checksum
-- in the outer envelope, or refused with InvalidCommandError; it is refused exactly for another wire
-- type, an operation without a code or a value outside the operation's table.
pub encode_command_cases :
    (context : CommandContext) (command : Command)
    → IsContext context
    → Sends context command
      ⊎ (Refuses context command × (encode_command context command ≡ err invalid_command))
encode_command_cases context command v = Sends-with context command v _ refl _ refl

abbrev pub echo : CommandContext → Command → ℕ → Endpoint → DecodedPacket
echo context command code source =
    let f = built context (command_payload command code) none none in
    packet_of f PacketKind.ack none source
      (insert "value" command.value (insert "command" code (outer_metadata f)))

echo_at :
    (context : CommandContext) (command : Command) (code : ℕ) (source : Endpoint)
    → IsContext context
    → context.identity.wire_type ≡ 2
    → IsAccepted command code
    → source.port ≤ 0xFFFF
    → decode (envelope (built context (command_payload command code) none none)) source
      ≡ ok (some (echo context command code source))
unfolding decode_payload decode_ack at bytes_eq sum
echo_at context command code source v w a p =
    let f = built context (command_payload command code) none none in
    decode_framed f source (accepted-IsFrame context command code v a) p w
    ∙ rw (==-self ((0xA5 + (0xA0 + (code + (command.value + (0 + 0))))) % 256))

-- A command that the encoder sends is decoded, from any peer with a valid port, as an
-- acknowledgement that carries the command's code and value and no state.
pub decode-encode_command :
    (context : CommandContext) (command : Command) (source : Endpoint) {datagram : Bytes}
    → IsContext context
    → source.port ≤ 0xFFFF
    → encode_command context command ≡ ok datagram
    → (code : ℕ) × IsAccepted command code
      × (decode datagram source ≡ ok (some (echo context command code source)))
decode-encode_command context command source {datagram} v p e =
    decoded (encode_command_cases context command v)
  where
    decoded :
        Sends context command
          ⊎ (Refuses context command × (encode_command context command ≡ err invalid_command))
        → (code : ℕ) × IsAccepted command code
          × (decode datagram source ≡ ok (some (echo context command code source)))
    decoded (inl (code, w, a, sent)) =
        let same : datagram ≡ envelope (built context (command_payload command code) none none) =
          cc in
        (code, a, rw same (echo_at context command code source v w a p))
    decoded (inr (_, refused)) = absurd (cc)

-- A query is sent exactly for wire type 2, and `decode` does not take the client's own query for a reply.
pub encode_query_cases :
    (context : CommandContext) (source : Endpoint)
    → IsContext context
    → source.port ≤ 0xFFFF
    → ((context.identity.wire_type ≢ 2) × (encode_query context ≡ err invalid_command))
      ⊎ ((context.identity.wire_type ≡ 2)
          × (datagram : Bytes) × (encode_query context ≡ ok datagram)
          × (decode datagram source ≡ ok none))
unfolding encode_query decode_payload decode_ack at bytes_eq sum
encode_query_cases context source v p =
    let f = built context query_payload none none in
    let ready = sent-IsFrame context query_payload v (omega arith) (omega arith) in
    elim (ℕ_discrete context.identity.wire_type 2) [
      | yes w ↦ inr (
        w,
        envelope f,
        ground (arith, build_outer_frame-envelope context query_payload none none ready),
        decode_framed f source ready p w,
      )
      | no w ↦ inl (w, ground arith)
    ]
