-- ===== src/M25/Encoding.antt =====
-- What the M25 encoders accept and write, and that no datagram of theirs is taken for a reply.
use ha_352air_legacy_local.Base.{
  ℕ, ◌≤◌, ◌≡◌, refl, ◌∙◌, ◌⊎◌, inl, inr, none, [], ◌∷◌, ◌==◌, if◌then◌else◌, ok, err,
  invalid_command, arith,
}
use ha_352air_legacy_local.Base.Bytes.{Bytes, IsBytes, at, bytes_of-ok}
use ha_352air_legacy_local.Models.{Command, CommandContext, IsContext, backlight_op}
use ha_352air_legacy_local.Models.State.{Endpoint}
use ha_352air_legacy_local.Outer.{OuterFrame}
use ha_352air_legacy_local.Outer.Totality.{
  envelope, IsFrame, sent-IsFrame, built, build_outer_frame-envelope,
}
use ha_352air_legacy_local.M25.{
  encode_query, encode_backlight_query, encode_command, decode, decode_payload,
}
use ha_352air_legacy_local.M25.Reading.{decode_framed}

abbrev pub query_payload : Bytes
query_payload = 0x03 ∷ 0xFA ∷ 0xA0 ∷ 0x11 ∷ 0x11 ∷ 0x00 ∷ 0x00 ∷ []

abbrev pub backlight_query_payload : Bytes
backlight_query_payload = 0x03 ∷ 0xFA ∷ 0xA4 ∷ 0x02 ∷ 0x01 ∷ 0xA1 ∷ []

-- Five minutes (0) or always on (1), with the checksum of the value.
abbrev pub command_payload : ℕ → Bytes
command_payload value =
    0x03 ∷ 0xFA ∷ 0xA3 ∷ 0x03 ∷ 0x01 ∷ value ∷ (if value == 0 then 0xA1 else 0xA2) ∷ []

abbrev pub IsBacklight : Command → Type 0
IsBacklight command = (command.operation ≡ backlight_op) × (command.value ≤ 1)

command_payload-IsBytes : (value : ℕ) → value ≤ 1 → IsBytes (command_payload value)
command_payload-IsBytes value q = ground arith

command_sent :
    (context : CommandContext) (command : Command)
    → IsContext context
    → context.identity.wire_type ≡ 1
    → IsBacklight command
    → encode_command context command
      ≡ ok (envelope (built context (command_payload command.value) none none))
unfolding encode_command
command_sent context command v w k =
    let bytes = command_payload-IsBytes command.value k.1 in
    ground (
      arith,
      bytes_of-ok (command_payload command.value) bytes,
      build_outer_frame-envelope context (command_payload command.value) none none
          (sent-IsFrame context (command_payload command.value) v bytes (omega arith)),
    )

-- In a valid context a command is sent exactly if the wire type is 1 and it sets the backlight to 0
-- or 1: as the seven routed bytes in the outer envelope. Any other raises InvalidCommandError.
pub encode_m25_command :
    (context : CommandContext) (command : Command)
    → IsContext context
    → ((context.identity.wire_type ≡ 1)
        × IsBacklight command
        × (encode_command context command
            ≡ ok (envelope (built context (command_payload command.value) none none))))
      ⊎ ((¬ ((context.identity.wire_type ≡ 1) × IsBacklight command))
          × (encode_command context command ≡ err invalid_command))
unfolding encode_command
encode_m25_command context command v = elim (accepts context command) [
  | inl (w, k) ↦ inl (w, k, command_sent context command v w k)
  | inr (n, e) ↦ inr (n, e)
]
  where
    accepts :
        (context : CommandContext) (command : Command)
        → ((context.identity.wire_type ≡ 1) × IsBacklight command)
          ⊎ ((¬ ((context.identity.wire_type ≡ 1) × IsBacklight command))
              × (encode_command context command ≡ err invalid_command))
    accepts context command = ground arith

-- A frame whose second routed byte is FA is no reply.
own_ignored :
    (f : OuterFrame) (route form : ℕ) (rest : Bytes) (source : Endpoint)
    → IsFrame f
    → source.port ≤ 0xFFFF
    → f.identity.wire_type ≡ 1
    → f.payload ≡ route ∷ 0xFA ∷ form ∷ rest
    → decode (envelope f) source ≡ ok none
unfolding decode_payload at
own_ignored f route form rest source v p w e = decode_framed f source v p w ∙ rw e (ground arith)

-- The queries and commands of a client in a valid context.
abbrev pub Encoded : CommandContext → Bytes → Type 0
Encoded context datagram =
    (encode_query context ≡ ok datagram)
    ⊎ ((encode_backlight_query context ≡ ok datagram)
        ⊎ ((command : Command) × (encode_command context command ≡ ok datagram)))

query_ignored :
    (context : CommandContext) (datagram : Bytes) (source : Endpoint)
    → IsContext context
    → source.port ≤ 0xFFFF
    → encode_query context ≡ ok datagram
    → decode datagram source ≡ ok none
unfolding encode_query
query_ignored context datagram source v p e =
    let f = built context query_payload none none in
    let ready = sent-IsFrame context query_payload v (omega arith) (omega arith) in
    let w : context.identity.wire_type ≡ 1 = ground arith in
    let same : datagram ≡ envelope f =
      ground (arith, build_outer_frame-envelope context query_payload none none ready) in
    rw same (own_ignored f 0x03 0xA0 (0x11 ∷ 0x11 ∷ 0x00 ∷ 0x00 ∷ []) source ready p w refl)

backlight_query_ignored :
    (context : CommandContext) (datagram : Bytes) (source : Endpoint)
    → IsContext context
    → source.port ≤ 0xFFFF
    → encode_backlight_query context ≡ ok datagram
    → decode datagram source ≡ ok none
unfolding encode_backlight_query
backlight_query_ignored context datagram source v p e =
    let f = built context backlight_query_payload none none in
    let ready = sent-IsFrame context backlight_query_payload v (omega arith) (omega arith) in
    let w : context.identity.wire_type ≡ 1 = ground arith in
    let same : datagram ≡ envelope f =
      ground (arith, build_outer_frame-envelope context backlight_query_payload none none ready) in
    rw same (own_ignored f 0x03 0xA4 (0x02 ∷ 0x01 ∷ 0xA1 ∷ []) source ready p w refl)

command_ignored :
    (context : CommandContext) (command : Command) (datagram : Bytes) (source : Endpoint)
    → IsContext context
    → source.port ≤ 0xFFFF
    → encode_command context command ≡ ok datagram
    → decode datagram source ≡ ok none
command_ignored context command datagram source v p e =
    elim (encode_m25_command context command v) [
      | inr (_, refused) ↦ absurd (cc)
      | inl (w, k, sent) ↦
          let f = built context (command_payload command.value) none none in
          let ready =
            sent-IsFrame context (command_payload command.value) v
              (command_payload-IsBytes command.value k.1) (omega arith) in
          let same : datagram ≡ envelope f = cc in
          rw same (
            own_ignored f 0x03 0xA3
              (0x03 ∷ 0x01 ∷ command.value ∷ (if command.value == 0 then 0xA1 else 0xA2) ∷ [])
              source ready p w refl)
    ]

-- No query or command that the detector's codec encodes in a valid context is decoded as a reply.
pub decode_m25_own :
    (context : CommandContext) (datagram : Bytes) (source : Endpoint)
    → IsContext context
    → source.port ≤ 0xFFFF
    → Encoded context datagram
    → decode datagram source ≡ ok none
decode_m25_own context datagram source v p (inl e) = query_ignored context datagram source v p e
decode_m25_own context datagram source v p (inr (inl e)) =
    backlight_query_ignored context datagram source v p e
decode_m25_own context datagram source v p (inr (inr (command, e))) =
    command_ignored context command datagram source v p e
