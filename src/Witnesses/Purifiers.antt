-- ===== src/Witnesses/Purifiers.antt =====
-- The purifier codecs at concrete inputs.
use ha_352air_legacy_local.Base.{◌≡◌, ◌⊎◌, inr, refl, none, some, [], ◌∷◌, ◌++◌, ok, arith, ℕ}
use ha_352air_legacy_local.Base.Bytes.{
  Bytes, int_from_bytes, bytes_of, to_bytes_2, at, bytes_eq, sum,
}
use ha_352air_legacy_local.Models.{PacketKind, make_identity, Command, power_op, airflow_op}
use ha_352air_legacy_local.Models.State.{DecodedPacket, insert}
use ha_352air_legacy_local.Outer.{
  OuterFrame, build_outer_frame, parse_outer_frame, valid_source, outer_metadata,
}
use ha_352air_legacy_local.Outer.Totality.{envelope, built}
use ha_352air_legacy_local.Crc.{crc16_genibus, f072_response_crc_is_valid}
use ha_352air_legacy_local.A5a0
use ha_352air_legacy_local.A5a0.Reading.{decode_a5a0_outcome, Accepted}
use ha_352air_legacy_local.A5a0.Encoding.{IsAccepted, echo, decode-encode_command, command_payload}
use ha_352air_legacy_local.F072
use ha_352air_legacy_local.F072.Airflow.{flow_for_percentage_nearest, IsNearestStep}
use ha_352air_legacy_local.F072.Encoding.{Body}
use ha_352air_legacy_local.F072.Sending.{Encodes, Verdict}
use ha_352air_legacy_local.F072.Commands.{encode_command-Verdict}
use ha_352air_legacy_local.F072.Trust.{
  decode_f072_outcome, decode_f072_own, decode_detects, response,
}
use ha_352air_legacy_local.Witnesses.{
  x83_context, x83_context-IsContext, g45_codec, g45_context, g45_context-IsContext, device,
}

abbrev pub power_on : Command
power_on = record { operation = power_op; value = 0x35 }

pub power_on_datagram :
    A5a0.encode_command x83_context power_on
    ≡ ok (envelope (built x83_context (command_payload power_on 0x5E) none none))
unfolding A5a0.encode_command build_outer_frame bytes_of to_bytes_2 sum
power_on_datagram = refl

decode-encode_command_example :
    (code : ℕ) × IsAccepted power_on code
    × (A5a0.Decode.decode
          (envelope (built x83_context (command_payload power_on 0x5E) none none))
          device
        ≡ ok (some (echo x83_context power_on code device)))
decode-encode_command_example =
    decode-encode_command x83_context power_on device x83_context-IsContext (omega arith)
      power_on_datagram

decode_a5a0_outcome_example :
    (A5a0.Decode.decode (0xA1 ∷ 4 ∷ []) device ≡ ok none) ⊎ Accepted (0xA1 ∷ 4 ∷ []) device
decode_a5a0_outcome_example = decode_a5a0_outcome (0xA1 ∷ 4 ∷ []) device (omega arith)

flow_for_percentage_nearest_example :
    (flow : ℕ) × (F072.flow_for_percentage g45_codec 50 g45_context ≡ ok flow)
    × IsNearestStep (F072.flow_maximum g45_codec g45_context) 50 flow
    × (F072.validate_flow g45_codec flow g45_context ≡ ok tt)
flow_for_percentage_nearest_example =
    flow_for_percentage_nearest g45_codec g45_context 50 refl (omega arith) (omega arith)

flow_50 : F072.flow_for_percentage g45_codec 50 g45_context ≡ ok 245
unfolding F072.flow_for_percentage
flow_50 = refl

flow_60 : F072.flow_for_percentage g45_codec 60 g45_context ≡ ok 285
unfolding F072.flow_for_percentage
flow_60 = refl

abbrev airflow_245 : Command
airflow_245 = record { operation = airflow_op; value = 245 }

encode_command-Verdict_example :
    Verdict g45_codec g45_context
      (λ b. (4 ≡ F072.wire_type g45_codec) × Encodes g45_codec g45_context 245 airflow_op b)
      (F072.encode_command g45_codec g45_context airflow_245)
encode_command-Verdict_example =
    encode_command-Verdict g45_codec g45_context airflow_245 (inr refl) g45_context-IsContext

-- An acknowledgement of the power command 5E with the value `v`, on route 2.
abbrev ack_front : Bytes
ack_front = 0x00 ∷ 0x0B ∷ 0x04 ∷ 0x84 ∷ 0x02 ∷ 0x03 ∷ 0x5E ∷ []

abbrev g45_frame : OuterFrame
g45_frame = built g45_context [] none none

abbrev ack_frame : ℕ → OuterFrame
ack_frame v = response g45_frame 2 (ack_front ++ v ∷ 0x00 ∷ []) 0xB8 0xF5

abbrev ack_packet : DecodedPacket
ack_packet = F072.Decode.packet_of g45_codec (ack_frame 0) PacketKind.ack none device (
    ("outer_operation", 4)
    ∷ ("payload_length", 14)
    ∷ ("route", 2)
    ∷ ("response_inner_length", 13)
    ∷ ("data_length", 4)
    ∷ ("response_marker", 0x84)
    ∷ ("command", 0x5E)
    ∷ ("value", 0)
    ∷ [])

ack_accepted : F072.Decode.decode g45_codec (envelope (ack_frame 0)) device ≡ ok (some ack_packet)
unfolding F072.Decode.decode F072.Decode.decode_payload F072.Decode.decode_frame
    F072.Decode.decode_data F072.Decode.decode_ack parse_outer_frame make_identity valid_source
    outer_metadata at bytes_eq int_from_bytes f072_response_crc_is_valid crc16_genibus insert
ack_accepted = refl

decode_detects_example : F072.Decode.decode g45_codec (envelope (ack_frame 0x11)) device ≡ ok none
decode_detects_example =
    decode_detects g45_codec g45_frame 2 ack_front (0x00 ∷ []) 0 0x11 0xB8 0xF5 device (omega arith)
      (omega arith) (omega arith) refl (omega arith) (omega arith) (omega arith) (omega arith)
      (omega arith) ack_accepted

decode_f072_outcome_example :
    (F072.Decode.decode g45_codec (envelope (ack_frame 0)) device ≡ ok none)
    ⊎ F072.Trust.Accepted g45_codec (envelope (ack_frame 0)) device
decode_f072_outcome_example =
    decode_f072_outcome g45_codec (envelope (ack_frame 0)) device (omega arith)

abbrev query_body : Body
query_body = record { b0 = 0x03; b1 = 0x11; b2 = 0x11; b3 = 0x00 }
