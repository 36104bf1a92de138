-- ===== src/Witnesses/Detector.antt =====
-- The codec of the M25 at concrete inputs.
use ha_352air_legacy_local.Base.{◌≡◌, ◌⊎◌, refl, none, [], ◌∷◌, ok, arith}
use ha_352air_legacy_local.Base.Bytes.{bytes_of, to_bytes_2}
use ha_352air_legacy_local.Models.{CommandContext, IsContext, Command, backlight_op}
use ha_352air_legacy_local.Outer.{build_outer_frame}
use ha_352air_legacy_local.Outer.Totality.{envelope, built}
use ha_352air_legacy_local.M25
use ha_352air_legacy_local.M25.Reading.{Accepted, decode_m25_outcome}
use ha_352air_legacy_local.M25.Encoding.{command_payload}
use ha_352air_legacy_local.Witnesses.{x83_identity, x83_context, device}

abbrev pub m25_context : CommandContext
m25_context = record x83_context { identity = record x83_identity { wire_type = 1 } }

m25_context-IsContext : IsContext m25_context
m25_context-IsContext = omega arith

abbrev pub always_on : Command
always_on = record { operation = backlight_op; value = 1 }

always_on_datagram :
    M25.encode_command m25_context always_on
    ≡ ok (envelope (built m25_context (command_payload 1) none none))
unfolding M25.encode_command build_outer_frame bytes_of to_bytes_2
always_on_datagram = refl

decode_m25_outcome_example :
    (M25.decode (0xA1 ∷ 4 ∷ []) device ≡ ok none) ⊎ Accepted (0xA1 ∷ 4 ∷ []) device
decode_m25_outcome_example = decode_m25_outcome (0xA1 ∷ 4 ∷ []) device (omega arith)
