-- ===== src/Witnesses/Frames.antt =====
-- The envelope and the checksum at concrete inputs.
use ha_352air_legacy_local.Base.{◌≡◌, ◌↔◌, ◌≢◌, refl, none, [], ◌∷◌, ok, arith}
use ha_352air_legacy_local.Base.Bytes.{Bytes}
use ha_352air_legacy_local.Models.{make_identity}
use ha_352air_legacy_local.Outer.{
  OuterFrame, Parsed, rejected, frame, outer_identity, parse_outer_frame,
}
use ha_352air_legacy_local.Outer.Totality.{envelope, IsFrame, built}
use ha_352air_legacy_local.Outer.RoundTrip.{parse_outer_frame_exact, parse_outer_frame_total}
use ha_352air_legacy_local.Witnesses.{x83_identity, x83_context}

abbrev probe : OuterFrame
probe = built x83_context (0x23 ∷ []) none none

probe-IsFrame : IsFrame probe
probe-IsFrame = omega arith

probe_datagram : Bytes
probe_datagram = envelope probe

parse_outer_frame_exact_example :
    (parse_outer_frame (envelope probe) ≡ ok (frame probe))
    ↔ (IsFrame probe × (envelope probe ≡ envelope probe))
parse_outer_frame_exact_example = parse_outer_frame_exact (envelope probe) probe (omega arith)

-- A datagram cut short.
parse_outer_frame_total_example :
    (p : Parsed) × (parse_outer_frame (0xA1 ∷ 4 ∷ []) ≡ ok p) × (p ≢ rejected outer_identity)
parse_outer_frame_total_example = parse_outer_frame_total (0xA1 ∷ 4 ∷ []) (omega arith)

x83_made : make_identity x83_identity.mac 0xF1 2 0xCB76 ≡ ok x83_identity
unfolding make_identity
x83_made = refl
