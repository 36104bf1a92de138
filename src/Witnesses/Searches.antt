-- ===== src/Witnesses/Searches.antt =====
-- Discovery of an X83 at 192.168.1.9.
use ha_352air_legacy_local.Base.{◌≡◌, refl, ◌⊎◌, none, some, [], ◌∷◌, ok, arith}
use ha_352air_legacy_local.Base.Bytes.{at, bytes_eq, int_from_bytes}
use ha_352air_legacy_local.Models.{PacketKind, make_identity, check_unsigned}
use ha_352air_legacy_local.Models.State.{DecodedPacket, empty_state, insert}
use ha_352air_legacy_local.Outer.{
  OuterFrame, frame, valid_source, outer_metadata, parse_outer_frame,
}
use ha_352air_legacy_local.Outer.Totality.{envelope}
use ha_352air_legacy_local.Outer.RoundTrip.{parse_outer_frame-envelope}
use ha_352air_legacy_local.M25
use ha_352air_legacy_local.Codec
use ha_352air_legacy_local.Codec.{m25_codec}
use ha_352air_legacy_local.Discovery.Passive.{decode_passive_status-decode}
use ha_352air_legacy_local.Schedule.{Device}
use ha_352air_legacy_local.Discovery.{
  decode_discovery_reply, decode_passive_status, found, decode_reply, reply_parsed, read_reply,
  address_text,
}
use ha_352air_legacy_local.Discovery.Replies.{decode_discovery_reply-Verdict, Replied, reply_of}
use ha_352air_legacy_local.Discovery.Search.{NetworkSearch, DirectedSearch, directed_received}
use ha_352air_legacy_local.Discovery.Found.{IsSearch}
use ha_352air_legacy_local.Discovery.Totality.{network_run, network_run-IsSearch}
use ha_352air_legacy_local.Discovery.Directed.{directed_run, directed_run-IsSought, IsSought}
use ha_352air_legacy_local.Witnesses.{x83_identity, device}

-- 23, 192.168.1.9 and the MAC.
abbrev reply : OuterFrame
reply = record {
  identity = x83_identity;
  operation = 6;
  sequence = 0x2A;
  payload = 0x23 ∷ 192 ∷ 168 ∷ 1 ∷ 9 ∷ x83_identity.mac;
}

decode_discovery_reply-Verdict_example :
    ((f : OuterFrame) × Replied (envelope reply) device f
      × (decode_discovery_reply (envelope reply) device ≡ ok (some (reply_of f device))))
    ⊎ ((¬ ((f : OuterFrame) × Replied (envelope reply) device f))
        × (decode_discovery_reply (envelope reply) device ≡ ok none))
decode_discovery_reply-Verdict_example =
    decode_discovery_reply-Verdict (envelope reply) device (omega arith)

abbrev network : NetworkSearch
network = record {
  sequences = 0x2A ∷ [];
  excluded_macs = [];
  expected_host = none;
  expected_mac = none;
  results = [];
  received = 0;
}

network_run-IsSearch_example :
    (t : NetworkSearch) × (network_run network ((envelope reply, device) ∷ []) ≡ ok t) × IsSearch t
network_run-IsSearch_example =
    network_run-IsSearch network ((envelope reply, device) ∷ [])
      (record { bounded = omega arith; standing = tt; distinct = tt }) (omega arith)

abbrev directed : DirectedSearch
directed = record {
  expected_host = device.host;
  expected_mac = x83_identity.mac;
  wire_types = 2 ∷ [];
  sequences = 0x2A ∷ [];
  received = 0;
  target_received = 0;
  result = none;
}

abbrev x83_found : Device
x83_found = found device.host x83_identity

directed_found :
    directed_run directed ((envelope reply, device) ∷ [])
    ≡ ok (record directed { received = 1; target_received = 1; result = some x83_found })
unfolding directed_run directed_received decode_reply decode_discovery_reply reply_parsed read_reply
    address_text valid_source parse_outer_frame make_identity check_unsigned at bytes_eq
    int_from_bytes
directed_found = refl

directed_run-IsSought_example : IsSought directed x83_found
directed_run-IsSought_example =
    directed_run-IsSought directed
      (record directed { received = 1; target_received = 1; result = some x83_found })
      ((envelope reply, device) ∷ []) x83_found (omega arith) refl directed_found refl

-- A report of an M25, with a PM2.5 of 42.
abbrev report : OuterFrame
report = record {
  identity = record x83_identity { wire_type = 1 };
  operation = 4;
  sequence = 7;
  payload = 0x04 ∷ 0xF5 ∷ 0xA1 ∷ 0 ∷ 42 ∷ 0 ∷ 0 ∷ 1 ∷ 0 ∷ 0 ∷ 0 ∷ 0 ∷ 0 ∷ 0 ∷ 0 ∷ 0 ∷ 0 ∷ [];
}

report_parsed : parse_outer_frame (envelope report) ≡ ok (frame report)
report_parsed = parse_outer_frame-envelope report (omega arith)

abbrev reported : DecodedPacket
reported =
    M25.packet_of report PacketKind.state
      (record empty_state {
        pm25 = some 42;
        linkage_raw = some 1;
        raw_values = ("m25_response_form", 0xA1) ∷ ("linkage_raw", 1) ∷ [];
      })
      device (insert "m25_response_form" 0xA1 (outer_metadata report))

report_decoded : Codec.decode m25_codec (envelope report) device ≡ ok (some reported)
unfolding Codec.decode M25.decode M25.decode_payload M25.decode_form M25.decode_sensors
    parse_outer_frame make_identity check_unsigned at valid_source bytes_eq int_from_bytes
report_decoded = refl

decode_passive_status-decode_example :
    decode_passive_status (envelope report) device device.host reported.identity.mac (1 ∷ [])
    ≡ ok (some (found device.host reported.identity))
decode_passive_status-decode_example =
    decode_passive_status-decode m25_codec (envelope report) device report reported (1 ∷ [])
      report_parsed report_decoded refl refl refl refl
