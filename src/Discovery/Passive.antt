-- ===== src/Discovery/Passive.antt =====
-- The states that the codecs decode against the passive decoder of discovery.py.
use ha_352air_legacy_local.Base.{ℕ, ◌≡◌, true, some, List, one_of, ok, arith}
use ha_352air_legacy_local.Base.Bytes.{Bytes, bytes_eq_self}
use ha_352air_legacy_local.Models.{PacketKind}
use ha_352air_legacy_local.Models.State.{Endpoint, DecodedPacket}
use ha_352air_legacy_local.Outer.{OuterFrame, frame, parse_outer_frame, valid_source}
use ha_352air_legacy_local.M25
use ha_352air_legacy_local.F072
use ha_352air_legacy_local.F072.{F072Codec}
use ha_352air_legacy_local.A5a0.Decode.{
  decode_payload as a5a0_payload, decode_state, decode_ack, read_state,
}
use ha_352air_legacy_local.A5a0.{
  state_response_prefix, state_payload_length, double_state_payload_length,
}
use ha_352air_legacy_local.F072.Decode.{is_g30_state, is_x50_state, read_common}
use ha_352air_legacy_local.A5a0
use ha_352air_legacy_local.Codec
use ha_352air_legacy_local.Codec.{DeviceCodec, m25_codec, a5a0_codec, f072_codec}
use ha_352air_legacy_local.Discovery.{device_port, found, passive_parsed, decode_passive_status}
use ha_352air_legacy_local.Discovery.Layouts.{
  IsLearned, a5a0-IsLearned, m25-IsLearned, f072-IsLearned,
}

-- What a codec's decode does with a frame from the device's port.
from_device_port :
    (source : Endpoint) → source.port ≡ device_port → valid_source source ≡ some source
unfolding valid_source
from_device_port source s = ground arith

m25_opened :
    (datagram : Bytes) (source : Endpoint) (f : OuterFrame) (p : DecodedPacket)
    → parse_outer_frame datagram ≡ ok (frame f)
    → source.port ≡ device_port
    → M25.decode datagram source ≡ ok (some p)
    → (f.identity.wire_type ≡ 1) × (M25.decode_payload f source ≡ ok (some p))
unfolding M25.decode
m25_opened datagram source f p q s e = ground (arith, q, from_device_port source s, e)

a5a0_opened :
    (datagram : Bytes) (source : Endpoint) (f : OuterFrame) (p : DecodedPacket)
    → parse_outer_frame datagram ≡ ok (frame f)
    → source.port ≡ device_port
    → A5a0.Decode.decode datagram source ≡ ok (some p)
    → (f.identity.wire_type ≡ 2) × (a5a0_payload f source ≡ ok (some p))
unfolding A5a0.Decode.decode
a5a0_opened datagram source f p q s e = ground (arith, q, from_device_port source s, e)

f072_opened :
    (c : F072Codec) (datagram : Bytes) (source : Endpoint) (f : OuterFrame) (p : DecodedPacket)
    → parse_outer_frame datagram ≡ ok (frame f)
    → source.port ≡ device_port
    → F072.Decode.decode c datagram source ≡ ok (some p)
    → (f.identity.wire_type ≡ F072.wire_type c)
      × (F072.Decode.decode_payload c f source ≡ ok (some p))
unfolding F072.Decode.decode
f072_opened c datagram source f p q s e = ground (arith, q, from_device_port source s, e)

codec_payload :
    (codec : DeviceCodec) (datagram : Bytes) (source : Endpoint) (f : OuterFrame)
    (p : DecodedPacket)
    → parse_outer_frame datagram ≡ ok (frame f)
    → source.port ≡ device_port
    → Codec.decode codec datagram source ≡ ok (some p)
    → p.kind ≡ PacketKind.state
    → IsLearned f p
unfolding Codec.decode
codec_payload m25_codec datagram source f p q s e k =
    let (w, r) = m25_opened datagram source f p q s e in m25-IsLearned f source w p r k
codec_payload a5a0_codec datagram source f p q s e k =
    let (w, r) = a5a0_opened datagram source f p q s e in a5a0-IsLearned f source w p r k
codec_payload (f072_codec c) datagram source f p q s e k =
    let (w, r) = f072_opened c datagram source f p q s e in f072-IsLearned c f source w p r k

-- Discovery learns from every state that a codec decodes: a state packet of an outer frame with
-- operation 4, which came from the device's port, is a passive status of its sender and its MAC
-- with the packet's own identity, for any set of wire types with the frame's.
pub decode_passive_status-decode :
    (codec : DeviceCodec) (datagram : Bytes) (source : Endpoint) (f : OuterFrame)
    (p : DecodedPacket) (wire_types : List ℕ)
    → parse_outer_frame datagram ≡ ok (frame f)
    → Codec.decode codec datagram source ≡ ok (some p)
    → p.kind ≡ PacketKind.state
    → f.operation ≡ 4
    → source.port ≡ device_port
    → one_of f.identity.wire_type wire_types ≡ true
    → decode_passive_status datagram source source.host p.identity.mac wire_types
      ≡ ok (some (found source.host p.identity))
unfolding decode_passive_status passive_parsed
decode_passive_status-decode codec datagram source f p wire_types q e k o s w =
    let (i, v) = codec_payload codec datagram source f p q s e k in
    ground (arith, q, o, s, w, i, v, bytes_eq_self source.host, bytes_eq_self f.identity.mac)
