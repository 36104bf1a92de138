-- ===== src/Codec.antt =====
-- protocols/__init__.py: one codec for each family, behind the operations that the transport calls.
-- The classes of the Python `DeviceCodec` protocol are the constructors.
use ha_352air_legacy_local.Base.{◌≡◌, Option, none, some, Result, arith}
use ha_352air_legacy_local.Base.Bytes.{Bytes}
use ha_352air_legacy_local.Models.{
  Command, CommandContext, DeviceModel, ProtocolFamily, m25_family, a5a0, f072_x50, f072_g30,
  family_for_model,
}
use ha_352air_legacy_local.Models.State.{Endpoint, DecodedPacket}
use ha_352air_legacy_local.A5a0
use ha_352air_legacy_local.M25
use ha_352air_legacy_local.F072
use ha_352air_legacy_local.F072.{F072Codec}

pub data DeviceCodec : Type 0 where
  m25_codec a5a0_codec : DeviceCodec
  f072_codec : F072Codec → DeviceCodec

abbrev pub codec_family : DeviceCodec → ProtocolFamily
codec_family m25_codec = m25_family
codec_family a5a0_codec = a5a0
codec_family (f072_codec c) = c.family

-- codec_for_model; F072X50Codec and F072G30Codec are F072Codec with their family.
unfoldable pub codec_for_family : ProtocolFamily → DeviceModel → DeviceCodec
codec_for_family m25_family model = m25_codec
codec_for_family a5a0 model = a5a0_codec
codec_for_family f072_x50 model = f072_codec (record { family = f072_x50; model = some model })
codec_for_family f072_g30 model = f072_codec (record { family = f072_g30; model = some model })

unfoldable pub codec_for_model : DeviceModel → DeviceCodec
unfolding codec_for_family
codec_for_model model = codec_for_family (family_for_model model) model

unfoldable pub encode_query : DeviceCodec → CommandContext → Result Bytes
encode_query m25_codec context = M25.encode_query context
encode_query a5a0_codec context = A5a0.encode_query context
encode_query (f072_codec c) context = F072.encode_query c context

unfoldable pub encode_command : DeviceCodec → CommandContext → Command → Result Bytes
encode_command m25_codec context command = M25.encode_command context command
encode_command a5a0_codec context command = A5a0.encode_command context command
encode_command (f072_codec c) context command = F072.encode_command c context command

-- `hasattr(codec, "encode_backlight_query")`
unfoldable pub encode_backlight_query : DeviceCodec → Option (CommandContext → Result Bytes)
encode_backlight_query m25_codec = some M25.encode_backlight_query
encode_backlight_query a5a0_codec = none
encode_backlight_query (f072_codec c) = none

unfoldable pub decode : DeviceCodec → Bytes → Endpoint → Result (Option DecodedPacket)
decode m25_codec datagram source = M25.decode datagram source
decode a5a0_codec datagram source = A5a0.Decode.decode datagram source
decode (f072_codec c) datagram source = F072.Decode.decode c datagram source

-- A model's codec is of the model's family.
pub codec_for_model-family :
    (model : DeviceModel) → codec_family (codec_for_model model) ≡ family_for_model model
unfolding codec_for_model family_for_model
codec_for_model-family model = ground arith
