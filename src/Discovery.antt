-- ===== src/Discovery.antt =====
-- Directed discovery: protocols/discovery.py and the two decoders of discovery.py. The reasons handed
-- to `on_reject` are only counted, and left out; None is `none`.
pub mod Search
pub mod Found
pub mod Totality
pub mod Directed
pub mod Replies
pub mod Passive
pub mod Layouts
use ha_352air_legacy_local.Base.{
  ℕ, ◌+◌, ◌*◌, ◌/◌, ◌%◌, ◌≡◌, Bool, true, false, Option, none, some, List, [], ◌∷◌, ◌++◌, ◌==◌, leb,
  ltb, ◌&&◌, ◌||◌, not, if◌then◌else◌, some_if, length, take, drop, one_of, Result, ok, err, ◌>>=◌,
  ◌>>◌,
}
use ha_352air_legacy_local.Base.Bytes.{Bytes, at, slice, bytes_eq}
use ha_352air_legacy_local.Models.{HeaderIdentity, CommandContext, make_identity, make_context}
use ha_352air_legacy_local.Models.State.{Text, Endpoint, DiscoveryResult}
use ha_352air_legacy_local.Outer.{
  OuterFrame, Parsed, rejected, frame, build_outer_frame, parse_outer_frame, valid_source,
}
use ha_352air_legacy_local.Schedule.{Device}
use ha_352air_legacy_local.Crc.{f072_prefix, f072_response_crc_is_valid}

abbrev pub discovery_company : ℕ
discovery_company = 0xF1

abbrev pub discovery_auth : ℕ
discovery_auth = 0xCB76

abbrev pub device_port : ℕ
device_port = 11530

-- encode_discovery_probe; the defaults of its keywords are the three constants.
unfoldable pub encode_discovery_probe : Bytes → ℕ → ℕ → ℕ → ℕ → ℕ → Result Bytes
encode_discovery_probe mac wire_type sequence company auth operation = do
  identity ← make_identity mac company wire_type auth
  context ← make_context identity sequence 0 none 0x04
  build_outer_frame context (0x23 ∷ []) (some operation) none

-- str(n) of a byte.
abbrev decimal : ℕ → Text
decimal n =
    if ltb n 10
    then (48 + n) ∷ []
    else if ltb n 100
    then (48 + n / 10) ∷ (48 + n % 10) ∷ []
    else (48 + n / 100) ∷ (48 + n / 10 % 10) ∷ (48 + n % 10) ∷ []

-- str(ipaddress.IPv4Address(…)) of four bytes; another number of them is an AddressValueError.
unfoldable pub address_text : Bytes → Option Text
address_text (a ∷ b ∷ c ∷ d ∷ []) =
    some (decimal a ++ (46 ∷ (decimal b ++ (46 ∷ (decimal c ++ (46 ∷ decimal d))))))
address_text _ = none

-- "0.0.0.0"
abbrev pub unspecified : Text
unspecified = 48 ∷ 46 ∷ 48 ∷ 46 ∷ 48 ∷ 46 ∷ 48 ∷ []

-- The last test of the reply, and the result.
abbrev pub from_address : OuterFrame → Endpoint → Option Text → Option DiscoveryResult
from_address outer peer none = none
from_address outer peer (some advertised) =
    some_if (bytes_eq advertised peer.host || bytes_eq advertised unspecified) (record {
      identity = outer.identity;
      host = peer.host;
      source = peer;
      sequence = outer.sequence;
    })

unfoldable pub read_reply : OuterFrame → Endpoint → Result (Option DiscoveryResult)
read_reply outer peer =
    if not (peer.port == device_port)
      || not (outer.operation == 0x06)
      || ltb (length outer.payload) 11
    then ok none
    else (do
      first ← at outer.payload 0
      ok (
          if first == 0x23 && bytes_eq (slice outer.payload 5 11) outer.identity.mac
          then from_address outer peer (address_text (slice outer.payload 1 5))
          else none))

unfoldable pub reply_parsed : Parsed → Option Endpoint → Result (Option DiscoveryResult)
reply_parsed (rejected _) peer = ok none
reply_parsed (frame outer) none = ok none
reply_parsed (frame outer) (some peer) = read_reply outer peer

-- decode_discovery_reply
unfoldable pub decode_discovery_reply : Bytes → Endpoint → Result (Option DiscoveryResult)
decode_discovery_reply datagram source = do
  outer ← parse_outer_frame datagram
  reply_parsed outer (valid_source source)

-- DiscoveryResult(…) of discovery.py, of an identity; its text for the MAC is kept as bytes.
abbrev pub found : Text → HeaderIdentity → Device
found host identity = record {
  host = host;
  mac = identity.mac;
  company = identity.company;
  wire_type = identity.wire_type;
  auth = identity.auth;
}

-- _decode_reply; an empty set of sequences takes any.
abbrev pub wanted : Bytes → List ℕ → DiscoveryResult → Bool
wanted expected_mac sequences decoded =
    bytes_eq decoded.identity.mac expected_mac
    && (length sequences == 0 || one_of decoded.sequence sequences)

unfoldable pub decode_reply : Bytes → Endpoint → Bytes → List ℕ → Result (Option Device)
decode_reply datagram source expected_mac sequences = do
  decoded ← decode_discovery_reply datagram source
  ok (elim decoded [
    | none ↦ none
    | some result ↦
        some_if (wanted expected_mac sequences result) (found result.host result.identity)
  ])

-- valid_state for each wire type.
abbrev pub m25_layout : Bytes → Result Bool
m25_layout payload = if not (length payload == 17) then ok false else (do
  route ← at payload 0
  marker ← at payload 1
  form ← at payload 2
  ok (one_of route (0x03 ∷ 0x04 ∷ []) && marker == 0xF5 && one_of form (0xA1 ∷ 0xA2 ∷ [])))

abbrev pub a5a0_layout : Bytes → Bool
a5a0_layout payload =
    one_of (length payload) (33 ∷ 65 ∷ [])
    && bytes_eq (take 3 payload) (0x02 ∷ 0x5A ∷ 0xA1 ∷ [])
    && (length payload == 33 || bytes_eq (slice payload 33 35) (0x5A ∷ 0xA1 ∷ []))

-- The frame of an F072 state, and its checksum.
abbrev pub f072_frame : Bytes → ℕ → Result Bool
f072_frame inner minimum_data_length =
    if ltb (length inner) (minimum_data_length + 9) || not (bytes_eq (take 2 inner) f072_prefix)
    then ok false
    else (do
      marker ← at inner 5
      kind ← at inner 6
      ok (one_of marker (0x84 ∷ 0x03 ∷ []) && kind == 0x02 && f072_response_crc_is_valid inner))

abbrev pub f072_layout : Bytes → ℕ → Result Bool
f072_layout payload wire_type = if ltb (length payload) 16 then ok false else (do
  route ← at payload 0
  if one_of route (0x01 ∷ 0x02 ∷ [])
      then f072_frame (drop 1 payload) (if wire_type == 3 then 30 else 29)
      else ok false)

unfoldable pub valid_state : ℕ → Bytes → Result Bool
valid_state wire_type payload =
    if wire_type == 1
    then m25_layout payload
    else if wire_type == 2
    then ok (a5a0_layout payload)
    else if one_of wire_type (3 ∷ 4 ∷ [])
    then f072_layout payload wire_type
    else ok false

unfoldable pub passive_parsed : Text → Bytes → List ℕ → Parsed → Result (Option Device)
passive_parsed host mac wire_types (rejected _) = ok none
passive_parsed host mac wire_types (frame outer) =
    if outer.operation == 0x04
      && bytes_eq outer.identity.mac mac
      && one_of outer.identity.wire_type wire_types
    then (do
      valid ← valid_state outer.identity.wire_type outer.payload
      ok (some_if valid (found host outer.identity)))
    else ok none

-- _decode_passive_status
unfoldable pub decode_passive_status :
    Bytes → Endpoint → Text → Bytes → List ℕ → Result (Option Device)
decode_passive_status datagram source expected_host expected_mac wire_types =
    if bytes_eq source.host expected_host && source.port == device_port
    then (do
      outer ← parse_outer_frame datagram
      passive_parsed expected_host expected_mac wire_types outer)
    else ok none
