-- ===== src/Discovery/Search.antt =====
-- The two collectors of discovery.py: `_ReadOnlyDiscoveryProtocol` for a known device, and
-- `_ReadOnlyNetworkDiscoveryProtocol`, whose dictionary is an association list by MAC.
use ha_352air_legacy_local.Base.{
  ℕ, ◌+◌, Bool, false, Option, none, some, List, [], ◌∷◌, ◌==◌, ltb, ◌&&◌, ◌||◌, not, if◌then◌else◌,
  length, one_of, Result, ok, ◌>>=◌,
}
use ha_352air_legacy_local.Base.Bytes.{Bytes, bytes_eq}
use ha_352air_legacy_local.Models.State.{Text, Endpoint}
use ha_352air_legacy_local.Outer.{OuterFrame, Parsed, rejected, frame, parse_outer_frame}
use ha_352air_legacy_local.Schedule.{Device}
use ha_352air_legacy_local.Discovery.{
  device_port, found, decode_discovery_reply, decode_reply, decode_passive_status,
}

pub record DirectedSearch : Type 0 where
  pub expected_host : Text
  pub expected_mac : Bytes
  pub wire_types : List ℕ
  pub sequences : List ℕ
  pub received : ℕ
  pub target_received : ℕ
  pub result : Option Device

-- `result is not None and result.wire_type not in self._wire_types`
abbrev pub known_type : DirectedSearch → Option Device → Option Device
known_type s none = none
known_type s (some device) = if one_of device.wire_type s.wire_types then some device else none

-- The reply, or else the passive state.
abbrev pub read_directed : DirectedSearch → Bytes → Endpoint → Result (Option Device)
read_directed s datagram source = do
  reply ← decode_reply datagram source s.expected_mac s.sequences
  elim (known_type s reply) [
    | some device ↦ ok (some device)
    | none ↦ decode_passive_status datagram source s.expected_host s.expected_mac s.wire_types
  ]

-- _ReadOnlyDiscoveryProtocol.datagram_received
unfoldable pub directed_received : DirectedSearch → Bytes → Endpoint → Result DirectedSearch
directed_received s datagram source = elim s.result [
  | some _ ↦ ok s
  | none ↦
      if bytes_eq source.host s.expected_host
      then (do
        read ← read_directed s datagram source
        ok (record s {
          received = s.received + 1;
          target_received = s.target_received + 1;
          result = read;
        }))
      else ok (record s { received = s.received + 1 })
]

pub record NetworkSearch : Type 0 where
  pub sequences : List ℕ
  pub excluded_macs : List Bytes
  pub expected_host : Option Text
  pub expected_mac : Option Bytes
  pub results : List (Bytes × Device)
  pub received : ℕ

abbrev pub any_equal : Bytes → List Bytes → Bool
any_equal mac [] = false
any_equal mac (other ∷ macs) = bytes_eq mac other || any_equal mac macs

abbrev pub has_key : Bytes → List (Bytes × Device) → Bool
has_key mac [] = false
has_key mac ((other, _) ∷ results) = bytes_eq mac other || has_key mac results

-- self.results[mac] = device
unfoldable pub put : Bytes → Device → List (Bytes × Device) → List (Bytes × Device)
put mac device [] = (mac, device) ∷ []
put mac device ((other, old) ∷ results) =
    if bytes_eq mac other then (other, device) ∷ results else (other, old) ∷ put mac device results

abbrev pub differs : Option Bytes → Bytes → Bool
differs none given = false
differs (some expected) given = not (bytes_eq given expected)

-- bytes(6) and b"\xff" * 6
abbrev pub no_macs : List Bytes
no_macs = (0 ∷ 0 ∷ 0 ∷ 0 ∷ 0 ∷ 0 ∷ []) ∷ (0xFF ∷ 0xFF ∷ 0xFF ∷ 0xFF ∷ 0xFF ∷ 0xFF ∷ []) ∷ []

abbrev pub all_wire_types : List ℕ
all_wire_types = 1 ∷ 2 ∷ 3 ∷ 4 ∷ []

-- What a frame of a possible device tells.
abbrev pub read_found : NetworkSearch → Bytes → Endpoint → OuterFrame → Result (Option Device)
read_found s datagram source outer = do
  decoded ← decode_discovery_reply datagram source
  let passive = decode_passive_status datagram source source.host outer.identity.mac all_wire_types
  elim decoded [
    | none ↦ passive
    | some reply ↦
        if one_of reply.sequence s.sequences
        then ok (some (found reply.host reply.identity))
        else passive
  ]

abbrev pub add_found : NetworkSearch → Device → NetworkSearch
add_found s device =
    if any_equal device.mac s.excluded_macs || differs s.expected_mac device.mac
    then s
    else if has_key device.mac s.results || ltb (length s.results) 64
    then record s { results = put device.mac device s.results }
    else s

unfoldable pub network_parsed : NetworkSearch → Bytes → Endpoint → Parsed → Result NetworkSearch
network_parsed s datagram source (rejected _) = ok s
network_parsed s datagram source (frame outer) =
    if source.port == device_port
      && one_of outer.identity.wire_type all_wire_types
      && not (any_equal outer.identity.mac no_macs)
    then (do
      read ← read_found s datagram source outer
      ok (elim read [ none ↦ s | some device ↦ add_found s device ]))
    else ok s

-- _ReadOnlyNetworkDiscoveryProtocol.datagram_received
unfoldable pub network_received : NetworkSearch → Bytes → Endpoint → Result NetworkSearch
network_received s datagram source =
    let counted : NetworkSearch = record s { received = s.received + 1 } in
    if differs s.expected_host source.host
    then ok counted
    else (do outer ← parse_outer_frame datagram; network_parsed counted datagram source outer)
