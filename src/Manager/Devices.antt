-- ===== src/Manager/Devices.antt =====
-- The discovery of devices by tools/352air_schedule_manager.py: its probe, and what it takes for a
-- device.
use ha_352air_legacy_local.Base.{
  ℕ, Option, none, some, List, [], ◌∷◌, ◌++◌, ◌==◌, ltb, ◌&&◌, ◌||◌, not, if◌then◌else◌, some_if,
  length, take, one_of, Result, ok, ◌>>=◌,
}
use ha_352air_legacy_local.Base.Bytes.{
  Bytes, at, slice, bytes_of, to_bytes_2, bytes_eq, int_from_bytes,
}
use ha_352air_legacy_local.Models.State.{Text, Endpoint}
use ha_352air_legacy_local.Schedule.{Device, udp_port}
use ha_352air_legacy_local.Discovery.{discovery_auth, address_text, unspecified}
use ha_352air_legacy_local.Manager.{parse_outer_payload, valid_passive_status}

-- A device with the sequence number of what was received.
pub record KnownDevice : Type 0 where
  pub device : Device
  pub sequence : ℕ

-- The keys of FAMILY_NAMES
abbrev pub family_names : List ℕ
family_names = 1 ∷ 2 ∷ 3 ∷ 4 ∷ []

-- discovery_packet
unfoldable pub discovery_packet : Bytes → ℕ → ℕ → Result Bytes
discovery_packet mac family sequence = do
  number ← to_bytes_2 sequence
  kinds ← bytes_of (0xF1 ∷ family ∷ [])
  auth ← to_bytes_2 discovery_auth
  ok (0xA1 ∷ 0x04 ∷ (mac ++ (0x08 ∷ 0x00 ∷ (number ++ (kinds ++ (auth ++ 0x23 ∷ []))))))

-- Device(…) of a datagram.
abbrev pub read_device : Bytes → Text → ℕ → ℕ → KnownDevice
read_device datagram host company family = record {
  device = record {
    host = host;
    mac = slice datagram 2 8;
    company = company;
    wire_type = family;
    auth = int_from_bytes (slice datagram 14 16);
  };
  sequence = int_from_bytes (slice datagram 10 12);
}

-- The last test of parse_discovery_response; four bytes are always an address.
abbrev pub if_advertised : Option Text → Text → KnownDevice → Option KnownDevice
if_advertised none host known = none
if_advertised (some advertised) host known =
    some_if (bytes_eq advertised host || bytes_eq advertised unspecified) known

unfoldable pub discovery_payload : Bytes → Endpoint → Option Bytes → Result (Option KnownDevice)
discovery_payload datagram address none = ok none
discovery_payload datagram address (some payload) =
    if not (address.port == udp_port)
      || not (bytes_eq (take 2 datagram) (0xA1 ∷ 0x06 ∷ []))
      || ltb (length payload) 11
    then ok none
    else (do
      first ← at payload 0
      company ← at datagram 12
      family ← at datagram 13
      if not (first == 0x23)
            || not (bytes_eq (slice datagram 2 8) (slice payload 5 11))
            || not (one_of family family_names)
          then ok none
          else ok (
              if_advertised (address_text (slice payload 1 5)) address.host
                (read_device datagram address.host company family)))

-- parse_discovery_response
unfoldable pub parse_discovery_response : Bytes → Endpoint → Result (Option KnownDevice)
parse_discovery_response datagram address =
    parse_outer_payload datagram >>= discovery_payload datagram address

-- VENDOR_OUI
abbrev pub vendor_oui : Bytes
vendor_oui = 0x00 ∷ 0x95 ∷ 0x69 ∷ []

unfoldable pub passive_payload : Bytes → Endpoint → Option Bytes → Result (Option KnownDevice)
passive_payload datagram address none = ok none
passive_payload datagram address (some payload) = do
  company ← at datagram 12
  family ← at datagram 13
  if not (bytes_eq (take 2 datagram) (0xA1 ∷ 0x04 ∷ []))
        || not (one_of family family_names)
        || not (address.port == udp_port)
      then ok none
      else (do
        valid ← valid_passive_status payload family
        ok (
            some_if (valid && bytes_eq (take 3 (slice datagram 2 8)) vendor_oui)
              (read_device datagram address.host company family)))

-- parse_passive_device
unfoldable pub parse_passive_device : Bytes → Endpoint → Result (Option KnownDevice)
parse_passive_device datagram address =
    parse_outer_payload datagram >>= passive_payload datagram address
