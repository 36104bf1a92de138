-- ===== src/Manager/Known.antt =====
-- The discovery replies that tools/352air_schedule_manager.py takes against the integration's.
use ha_352air_legacy_local.Base.{
  ◌≡◌, refl, Option, none, some, inl, inr, [], ◌∷◌, one_of, length, ok, arith, dec_lt, ◌>>=◌,
  some_if, true, false, Bool-cases,
}
use ha_352air_legacy_local.Base.Bytes.{
  Bytes, IsBytes, at, at-get_or, slice, int_from_bytes_pair, bytes_eq,
}
use ha_352air_legacy_local.Models.State.{Text, Endpoint, DiscoveryResult}
use ha_352air_legacy_local.Outer.{frame, valid_source}
use ha_352air_legacy_local.Outer.Headers.{
  Header, header_bytes, header_frame, Header-exists, Framed, short_rejected,
}
use ha_352air_legacy_local.Outer.RoundTrip.{header-cases}
use ha_352air_legacy_local.Discovery.{
  decode_discovery_reply, read_reply, reply_parsed, from_address, address_text,
}
use ha_352air_legacy_local.Manager.{parse_outer_payload}
use ha_352air_legacy_local.Manager.Agreement.{
  parse_outer_payload-Framed, parse_outer_payload_unframed,
}
use ha_352air_legacy_local.Manager.Devices.{
  KnownDevice, family_names, if_advertised, read_device, discovery_payload,
  parse_discovery_response,
}

-- What the tool keeps of a result: its device, if its family is one of the four.
abbrev pub known_of : Option DiscoveryResult → Option KnownDevice
known_of none = none
known_of (some r) = some_if (one_of r.identity.wire_type family_names) (record {
  device = record {
    host = r.host;
    mac = r.identity.mac;
    company = r.identity.company;
    wire_type = r.identity.wire_type;
    auth = r.identity.auth;
  };
  sequence = r.sequence;
})

bytes_eq_comm : (xs ys : Bytes) → bytes_eq xs ys ≡ bytes_eq ys xs
unfolding bytes_eq
bytes_eq_comm [] [] = refl
bytes_eq_comm [] (y ∷ ys) = refl
bytes_eq_comm (x ∷ xs) [] = refl
bytes_eq_comm (x ∷ xs) (y ∷ ys) = ground (arith, bytes_eq_comm xs ys)

advertised_known :
    (h : Header) (address : Endpoint) (advertised : Option Text)
    → one_of h.b13 family_names ≡ true
    → if_advertised advertised address.host (read_device (header_bytes h) address.host h.b12 h.b13)
      ≡ known_of (from_address (header_frame h) address advertised)
advertised_known h address none m = refl
advertised_known h address (some text) m =
    ground (arith, int_from_bytes_pair h.a0 h.a1, int_from_bytes_pair h.s0 h.s1)

unknown :
    (h : Header) (address : Endpoint) (advertised : Option Text)
    → one_of h.b13 family_names ≡ false
    → known_of (from_address (header_frame h) address advertised) ≡ none
unknown h address none m = refl
unknown h address (some text) m = ground arith

payload_known :
    (h : Header) (address : Endpoint) (r : Option Text)
    → Framed h
    → address_text (slice h.rest 1 5) ≡ r
    → discovery_payload (header_bytes h) address (some h.rest)
      ≡ (reply_parsed (frame (header_frame h)) (valid_source address) >>= λ r. ok (known_of r))
unfolding discovery_payload at bytes_eq reply_parsed read_reply valid_source
payload_known h address r fr q = elim (dec_lt (length h.rest) 11) [
  | yes short ↦ ground arith
  | no long ↦ elim (Bool-cases (one_of h.b13 family_names)) [
    | inl m ↦ ground (
      arith,
      q,
      at-get_or h.rest 0 (omega arith),
      advertised_known h address r m,
      bytes_eq_comm (slice (header_bytes h) 2 8) (slice h.rest 5 11),
    )
    | inr m ↦ ground (arith, q, at-get_or h.rest 0 (omega arith), unknown h address r m)
  ]
]

header_known :
    (h : Header) (address : Endpoint)
    → IsBytes (header_bytes h)
    → parse_discovery_response (header_bytes h) address
      ≡ (decode_discovery_reply (header_bytes h) address >>= λ r. ok (known_of r))
unfolding parse_discovery_response decode_discovery_reply discovery_payload reply_parsed
header_known h address b = elim (header-cases h b) [
  | inl (fr, e) ↦
      rw (e, parse_outer_payload-Framed h fr)
        (payload_known h address (address_text (slice h.rest 1 5)) fr refl)
  | inr (off, (r, e)) ↦ rw (e, parse_outer_payload_unframed h off) refl
]

split_known :
    (datagram : Bytes) (address : Endpoint)
    → IsBytes datagram
    → (h : Header) × (datagram ≡ header_bytes h)
    → parse_discovery_response datagram address
      ≡ (decode_discovery_reply datagram address >>= λ r. ok (known_of r))
split_known datagram address b (h, q) = rw q (header_known h address (rw q at b))

-- The tool takes a datagram for a discovery reply exactly if the integration does and its family is
-- one of the four, and reads the same host, identity and sequence number from it.
pub parse_discovery_response-decode_discovery_reply :
    (datagram : Bytes) (address : Endpoint)
    → IsBytes datagram
    → parse_discovery_response datagram address
      ≡ (decode_discovery_reply datagram address >>= λ r. ok (known_of r))
unfolding parse_discovery_response decode_discovery_reply discovery_payload reply_parsed
    parse_outer_payload
parse_discovery_response-decode_discovery_reply datagram address b =
    elim (dec_lt (length datagram) 16) [
      | yes short ↦ ground (arith, short_rejected datagram short)
      | no long ↦ split_known datagram address b (Header-exists datagram (omega arith))
    ]
