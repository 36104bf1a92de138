-- ===== src/M25/Reading.antt =====
-- What `M25Codec.decode` does with any datagram.
use ha_352air_legacy_local.Base.{
  ℕ, ◌≤◌, ◌≡◌, refl, ◌⊎◌, inl, inr, true, false, none, some, [], ◌∷◌, ◌==◌, leb, ltb, ◌&&◌, one_of,
  length, get_or, ok, arith, ℕ_discrete, dec_lt, Bool-cases, le→leb, le→ltb,
}
use ha_352air_legacy_local.Base.Bytes.{bytes_eq, Bytes, IsBytes, at-get_or, slice}
use ha_352air_legacy_local.Models.{PacketKind}
use ha_352air_legacy_local.Models.State.{Dict, DeviceState, Endpoint, DecodedPacket}
use ha_352air_legacy_local.Outer.{
  OuterFrame, frame, rejected, Parsed, parse_outer_frame, valid_source,
}
use ha_352air_legacy_local.Outer.Totality.{envelope, IsFrame}
use ha_352air_legacy_local.Outer.RoundTrip.{
  parse_outer_frame-envelope, parse_outer_frame_total, parse_outer_frame_sound,
}
use ha_352air_legacy_local.Packet.{IsPacketOf, Outcome}
use ha_352air_legacy_local.M25.{
  decode, decode_payload, decode_form, decode_sensors, decode_backlight_set, decode_backlight_read,
}

-- A sensor report has no backlight, a backlight report nothing else; every packet has a state.
abbrev pub IsReport : DecodedPacket → Type 0
IsReport p =
    ((s : DeviceState) × (p.observed ≡ some s)
      × (((p.kind ≡ PacketKind.state) × (s.backlight ≡ none) × ((n : ℕ) × (s.pm25 ≡ some n)))
          ⊎ ((p.kind ≡ PacketKind.backlight_kind)
              × (s.pm25 ≡ none)
              × ((n : ℕ) × (s.backlight ≡ some n)))))

pub decode_framed :
    (f : OuterFrame) (source : Endpoint)
    → IsFrame f
    → source.port ≤ 0xFFFF
    → f.identity.wire_type ≡ 1
    → decode (envelope f) source ≡ decode_payload f source
unfolding decode valid_source
decode_framed f source v p w =
    ground (arith, parse_outer_frame-envelope f v, le→leb source.port 0xFFFF p)

sensors-Outcome :
    (f : OuterFrame) (form : ℕ) (source : Endpoint) (m : Dict)
    → Outcome IsReport f source (decode_sensors f form source m)
unfolding decode_sensors
sensors-Outcome f form source m = elim (ℕ_discrete (length f.payload) 17) [
  | yes q ↦
      rw (q, at-get_or f.payload 7 (omega arith))
        (inr (_, refl, ((_, refl, inl (refl, refl, (_, refl))), refl, refl, refl)))
  | no q ↦ inl (ground arith)
]

set-Outcome :
    (f : OuterFrame) (source : Endpoint) (m : Dict)
    → Outcome IsReport f source (decode_backlight_set f source m)
unfolding decode_backlight_set
set-Outcome f source m =
    elim (Bool-cases (length f.payload == 7 && bytes_eq (slice f.payload 3 5) (0x03 ∷ 0x01 ∷ []))) [
      | inl t ↦
          rw (t, at-get_or f.payload 5 (ground arith))
            (inr (_, refl, ((_, refl, inr (refl, refl, (_, refl))), refl, refl, refl)))
      | inr t ↦ rw t (inl refl)
    ]

read-Outcome :
    (f : OuterFrame) (source : Endpoint) (m : Dict)
    → Outcome IsReport f source (decode_backlight_read f source m)
unfolding decode_backlight_read
read-Outcome f source m = elim (dec_lt (length f.payload) 6) [
  | yes q ↦ inl (ground arith)
  | no q ↦
      let enough : leb 6 (length f.payload) ≡ true = le→leb 6 (length f.payload) (omega arith) in
      elim (Bool-cases (get_or f.payload 4 0 == 0x01)) [
        | inl t ↦
            rw (enough, at-get_or f.payload 4 (omega arith), t, at-get_or f.payload 5 (omega arith))
              (inr (_, refl, ((_, refl, inr (refl, refl, (_, refl))), refl, refl, refl)))
        | inr t ↦ rw (enough, at-get_or f.payload 4 (omega arith), t) (inl refl)
      ]
]

form-Outcome :
    (f : OuterFrame) (form : ℕ) (source : Endpoint) (m : Dict)
    → Outcome IsReport f source (decode_form f form source m)
unfolding decode_form
form-Outcome f form source m =
    ground (arith, sensors-Outcome f form source m, set-Outcome f source m, read-Outcome f source m)

payload-Outcome :
    (f : OuterFrame) (source : Endpoint) → Outcome IsReport f source (decode_payload f source)
unfolding decode_payload
payload-Outcome f source = elim (dec_lt (length f.payload) 3) [
  | yes short ↦ inl (ground arith)
  | no long ↦
      let enough : ltb (length f.payload) 3 ≡ false = le→ltb (length f.payload) 3 (omega arith) in
      let first = at-get_or f.payload 0 (omega arith) in
      let second = at-get_or f.payload 1 (omega arith) in
      let third = at-get_or f.payload 2 (omega arith) in
      elim (Bool-cases
        (one_of (get_or f.payload 0 0) (0x03 ∷ 0x04 ∷ []) && get_or f.payload 1 0 == 0xF5)) [
          | inl t ↦ rw (enough, first, second, third, t) (form-Outcome f _ source _)
          | inr t ↦ rw (enough, first, second, third, t) (inl refl)
        ]
]

abbrev pub Accepted : Bytes → Endpoint → Type 0
Accepted datagram source =
    (f : OuterFrame) × (p : DecodedPacket) × (datagram ≡ envelope f)
    × (f.identity.wire_type ≡ 1)
    × (source.port ≤ 0xFFFF)
    × (decode datagram source ≡ ok (some p))
    × IsPacketOf IsReport f source p

parsed-Accepted :
    (datagram : Bytes) (source : Endpoint) (p : Parsed)
    → IsBytes datagram
    → parse_outer_frame datagram ≡ ok p
    → (decode datagram source ≡ ok none) ⊎ Accepted datagram source
unfolding decode valid_source
parsed-Accepted datagram source (rejected r) b e = inl (rw e)
parsed-Accepted datagram source (frame f) b e =
    let (v, q) = parse_outer_frame_sound datagram f b e in ground (arith, payload-Outcome f source)

-- On any datagram of bytes `decode` raises nothing. What it returns, if not None, is a packet of a
-- frame that the datagram is the layout of, with wire type 1 and a peer port of 16 bits: it carries
-- the frame's identity and sequence and the peer's address, and is either a sensor report with a PM2.5
-- value and no backlight, or a backlight report with a backlight value and no PM2.5.
pub decode_m25_outcome :
    (datagram : Bytes) (source : Endpoint)
    → IsBytes datagram
    → (decode datagram source ≡ ok none) ⊎ Accepted datagram source
decode_m25_outcome datagram source b =
    let (p, e, _) = parse_outer_frame_total datagram b in parsed-Accepted datagram source p b e
