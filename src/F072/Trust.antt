-- ===== src/F072/Trust.antt =====
-- `F072Codec.decode` as a whole, and what it never takes for a reply.
use ha_352air_legacy_local.Base.{
  ℕ, ◌-◌, ◌≤◌, ◌≡◌, refl, ◌∙◌, sym, ◌≢◌, ◌⊎◌, inl, inr, true, false, Option, none, some, [], ◌∷◌,
  ◌++◌, ◌==◌, leb, ltb, ◌&&◌, ◌||◌, not, one_of, length, length-drop, take, drop, get_or, Result,
  ok, arith, dec_lt, Bool-cases, if_elim, if_self, le→ltb, All-take, All-drop,
}
use ha_352air_legacy_local.Base.Bytes.{
  bytes_eq, Bytes, IsByte, IsBytes, at, at-get_or, but_last_two,
}
use ha_352air_legacy_local.Models.{same_family, f072_g30, f072_x50, CommandContext, IsContext}
use ha_352air_legacy_local.Models.State.{Dict, Endpoint, DecodedPacket}
use ha_352air_legacy_local.Outer.{
  OuterFrame, frame, rejected, Parsed, parse_outer_frame, valid_source,
}
use ha_352air_legacy_local.Outer.Totality.{envelope, IsFrame}
use ha_352air_legacy_local.Outer.RoundTrip.{parse_outer_frame_total, parse_outer_frame_sound}
use ha_352air_legacy_local.Packet.{IsPacketOf, Outcome}
use ha_352air_legacy_local.Crc.{f072_response_crc_is_valid, f072_prefix}
use ha_352air_legacy_local.F072.{F072Codec, wire_type, routes}
use ha_352air_legacy_local.F072.Decode.{decode, decode_payload, decode_frame, decode_data}
use ha_352air_legacy_local.F072.Encoding.{Body, IsBody}
use ha_352air_legacy_local.F072.Sending.{sent, sent-ready, IsCodec}
use ha_352air_legacy_local.Crc.Detection.{checked, response_crc_detects}
use ha_352air_legacy_local.F072.Reading.{
  IsReport, decode_framed, x50-Outcome, g30-Outcome, ack-Outcome,
}

data-Outcome :
    (c : F072Codec) (f : OuterFrame) (xs : Bytes) (source : Endpoint) (m : Dict)
    → IsBytes xs
    → Outcome (IsReport c) f source (decode_data c f xs source m)
unfolding decode_data
data-Outcome c f xs source m b =
    if_elim (Outcome (IsReport c) f source) _ _ _
      (λ g. g30-Outcome c f xs source m (g30_long c xs g) b)
      λ _.
        if_elim (Outcome (IsReport c) f source) _ _ _
          (λ x. x50-Outcome c f xs source m (x50_long c xs x) b) λ _. ack-Outcome c f xs source m
  where
    g30_long :
        (c : F072Codec) (xs : Bytes)
        → (same_family c.family f072_g30 && leb 29 (length xs)) ≡ true
        → 29 ≤ length xs
    g30_long c xs e = ground arith

    x50_long :
        (c : F072Codec) (xs : Bytes)
        → (same_family c.family f072_x50 && leb 30 (length xs)) ≡ true
        → 30 ≤ length xs
    x50_long c xs e = ground arith

frame-Outcome :
    (c : F072Codec) (f : OuterFrame) (inner : Bytes) (source : Endpoint) (m : Dict)
    → 7 ≤ length inner
    → IsBytes inner
    → Outcome (IsReport c) f source (decode_frame c f inner source m)
unfolding decode_frame
frame-Outcome c f inner source m q b =
    let marker = at-get_or inner 5 (omega arith) in
    let kind = at-get_or inner 6 q in
    elim (Bool-cases
      (not (one_of (get_or inner 5 0) (0x84 ∷ 0x03 ∷ [])) || not (get_or inner 6 0 == 0x02))) [
        | inl t ↦ rw (marker, kind, t) (inl refl)
        | inr t ↦
            rw (marker, kind, t)
              (data-Outcome c f (drop 7 (but_last_two inner)) source _ (
                All-drop IsByte 7 (but_last_two inner)
                  (All-take IsByte (length inner - 2) inner b)))
      ]

abbrev pub Checked : OuterFrame → Type 0
Checked f =
    (one_of (get_or f.payload 0 0) routes ≡ true)
    × (f072_response_crc_is_valid (drop 1 f.payload) ≡ true)

abbrev Trusted : F072Codec → OuterFrame → Endpoint → Result (Option DecodedPacket) → Type 0
Trusted c f source r =
    (r ≡ ok none)
    ⊎ (Checked f × ((p : DecodedPacket) × (r ≡ ok (some p)) × IsPacketOf (IsReport c) f source p))

trust :
    (c : F072Codec) (f : OuterFrame) (source : Endpoint) (r : Result (Option DecodedPacket))
    → Checked f
    → Outcome (IsReport c) f source r
    → Trusted c f source r
trust c f source r k (inl e) = inl e
trust c f source r k (inr x) = inr (k, x)

Checked-parts :
    (f : OuterFrame)
    → (one_of (get_or f.payload 0 0) routes
        && bytes_eq (take 2 (drop 1 f.payload)) f072_prefix
        && f072_response_crc_is_valid (drop 1 f.payload))
      ≡ true
    → Checked f
Checked-parts f t = ground arith

payload-Trusted :
    (c : F072Codec) (f : OuterFrame) (source : Endpoint)
    → IsBytes f.payload
    → Trusted c f source (decode_payload c f source)
unfolding decode_payload
payload-Trusted c f source b = elim (dec_lt (length f.payload) 14) [
  | yes short ↦ inl (ground arith)
  | no long ↦
      let test =
        one_of (get_or f.payload 0 0) routes
        && bytes_eq (take 2 (drop 1 f.payload)) f072_prefix
        && f072_response_crc_is_valid (drop 1 f.payload) in
      let enough : ltb (length f.payload) 14 ≡ false = le→ltb (length f.payload) 14 (omega arith) in
      let first = at-get_or f.payload 0 (omega arith) in
      elim (Bool-cases test) [
        | inl t ↦
            rw (enough, first, t)
              (trust c f source _ (Checked-parts f t) (
                frame-Outcome c f (drop 1 f.payload) source _
                  (omega (arith, length-drop 1 f.payload)) (All-drop IsByte 1 f.payload b)))
        | inr t ↦ rw (enough, first, t) (inl refl)
      ]
]

abbrev pub Accepted : F072Codec → Bytes → Endpoint → Type 0
Accepted c datagram source =
    (f : OuterFrame) × (p : DecodedPacket) × (datagram ≡ envelope f)
    × (f.identity.wire_type ≡ wire_type c)
    × (source.port ≤ 0xFFFF)
    × Checked f
    × (decode c datagram source ≡ ok (some p))
    × IsPacketOf (IsReport c) f source p

parsed_outcome :
    (c : F072Codec) (datagram : Bytes) (source : Endpoint) (p : Parsed)
    → IsBytes datagram
    → parse_outer_frame datagram ≡ ok p
    → (decode c datagram source ≡ ok none) ⊎ Accepted c datagram source
unfolding decode valid_source
parsed_outcome c datagram source (rejected r) b e = inl (rw e)
parsed_outcome c datagram source (frame f) b e =
    let (v, q) = parse_outer_frame_sound datagram f b e in
    ground (arith, payload-Trusted c f source v.payload_bytes)

-- On any datagram of bytes `decode` raises nothing. What it returns, if not None, is a packet of a
-- frame that the datagram is the layout of, with the codec's wire type, a peer port of 16 bits, a
-- route of 1 or 2 and a valid checksum: it carries the frame's identity and sequence and the peer's
-- address, and is a state report whose observations are within their ranges or an acknowledgement
-- without observations.
pub decode_f072_outcome :
    (c : F072Codec) (datagram : Bytes) (source : Endpoint)
    → IsBytes datagram
    → (decode c datagram source ≡ ok none) ⊎ Accepted c datagram source
decode_f072_outcome c datagram source b =
    let (p, e, _) = parse_outer_frame_total datagram b in parsed_outcome c datagram source p b e

abbrev pub response : OuterFrame → ℕ → Bytes → ℕ → ℕ → OuterFrame
response f route m c0 c1 = record f { payload = route ∷ checked m c0 c1 }

-- If a datagram is accepted, the datagram that differs from it in exactly one byte of the checksum's
-- range is not, whatever the byte and wherever it stands.
pub decode_detects :
    (c : F072Codec) (f : OuterFrame) (route : ℕ) (front back : Bytes) (a b c0 c1 : ℕ)
    (source : Endpoint) {p : DecodedPacket}
    → IsFrame (response f route (front ++ a ∷ back) c0 c1)
    → IsFrame (response f route (front ++ b ∷ back) c0 c1)
    → source.port ≤ 0xFFFF
    → f.identity.wire_type ≡ wire_type c
    → IsBytes front
    → IsBytes back
    → IsByte a
    → IsByte b
    → a ≢ b
    → decode c (envelope (response f route (front ++ a ∷ back) c0 c1)) source ≡ ok (some p)
    → decode c (envelope (response f route (front ++ b ∷ back) c0 c1)) source ≡ ok none
decode_detects c f route front back a b c0 c1 source {p} va vb port w hf hk ha hb ne e =
    let fa = response f route (front ++ a ∷ back) c0 c1 in
    let fb = response f route (front ++ b ∷ back) c0 c1 in
    decode_framed c fb source vb port w
    ∙ rejects (payload-Trusted c fa source va.payload_bytes)
        (payload-Trusted c fb source vb.payload_bytes)
        (sym (decode_framed c fa source va port w) ∙ e)
  where
    rejects :
        let fa = response f route (front ++ a ∷ back) c0 c1 in
        let fb = response f route (front ++ b ∷ back) c0 c1 in
        Trusted c fa source (decode_payload c fa source)
        → Trusted c fb source (decode_payload c fb source)
        → decode_payload c fa source ≡ ok (some p)
        → decode_payload c fb source ≡ ok none
    rejects ta (inl none') got = none'
    rejects (inl none') tb got = cc
    rejects (inr (ka, _)) (inr (kb, _)) got =
        cc (kb.1, response_crc_detects front back a b c0 c1 hf hk ha hb ne ka.1)

-- No codec takes a command or query of its own for a reply.
pub decode_f072_own :
    (c : F072Codec) (context : CommandContext) (body : Body) (source : Endpoint)
    → IsCodec c
    → IsContext context
    → IsBody body
    → context.identity.wire_type ≡ wire_type c
    → source.port ≤ 0xFFFF
    → decode c (envelope (sent c context body)) source ≡ ok none
unfolding decode_payload decode_frame at bytes_eq
decode_f072_own c context body source k v b w port =
    decode_framed c (sent c context body) source (sent-ready c context body v b) port w
    ∙ if_self _ _
