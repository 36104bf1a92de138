-- ===== src/Outer/RoundTrip.antt =====
-- Building and parsing the outer envelope of protocols/base.py.
use ha_352air_legacy_local.Base.{
  ℕ, ◌+◌, ◌/◌, ◌%◌, ◌≡◌, ◌↔◌, ◌⊎◌, inl, inr, Option, [], ◌∷◌, length, take, ok, arith, ◌≢◌, dec_lt,
  All-append,
}
use ha_352air_legacy_local.Base.Bytes.{Bytes, IsBytes, IsByte, at}
use ha_352air_legacy_local.Models.{HeaderIdentity, CommandContext}
use ha_352air_legacy_local.Outer.{
  OuterFrame, outer_marker, build_outer_frame, parse_outer_frame, Parsed, Rejection, rejected,
  frame, outer_too_short, outer_header, outer_declared_length, outer_length_mismatch,
  outer_identity,
}
use ha_352air_legacy_local.Outer.Totality.{envelope, IsFrame, built, build_outer_frame-envelope}
use ha_352air_legacy_local.Outer.Headers.{
  Header, header_bytes, Header-exists, header_frame, Framed, parse-Framed, Framed-cases,
  short_rejected, sound_split,
}

-- Every accepted datagram is the layout of the frame that it is read as.
pub parse_outer_frame_sound :
    (d : Bytes) (f : OuterFrame)
    → IsBytes d
    → parse_outer_frame d ≡ ok (frame f)
    → IsFrame f × (d ≡ envelope f)
parse_outer_frame_sound d f b e = elim (dec_lt (length d) 16) [
  | yes q ↦ cc (short_rejected d q)
  | no q ↦ sound_split d f b e (Header-exists d (omega arith))
]

complete_at :
    (mac : Bytes) (company wire_type auth operation sequence : ℕ) (payload : Bytes)
    → let f : OuterFrame = record {
      identity = record { mac = mac; company = company; wire_type = wire_type; auth = auth };
      operation = operation;
      sequence = sequence;
      payload = payload;
    } in
      IsFrame f → parse_outer_frame (envelope f) ≡ ok (frame f)
complete_at (m0 ∷ m1 ∷ m2 ∷ m3 ∷ m4 ∷ m5 ∷ []) company wire_type auth operation sequence payload v =
    let h : Header = record {
      b0 = outer_marker;
      b1 = operation;
      m0 = m0;
      m1 = m1;
      m2 = m2;
      m3 = m3;
      m4 = m4;
      m5 = m5;
      b8 = length payload + 7;
      b9 = 0;
      s0 = sequence / 256;
      s1 = sequence % 256;
      b12 = company;
      b13 = wire_type;
      a0 = auth / 256;
      a1 = auth % 256;
      rest = payload;
    } in
    let front : Bytes = take 16 (header_bytes h) in
    ground (
      arith,
      parse-Framed h (All-append IsByte front payload (omega arith) v.payload_bytes) (omega arith),
    )
complete_at mac company wire_type auth operation sequence payload v = absurd (omega arith)

pub parse_outer_frame-envelope :
    (f : OuterFrame) → IsFrame f → parse_outer_frame (envelope f) ≡ ok (frame f)
parse_outer_frame-envelope f v =
    complete_at f.identity.mac f.identity.company f.identity.wire_type f.identity.auth f.operation
      f.sequence f.payload v

-- A datagram of bytes parses to a frame exactly when it is the documented layout of that frame, with
-- a six-byte MAC, fields within their widths and at most 248 payload bytes.
pub parse_outer_frame_exact :
    (d : Bytes) (f : OuterFrame)
    → IsBytes d
    → (parse_outer_frame d ≡ ok (frame f)) ↔ (IsFrame f × (d ≡ envelope f))
parse_outer_frame_exact d f b =
    (parse_outer_frame_sound d f b, λ (v, q). rw q (parse_outer_frame-envelope f v))

-- Whatever `build_outer_frame` returns for a valid frame is read back whole.
pub parse_outer_frame-build_outer_frame :
    (context : CommandContext) (payload : Bytes) (operation : Option ℕ)
    (identity : Option HeaderIdentity) {datagram : Bytes}
    → IsFrame (built context payload operation identity)
    → build_outer_frame context payload operation identity ≡ ok datagram
    → parse_outer_frame datagram ≡ ok (frame (built context payload operation identity))
parse_outer_frame-build_outer_frame context payload operation identity v e =
    let f = built context payload operation identity in
    cc (
      build_outer_frame-envelope context payload operation identity v,
      parse_outer_frame-envelope f v,
    )

total_at :
    (h : Header)
    → IsBytes (header_bytes h)
    → (p : Parsed) × (parse_outer_frame (header_bytes h) ≡ ok p) × (p ≢ rejected outer_identity)
unfolding parse_outer_frame at
total_at h b = elim (Framed-cases h) [
  | inl fr ↦ (frame (header_frame h), parse-Framed h b fr, λ e. cc)
  | inr (inl bad) ↦ (rejected outer_header, ground arith, λ e. cc)
  | inr (inr (inl low)) ↦ (rejected outer_declared_length, ground arith, λ e. cc)
  | inr (inr (inr off)) ↦ (rejected outer_length_mismatch, ground arith, λ e. cc)
]

-- Parsing a header by its three marks.
pub header-cases :
    (h : Header)
    → IsBytes (header_bytes h)
    → (Framed h × (parse_outer_frame (header_bytes h) ≡ ok (frame (header_frame h))))
      ⊎ ((¬ Framed h) × ((r : Rejection) × (parse_outer_frame (header_bytes h) ≡ ok (rejected r))))
unfolding parse_outer_frame at
header-cases h b = elim (Framed-cases h) [
  | inl fr ↦ inl (fr, parse-Framed h b fr)
  | inr (inl bad) ↦ inr (λ fr. bad (fr.0, fr.1), (outer_header, ground arith))
  | inr (inr (inl low)) ↦ inr (λ fr. absurd (omega arith), (outer_declared_length, ground arith))
  | inr (inr (inr off)) ↦ inr (λ fr. absurd (omega arith), (outer_length_mismatch, ground arith))
]

total_split :
    (d : Bytes)
    → IsBytes d
    → (h : Header) × (d ≡ header_bytes h)
    → (p : Parsed) × (parse_outer_frame d ≡ ok p) × (p ≢ rejected outer_identity)
total_split d b (h, q) = rw q (total_at h (rw q at b))

-- Parsing raises nothing on any datagram of bytes, and its `outer_identity` rejection cannot happen.
pub parse_outer_frame_total :
    (d : Bytes)
    → IsBytes d
    → (p : Parsed) × (parse_outer_frame d ≡ ok p) × (p ≢ rejected outer_identity)
parse_outer_frame_total d b = elim (dec_lt (length d) 16) [
  | yes q ↦ (rejected outer_too_short, short_rejected d q, λ e. cc)
  | no q ↦ total_split d b (Header-exists d (omega arith))
]
