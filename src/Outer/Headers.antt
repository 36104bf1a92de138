-- ===== src/Outer/Headers.antt =====
-- Parsing the sixteen bytes of a header of protocols/base.py and what follows them.
use ha_352air_legacy_local.Base.{
  ℕ, ◌+◌, ◌*◌, ◌≤◌, ◌<◌, ◌≡◌, refl, ◌⊎◌, [], ◌∷◌, length, ok, arith, ◌≢◌,
}
use ha_352air_legacy_local.Base.Bytes.{Bytes, IsBytes, at, int_from_bytes_pair}
use ha_352air_legacy_local.Models.{HeaderIdentity, IsIdentity}
use ha_352air_legacy_local.Models.Laws.{make_identity-ok}
use ha_352air_legacy_local.Outer.{
  OuterFrame, outer_marker, parse_outer_frame, rejected, frame, outer_too_short,
}
use ha_352air_legacy_local.Outer.Totality.{envelope, IsFrame}

-- The sixteen header bytes and what follows.
pub record Header : Type 0 where
  pub b0 : ℕ
  pub b1 : ℕ
  pub m0 : ℕ
  pub m1 : ℕ
  pub m2 : ℕ
  pub m3 : ℕ
  pub m4 : ℕ
  pub m5 : ℕ
  pub b8 : ℕ
  pub b9 : ℕ
  pub s0 : ℕ
  pub s1 : ℕ
  pub b12 : ℕ
  pub b13 : ℕ
  pub a0 : ℕ
  pub a1 : ℕ
  pub rest : Bytes

abbrev pub header_mac : Header → Bytes
header_mac h = h.m0 ∷ h.m1 ∷ h.m2 ∷ h.m3 ∷ h.m4 ∷ h.m5 ∷ []

abbrev pub header_bytes : Header → Bytes
header_bytes h =
    h.b0 ∷ h.b1 ∷ h.m0 ∷ h.m1 ∷ h.m2 ∷ h.m3 ∷ h.m4 ∷ h.m5 ∷ h.b8 ∷ h.b9 ∷ h.s0 ∷ h.s1 ∷ h.b12
    ∷ h.b13 ∷ h.a0 ∷ h.a1 ∷ h.rest

-- Any datagram of sixteen bytes or more has a header.
pub Header-exists : (d : Bytes) → 16 ≤ length d → (h : Header) × (d ≡ header_bytes h)
Header-exists
      (b0 ∷ b1 ∷ m0 ∷ m1 ∷ m2 ∷ m3 ∷ m4 ∷ m5 ∷ b8 ∷ b9 ∷ s0 ∷ s1 ∷ b12 ∷ b13 ∷ a0 ∷ a1 ∷ rest) q =
    (
      record {
        b0 = b0;
        b1 = b1;
        m0 = m0;
        m1 = m1;
        m2 = m2;
        m3 = m3;
        m4 = m4;
        m5 = m5;
        b8 = b8;
        b9 = b9;
        s0 = s0;
        s1 = s1;
        b12 = b12;
        b13 = b13;
        a0 = a0;
        a1 = a1;
        rest = rest;
      },
      refl,
    )
Header-exists d q = absurd (omega arith)

abbrev pub header_identity : Header → HeaderIdentity
header_identity h = record {
  mac = header_mac h;
  company = h.b12;
  wire_type = h.b13;
  auth = h.a0 * 256 + h.a1;
}

abbrev pub header_frame : Header → OuterFrame
header_frame h = record {
  identity = header_identity h;
  operation = h.b1;
  sequence = h.s0 * 256 + h.s1;
  payload = h.rest;
}

header_identity-IsIdentity :
    (h : Header) → IsBytes (header_bytes h) → IsIdentity (header_identity h)
header_identity-IsIdentity h b = omega arith

abbrev pub Framed : Header → Type 0
Framed h = (h.b0 ≡ outer_marker) × (h.b9 ≡ 0) × (h.b8 ≡ length h.rest + 7)

pub parse-Framed :
    (h : Header)
    → IsBytes (header_bytes h)
    → Framed h
    → parse_outer_frame (header_bytes h) ≡ ok (frame (header_frame h))
unfolding parse_outer_frame at
parse-Framed h b f = ground (
  arith,
  int_from_bytes_pair h.s0 h.s1,
  int_from_bytes_pair h.a0 h.a1,
  make_identity-ok (header_identity h) (header_identity-IsIdentity h b),
)

parse_unframed :
    (h : Header)
    → IsBytes (header_bytes h)
    → (f : OuterFrame) → parse_outer_frame (header_bytes h) ≡ ok (frame f)
    → Framed h
unfolding parse_outer_frame at
parse_unframed h b f e = ground arith

header-envelope :
    (h : Header) → IsBytes (header_bytes h) → Framed h → header_bytes h ≡ envelope (header_frame h)
header-envelope h b f = ground arith

header-IsFrame : (h : Header) → IsBytes (header_bytes h) → Framed h → IsFrame (header_frame h)
header-IsFrame h b f = record {
  identity_valid = header_identity-IsIdentity h b;
  operation_byte = omega arith;
  sequence_u16 = omega arith;
  payload_bytes = b.1.1.1.1.1.1.1.1.1.1.1.1.1.1.1.1;
  payload_short = omega arith;
}

abbrev HasMarks : Header → Type 0
HasMarks h = (h.b0 ≡ outer_marker) × (h.b9 ≡ 0)

pub Framed-cases :
    (h : Header)
    → Framed h
      ⊎ ((¬ HasMarks h)
          ⊎ ((HasMarks h × (h.b8 < 7)) ⊎ (HasMarks h × (7 ≤ h.b8) × (h.b8 ≢ length h.rest + 7))))
Framed-cases h = grind arith

sound_at :
    (h : Header) (f : OuterFrame)
    → IsBytes (header_bytes h)
    → parse_outer_frame (header_bytes h) ≡ ok (frame f)
    → IsFrame f × (header_bytes h ≡ envelope f)
sound_at h f b e =
    let fr = parse_unframed h b f e in
    let same : header_frame h ≡ f = cc (parse-Framed h b fr) in
    rw (← same) (header-IsFrame h b fr, header-envelope h b fr)

pub short_rejected :
    (d : Bytes) → length d < 16 → parse_outer_frame d ≡ ok (rejected outer_too_short)
unfolding parse_outer_frame
short_rejected d q = ground arith

pub sound_split :
    (d : Bytes) (f : OuterFrame)
    → IsBytes d
    → parse_outer_frame d ≡ ok (frame f)
    → (h : Header) × (d ≡ header_bytes h)
    → IsFrame f × (d ≡ envelope f)
sound_split d f b e (h, q) = rw q (sound_at h f (rw q at b) (rw q at e))
