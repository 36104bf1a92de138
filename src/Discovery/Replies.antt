-- ===== src/Discovery/Replies.antt =====
-- The probe, the reply, and the passive status on every input.
use ha_352air_legacy_local.Base.{
  ℕ, ◌≤◌, ◌≡◌, refl, ap, ◌∙◌, ◌⊎◌, inl, inr, false, Option, none, some, [], ◌∷◌, ◌==◌, leb, ltb,
  ◌||◌, not, length, get_or, Result, ok, arith, Bool-cases,
}
use ha_352air_legacy_local.Base.Bytes.{
  Bytes, IsBytes, IsByte, IsU16, at-get_or, slice, bytes_eq, bytes_eq_self, bytes_eq→eq,
}
use mathlib.Core.Path.{subst}
use ha_352air_legacy_local.Models.{
  HeaderIdentity, IsIdentity, CommandContext, make_context, check_unsigned,
}
use ha_352air_legacy_local.Models.Laws.{make_identity-ok}
use ha_352air_legacy_local.Models.State.{Text, Endpoint, DiscoveryResult}
use ha_352air_legacy_local.Outer.{
  OuterFrame, Parsed, rejected, Rejection, frame, parse_outer_frame, valid_source,
}
use ha_352air_legacy_local.Outer.Totality.{envelope, IsFrame, build_outer_frame-envelope}
use ha_352air_legacy_local.Outer.RoundTrip.{
  parse_outer_frame-envelope, parse_outer_frame_total, parse_outer_frame_sound,
}
use ha_352air_legacy_local.Discovery.{
  device_port, encode_discovery_probe, decode_discovery_reply, read_reply, reply_parsed,
  from_address, address_text, unspecified,
}

-- The frame of a probe.
abbrev pub probe : HeaderIdentity → ℕ → ℕ → OuterFrame
probe identity sequence operation = record {
  identity = identity;
  operation = operation;
  sequence = sequence;
  payload = 0x23 ∷ [];
}

-- A probe for a valid identity, sequence and operation is built without an exception, and its receiver
-- reads the same identity, sequence and operation, with the one payload byte 0x23.
pub parse_outer_frame-encode_discovery_probe :
    (identity : HeaderIdentity) (sequence operation : ℕ)
    → IsIdentity identity
    → IsU16 sequence
    → IsByte operation
    → (datagram : Bytes) × (encode_discovery_probe identity.mac identity.wire_type sequence
          identity.company identity.auth operation
        ≡ ok datagram)
      × (parse_outer_frame datagram ≡ ok (frame (probe identity sequence operation)))
unfolding encode_discovery_probe make_context check_unsigned
parse_outer_frame-encode_discovery_probe identity sequence operation v s o =
    let ready : IsFrame (probe identity sequence operation) = record {
      identity_valid = v;
      operation_byte = o;
      sequence_u16 = s;
      payload_bytes = ground arith;
      payload_short = ground arith;
    } in
    let context : CommandContext = record {
      identity = identity;
      outer_sequence = sequence;
      inner_sequence = 0;
      model = none;
      outer_operation = 4;
    } in
    let made : make_context identity sequence 0 none 0x04 ≡ ok context = ground arith in
    (
      envelope (probe identity sequence operation),
      rw (make_identity-ok identity v, made)
          (build_outer_frame-envelope context (0x23 ∷ []) (some operation) none ready),
      parse_outer_frame-envelope (probe identity sequence operation) ready,
    )

-- What a reply says: it is of the device's port, with operation 6, and carries the sender's address
-- and the frame's own MAC.
pub record IsReply (f : OuterFrame) (source : Endpoint) : Type 0 where
  pub port : source.port ≡ device_port
  pub operation : f.operation ≡ 0x06
  pub long : 11 ≤ length f.payload
  pub marker : get_or f.payload 0 0 ≡ 0x23
  pub mac : slice f.payload 5 11 ≡ f.identity.mac
  pub address :
      (address_text (slice f.payload 1 5) ≡ some source.host)
      ⊎ (address_text (slice f.payload 1 5) ≡ some unspecified)

abbrev pub reply_of : OuterFrame → Endpoint → DiscoveryResult
reply_of f source = record {
  identity = f.identity;
  host = source.host;
  source = source;
  sequence = f.sequence;
}

-- The result of a test, with what it says of the frame.
abbrev pub Verdict : Type 0 → DiscoveryResult → Result (Option DiscoveryResult) → Type 0
Verdict P result r = (P × (r ≡ ok (some result))) ⊎ ((¬ P) × (r ≡ ok none))

address-Verdict :
    (f : OuterFrame) (source : Endpoint) (text : Option Text)
    → Verdict
        ((text ≡ some source.host) ⊎ (text ≡ some unspecified))
        (reply_of f source)
        (ok (from_address f source text))
address-Verdict f source none = inr (λ x. elim x [ inl e ↦ cc e | inr e ↦ cc e ], refl)
address-Verdict f source (some text) = elim (Bool-cases (bytes_eq text source.host)) [
  | inl t ↦ inl (inl (ap some (bytes_eq→eq text source.host t)), rw t refl)
  | inr t ↦ elim (Bool-cases (bytes_eq text unspecified)) [
    | inl u ↦ inl (inr (ap some (bytes_eq→eq text unspecified u)), rw (t, u) refl)
    | inr u ↦
        inr
          (λ x. elim x [ inl e ↦ no source.host e t | inr e ↦ no unspecified e u ], rw (t, u) refl)
  ]
]
  where
    no : (other : Text) → some text ≡ some other → bytes_eq text other ≡ false → ⊥
    no other e n = absurd (cc (n, bytes_eq_self text, e))

read_reply-Verdict :
    (f : OuterFrame) (source : Endpoint)
    → Verdict (IsReply f source) (reply_of f source) (read_reply f source)
unfolding read_reply
read_reply-Verdict f source =
    elim (Bool-cases (
      not (source.port == device_port) || not (f.operation == 0x06) || ltb (length f.payload) 11)) [
        | inl t ↦ inr (λ x. ground (arith, t, x.port, x.operation, x.long), rw t refl)
        | inr t ↦
            let long : 11 ≤ length f.payload = ground (arith, t) in
            let first = at-get_or f.payload 0 (omega arith) in
            elim (Bool-cases (get_or f.payload 0 0 == 0x23)) [
              | inr u ↦ inr (λ x. ground (arith, u, x.marker), rw (t, first, u) refl)
              | inl u ↦ elim (Bool-cases (bytes_eq (slice f.payload 5 11) f.identity.mac)) [
                | inr m ↦ inr (
                  λ x. cc (m, bytes_eq_self (slice f.payload 5 11), x.mac),
                  rw (t, first, u, m) refl,
                )
                | inl m ↦ elim (address-Verdict f source (address_text (slice f.payload 1 5))) [
                  | inr (n, e) ↦ inr (λ x. n x.address, rw (t, first, u, m) e)
                  | inl (a, e) ↦ inl (
                    record {
                      port = ground (arith, t);
                      operation = ground (arith, t);
                      long = long;
                      marker = ground (arith, u);
                      mac = bytes_eq→eq _ _ m;
                      address = a;
                    },
                    rw (t, first, u, m) e,
                  )
                ]
              ]
            ]
      ]

Parsed-cases :
    (datagram : Bytes)
    → IsBytes datagram
    → ((x : Rejection) × (parse_outer_frame datagram ≡ ok (rejected x)))
      ⊎ ((f : OuterFrame) × (parse_outer_frame datagram ≡ ok (frame f)))
Parsed-cases datagram b = let (p, e, _) = parse_outer_frame_total datagram b in split p e
  where
    split :
        (p : Parsed)
        → parse_outer_frame datagram ≡ ok p
        → ((x : Rejection) × (parse_outer_frame datagram ≡ ok (rejected x)))
          ⊎ ((f : OuterFrame) × (parse_outer_frame datagram ≡ ok (frame f)))
    split (rejected x) e = inl (x, e)
    split (frame f) e = inr (f, e)

-- A datagram that is such a reply.
abbrev pub Replied : Bytes → Endpoint → OuterFrame → Type 0
Replied datagram source f = IsFrame f × (datagram ≡ envelope f) × IsReply f source

-- On any datagram of bytes decode_discovery_reply raises nothing. It returns a result exactly for the
-- layout of a frame with operation 6 from port 11530 whose payload carries 0x23, the sender's address
-- or 0.0.0.0 in dotted form, and the frame's own MAC; the result has the frame's identity and sequence
-- and the sender's address.
pub decode_discovery_reply-Verdict :
    (datagram : Bytes) (source : Endpoint)
    → IsBytes datagram
    → ((f : OuterFrame) × Replied datagram source f
        × (decode_discovery_reply datagram source ≡ ok (some (reply_of f source))))
      ⊎ ((¬ ((f : OuterFrame) × Replied datagram source f))
          × (decode_discovery_reply datagram source ≡ ok none))
unfolding decode_discovery_reply reply_parsed valid_source
decode_discovery_reply-Verdict datagram source b = elim (Parsed-cases datagram b) [
  | inl (x, p) ↦ inr (λ (f, (v, q, _)). cc (p, parse_outer_frame-envelope f v, q), rw p refl)
  | inr (f, p) ↦ elim (Bool-cases (leb source.port 0xFFFF)) [
    | inr t ↦ inr (λ (_, (_, _, x)). ground (arith, t, x.port), rw (p, t) refl)
    | inl t ↦ elim (read_reply-Verdict f source) [
      | inl (x, e) ↦
          let (v, q) = parse_outer_frame_sound datagram f b p in inl (f, (v, q, x), rw (p, t) e)
      | inr (n, e) ↦
          inr (λ (g, (v, q, x)). n (subst (λ g. IsReply g source) (same g v q p) x), rw (p, t) e)
    ]
  ]
]
  where
    same :
        (g : OuterFrame)
        → IsFrame g
        → datagram ≡ envelope g
        → {f : OuterFrame} → parse_outer_frame datagram ≡ ok (frame f)
        → g ≡ f
    same g v q p = ground (arith, p, ap parse_outer_frame q ∙ parse_outer_frame-envelope g v)
