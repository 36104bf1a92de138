-- ===== src/Coap/Messages.antt =====
-- A message that encode builds is the one that decode returns, and decode ends on any datagram.
use ha_352air_legacy_local.Base.{
  ℕ, suc, ◌/◌, ◌%◌, ◌≤◌, ◌≡◌, refl, ap, ◌∙◌, sym, inl, inr, false, List, [], ◌∷◌, ◌++◌, ◌==◌, leb,
  ltb, ◌&&◌, ◌||◌, length, length-append, take, drop, take-length, drop-length, ok, arith,
  Result-cases, Bool-cases,
}
use mathlib.Core.Path.{subst}
use ha_352air_legacy_local.Base.Bytes.{Bytes, at, to_bytes_2-ok, int_from_bytes-two}
use ha_352air_legacy_local.Coap.{
  Part, Options, all_parts, starts_with_slash, payload_bytes, encode, encode_parts, read_options,
  read_payload, decode,
}
use ha_352air_legacy_local.Coap.Options.{collect, Ends, read_options-encode_parts}

-- The datagram that encode returns, and when.
abbrev message_bytes : ℕ → Bytes → Bytes → Bytes → Bytes
message_bytes mid token parts body =
    0x48 ∷ 0x01 ∷ mid / 256 ∷ mid % 256 ∷ (token ++ (parts ++ payload_bytes body))

encode_parts-of :
    (mid : ℕ) (token path body datagram : Bytes) (options : List Part)
    → encode mid token path body options ≡ ok datagram
    → (mid ≤ 65535)
      × (length token ≡ 8)
      × ((parts : Bytes) × (encode_parts 0 (all_parts path options) ≡ ok parts)
          × (message_bytes mid token parts body ≡ datagram))
unfolding encode
encode_parts-of mid token path body datagram options e =
    elim (Bool-cases (leb mid 65535 && length token == 8 && starts_with_slash path)) [
      | inr f ↦ absurd (ground (arith, e, f))
      | inl t ↦
          let small : mid ≤ 65535 = ground (arith, t) in
          let two = to_bytes_2-ok mid (omega arith) in
          elim (Result-cases (encode_parts 0 (all_parts path options))) [
            | inr (_, f) ↦ absurd (ground (arith, e, t, two, f))
            | inl (parts, f) ↦ (small, ground (arith, t), (parts, f, ground (arith, e, t, two, f)))
          ]
    ]

payload_bytes-Ends : (body : Bytes) → Ends (payload_bytes body)
payload_bytes-Ends [] = tt
payload_bytes-Ends (b ∷ body) = refl

read_payload-bytes : (body : Bytes) → read_payload (payload_bytes body) ≡ ok body
unfolding read_payload
read_payload-bytes [] = refl
read_payload-bytes (b ∷ body) = refl

decode_message :
    (mid : ℕ) (token parts body : Bytes) (opts : Options)
    → length token ≡ 8
    → length (message_bytes mid token parts body) ≤ 16384
    → read_options
        (suc (length (message_bytes mid token parts body)))
        0
        (parts ++ payload_bytes body)
        []
      ≡ ok (opts, payload_bytes body)
    → decode (message_bytes mid token parts body)
      ≡ ok (record { kind = 0; code = 1; mid = mid; token = token; options = opts; payload = body })
unfolding decode at
decode_message mid token parts body opts n l r =
    let rest = parts ++ payload_bytes body in
    let long : 12 ≤ length (message_bytes mid token parts body) =
      omega (arith, length-append token rest) in
    let begin : take 8 (token ++ rest) ≡ token =
      ap (λ k. take k (token ++ rest)) (sym n) ∙ take-length token rest in
    let end : drop 8 (token ++ rest) ≡ rest =
      ap (λ k. drop k (token ++ rest)) (sym n) ∙ drop-length token rest in
    let size = length (message_bytes mid token parts body) in
    let fits : (ltb size 4 || ltb 16384 size) ≡ false = ground arith in
    let has_token : ltb size 12 ≡ false = ground arith in
    rw (fits, has_token, end, r, read_payload-bytes body, int_from_bytes-two mid, begin) refl

-- A message that encode builds, of at most 16384 bytes, is what decode returns: a confirmable GET with
-- the same mid, token and payload, whose options are the path's and the given ones, by number.
pub decode-encode :
    (mid : ℕ) (token path body datagram : Bytes) (options : List Part)
    → encode mid token path body options ≡ ok datagram
    → length datagram ≤ 16384
    → decode datagram
      ≡ ok (record {
        kind = 0;
        code = 1;
        mid = mid;
        token = token;
        options = collect (all_parts path options) [];
        payload = body;
      })
decode-encode mid token path body datagram options e l =
    let (small, n, (parts, p, shape)) = encode_parts-of mid token path body datagram options e in
    let read =
      read_options-encode_parts (suc (length (message_bytes mid token parts body))) 0
        (all_parts path options) parts (payload_bytes body) [] p (payload_bytes-Ends body)
        (omega (arith, length-append token (parts ++ payload_bytes body))) in
    ap decode (sym shape)
    ∙ decode_message mid token parts body (collect (all_parts path options) []) n
        (subst (λ d. length d ≤ 16384) (sym shape) l) read
