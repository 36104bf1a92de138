-- ===== src/Coap/Options.antt =====
-- The options of a message: what encode writes is what decode reads, and the reading ends.
use ha_352air_legacy_local.Base.{
  ℕ, zero, suc, ◌+◌, ◌-◌, ◌*◌, ◌/◌, ◌%◌, ◌≤◌, ◌<◌, ◌≡◌, refl, ap, ◌∙◌, sym, inl, inr, true, false,
  List, [], ◌∷◌, ◌++◌, ◌==◌, leb, length, length-append, append_assoc, take-length, drop-length, ok,
  arith, Result-cases, dec_lt,
}
use ha_352air_legacy_local.Base.Bytes.{Bytes}
use mathlib.Core.Path.{subst}
use ha_352air_legacy_local.Coap.{
  Part, Options, extended, encode_parts, option_value, append_option, read_option, read_options,
}

-- A nibble and an extension that are read as `v`, whatever follows.
abbrev Reads : ℕ → ℕ × Bytes → Type 0
Reads v p = (p.0 ≤ 14) × ((rest : Bytes) → option_value (p.0) (p.1 ++ rest) ≡ ok (v, rest))

nibble-Reads : (v : ℕ) → v < 13 → Reads v (v, [])
unfolding option_value
nibble-Reads v h = (omega arith, reads)
  where
    reads : (rest : Bytes) → option_value v rest ≡ ok (v, rest)
    reads [] = ground arith
    reads (x ∷ []) = ground arith
    reads (x ∷ y ∷ rest) = ground arith

byte-Reads : (v : ℕ) → 13 ≤ v → Reads v (13, (v - 13) ∷ [])
unfolding option_value
byte-Reads v h = (omega arith, reads)
  where
    reads : (rest : Bytes) → option_value 13 ((v - 13) ∷ rest) ≡ ok (v, rest)
    reads [] = ground arith
    reads (x ∷ rest) = ground arith

word-Reads : (v : ℕ) → 269 ≤ v → Reads v (14, (v - 269) / 256 ∷ (v - 269) % 256 ∷ [])
unfolding option_value
word-Reads v h = (omega arith, λ rest. ground arith)

extended-Reads : (v : ℕ) (p : ℕ × Bytes) → extended v ≡ ok p → Reads v p
unfolding extended
extended-Reads v p e = elim (dec_lt v 13) [
  | yes a ↦ subst (Reads v) (same (v, []) (ground (arith, a, e))) (nibble-Reads v a)
  | no a ↦ elim (dec_lt v 269) [
    | yes b ↦
        subst (Reads v) (same (13, (v - 13) ∷ []) (ground (arith, a, b, e)))
          (byte-Reads v (omega arith))
    | no b ↦ elim (dec_lt 65804 v) [
      | yes c ↦ absurd (ground (arith, a, b, c, e))
      | no c ↦
          subst (Reads v)
            (same (14, (v - 269) / 256 ∷ (v - 269) % 256 ∷ []) (ground (arith, a, b, c, e)))
            (word-Reads v (omega arith))
    ]
  ]
]
  where
    same : (q : ℕ × Bytes) → ok q ≡ ok p → q ≡ p
    same q f = ground arith

-- The dictionary of a list of options, in order.
unfoldable pub collect : List Part → Options → Options
collect [] opts = opts
collect ((number, value) ∷ parts) opts = collect parts (append_option number value opts)

-- One option is written as a header and what follows it.
record IsWritten (prev number : ℕ) (value : Bytes) (parts : List Part) (out : Bytes) : Type 0 where
  delta : ℕ × Bytes
  size : ℕ × Bytes
  following : Bytes
  ordered : prev ≤ number
  delta_extended : extended (number - prev) ≡ ok delta
  size_extended : extended (length value) ≡ ok size
  rest_encoded : encode_parts number parts ≡ ok following
  written : (delta.0 * 16 + size.0) ∷ (delta.1 ++ (size.1 ++ (value ++ following))) ≡ out

encode_parts-IsWritten :
    (prev number : ℕ) (value : Bytes) (parts : List Part) (out : Bytes)
    → encode_parts prev ((number, value) ∷ parts) ≡ ok out
    → IsWritten prev number value parts out
unfolding encode_parts
encode_parts-IsWritten prev number value parts out e =
    elim (Result-cases (extended (number - prev))) [
      | inr (_, f) ↦ absurd (ground (arith, e, f))
      | inl (delta, f) ↦ elim (Result-cases (extended (length value))) [
        | inr (_, g) ↦ absurd (ground (arith, e, f, g))
        | inl (size, g) ↦ elim (Result-cases (encode_parts number parts)) [
          | inr (_, h) ↦ absurd (ground (arith, e, f, g, h))
          | inl (following, h) ↦ record {
            delta = delta;
            size = size;
            following = following;
            ordered = ground (arith, e);
            delta_extended = f;
            size_extended = g;
            rest_encoded = h;
            written = ground (arith, e, f, g, h);
          }
        ]
      ]
    ]

read_option-written :
    (prev number : ℕ) (delta size : ℕ × Bytes) (value rest : Bytes) (opts : Options)
    → prev ≤ number
    → Reads (number - prev) delta
    → Reads (length value) size
    → read_option prev (delta.0 * 16 + size.0) (delta.1 ++ (size.1 ++ (value ++ rest))) opts
      ≡ ok (number, append_option number value opts, rest)
unfolding read_option
read_option-written prev number delta size value rest opts o d s =
    let high : (delta.0 * 16 + size.0) / 16 ≡ delta.0 = omega (arith, d.0, s.0) in
    let low : (delta.0 * 16 + size.0) % 16 ≡ size.0 = omega (arith, d.0, s.0) in
    let fits : leb (length value) (length (value ++ rest)) ≡ true =
      ground (arith, length-append value rest) in
    let number' : prev + (number - prev) ≡ number = omega arith in
    rw
      (
        high,
        d.1 (size.1 ++ (value ++ rest)),
        low,
        s.1 (value ++ rest),
        fits,
        number',
        take-length value rest,
        drop-length value rest,
      )
      refl

-- What follows the options: nothing, or the payload marker.
abbrev pub Ends : Bytes → Type 0
Ends [] = Unit {0}
Ends (marker ∷ payload) = marker ≡ 0xFF

unfoldable ends :
    (fuel prev : ℕ) (tail : Bytes) (opts : Options)
    → Ends tail
    → read_options (suc fuel) prev tail opts ≡ ok (opts, tail)
unfolding read_options
ends fuel prev [] opts t = refl
ends fuel prev (marker ∷ payload) opts t = rw t refl

one_round :
    (fuel prev header number : ℕ) (input rest : Bytes) (opts new : Options)
    → header < 255
    → read_option prev header input opts ≡ ok (number, new, rest)
    → read_options (suc fuel) prev (header ∷ input) opts ≡ read_options fuel number rest new
unfolding read_options
one_round fuel prev header number input rest opts new h e =
    let goes_on : (header == 0xFF) ≡ false = ground arith in rw (read_options, goes_on, e) refl

regroup : (d s v f tail : Bytes) → (d ++ (s ++ (v ++ f))) ++ tail ≡ d ++ (s ++ (v ++ (f ++ tail)))
regroup d s v f tail =
    append_assoc d (s ++ (v ++ f)) tail
    ∙ ap (◌++◌ d) (append_assoc s (v ++ f) tail ∙ ap (◌++◌ s) (append_assoc v f tail))

longer : (d s v rest : Bytes) → length rest ≤ length (d ++ (s ++ (v ++ rest)))
longer d s v rest =
    omega
      (arith, length-append d (s ++ (v ++ rest)), length-append s (v ++ rest), length-append v rest)

written_round :
    (fuel prev number : ℕ) (value : Bytes) (parts : List Part) (out tail : Bytes) (opts : Options)
    → (w : IsWritten prev number value parts out)
    → (read_options (suc fuel) prev (out ++ tail) opts
        ≡ read_options fuel number (w.following ++ tail) (append_option number value opts))
      × (length (w.following ++ tail) < length (out ++ tail))
written_round fuel prev number value parts out tail opts w =
    let d = extended-Reads (number - prev) w.delta w.delta_extended in
    let s = extended-Reads (length value) w.size w.size_extended in
    let header = w.delta.0 * 16 + w.size.0 in
    let input = w.delta.1 ++ (w.size.1 ++ (value ++ (w.following ++ tail))) in
    let shape : out ++ tail ≡ header ∷ input =
      ap (λ o. o ++ tail) (sym w.written)
      ∙ ap (◌∷◌ header) (regroup (w.delta.1) (w.size.1) value w.following tail) in
    let round =
      one_round fuel prev header number input (w.following ++ tail) opts
        (append_option number value opts) (omega (arith, d.0, s.0))
        (read_option-written prev number w.delta w.size value (w.following ++ tail) opts w.ordered d
          s) in
    (
      ap (λ o. read_options (suc fuel) prev o opts) shape ∙ round,
      omega (arith, longer (w.delta.1) (w.size.1) value (w.following ++ tail), ap length shape),
    )

pub read_options-encode_parts :
    (fuel prev : ℕ) (parts : List Part) (out tail : Bytes) (opts : Options)
    → encode_parts prev parts ≡ ok out
    → Ends tail
    → length (out ++ tail) < fuel
    → read_options fuel prev (out ++ tail) opts ≡ ok (collect parts opts, tail)
unfolding collect
read_options-encode_parts zero prev parts out tail opts e t f = absurd (omega arith)
read_options-encode_parts (suc fuel) prev [] out tail opts e t f =
    let empty : [] ≡ out = unfold encode_parts in ground (arith, e) in
    subst (λ out. read_options (suc fuel) prev (out ++ tail) opts ≡ ok (opts, tail)) empty
      (ends fuel prev tail opts t)
read_options-encode_parts (suc fuel) prev ((number, value) ∷ parts) out tail opts e t f =
    let w = encode_parts-IsWritten prev number value parts out e in
    let (round, shorter) = written_round fuel prev number value parts out tail opts w in
    round
    ∙ read_options-encode_parts fuel number parts w.following tail (append_option number value opts)
        w.rest_encoded t (omega arith)
