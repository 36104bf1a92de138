-- ===== src/Coap/Totality.antt =====
-- The loop of decode ends on any datagram, and ValueError is the only exception.
use ha_352air_legacy_local.Base.{
  ℕ, zero, suc, ◌+◌, ◌*◌, ◌/◌, ◌%◌, ◌≤◌, ◌<◌, ◌≡◌, refl, ◌⊎◌, inl, inr, [], ◌∷◌, ◌==◌, leb, ltb,
  ◌||◌, length, length-drop, get_or, take, drop, Result, ok, err, value_error, arith, Bool-cases,
}
use ha_352air_legacy_local.Base.Bytes.{Bytes, at-get_or, int_from_bytes}
use ha_352air_legacy_local.Coap.{
  Options, Message, option_value, append_option, read_option, read_options, read_payload, decode,
}

-- A result, or ValueError.
abbrev Decides {ℓ κ} : {A : Type ℓ} → (A → Type κ) → Result A → Type (ℓ ⊔ κ)
Decides {A} P r = (r ≡ err value_error) ⊎ ((a : A) × (r ≡ ok a) × P a)

option_value-Decides :
    (n : ℕ) (input : Bytes) → Decides (λ p. length (p.1) ≤ length input) (option_value n input)
unfolding option_value
option_value-Decides n [] = elim (Bool-cases (ltb n 13)) [
  | inl t ↦ inr ((n, []), rw t refl, omega arith)
  | inr t ↦ inl (rw t refl)
]
option_value-Decides n (x ∷ []) = elim (Bool-cases (ltb n 13)) [
  | inl t ↦ inr ((n, x ∷ []), rw t refl, omega arith)
  | inr t ↦ elim (Bool-cases (n == 13)) [
    | inl u ↦ inr ((x + 13, []), rw (t, u) refl, omega arith)
    | inr u ↦ inl (rw (t, u) refl)
  ]
]
option_value-Decides n (x ∷ y ∷ input) = elim (Bool-cases (ltb n 13)) [
  | inl t ↦ inr ((n, x ∷ y ∷ input), rw t refl, omega arith)
  | inr t ↦ elim (Bool-cases (n == 13)) [
    | inl u ↦ inr ((x + 13, y ∷ input), rw (t, u) refl, omega arith)
    | inr u ↦ elim (Bool-cases (n == 14)) [
      | inl v ↦ inr ((x * 256 + y + 269, input), rw (t, u, v) refl, omega arith)
      | inr v ↦ inl (rw (t, u, v) refl)
    ]
  ]
]

read_option-Decides :
    (number header : ℕ) (input : Bytes) (opts : Options)
    → Decides (λ r. length (r.2) ≤ length input) (read_option number header input opts)
unfolding read_option
read_option-Decides number header input opts = elim (option_value-Decides (header / 16) input) [
  | inl e ↦ inl (rw e refl)
  | inr (delta, e, l) ↦ elim (option_value-Decides (header % 16) (delta.1)) [
    | inl f ↦ inl (rw (e, f) refl)
    | inr (size, f, m) ↦ elim (Bool-cases (leb size.0 (length size.1))) [
      | inr t ↦ inl (rw (e, f, t) refl)
      | inl t ↦ inr (
        (
          number + delta.0,
          append_option (number + delta.0) (take (size.0) (size.1)) opts,
          drop (size.0) (size.1),
        ),
        rw (e, f, t) refl,
        omega (arith, l, m, length-drop (size.0) (size.1)),
      )
    ]
  ]
]

read_options-Decides :
    (fuel number : ℕ) (input : Bytes) (opts : Options)
    → length input < fuel
    → Decides (λ _. Unit {0}) (read_options fuel number input opts)
unfolding read_options
read_options-Decides zero number input opts h = absurd (omega arith)
read_options-Decides (suc fuel) number [] opts h = inr (_, refl, tt)
read_options-Decides (suc fuel) number (header ∷ input) opts h =
    elim (Bool-cases (header == 0xFF)) [
      | inl t ↦ inr ((opts, header ∷ input), rw (read_options, t) refl, tt)
      | inr t ↦ elim (read_option-Decides number header input opts) [
        | inl e ↦ inl (rw (read_options, t, e) refl)
        | inr (r, e, l) ↦ elim (read_options-Decides fuel (r.0) (r.2) (r.1) (omega (arith, l))) [
          | inl f ↦ inl (rw (read_options, t, e, f) refl)
          | inr (q, f, _) ↦ inr (q, rw (read_options, t, e, f) refl, tt)
        ]
      ]
    ]

read_payload-Decides : (input : Bytes) → Decides (λ _. Unit {0}) (read_payload input)
unfolding read_payload
read_payload-Decides [] = inr (_, refl, tt)
read_payload-Decides (marker ∷ []) = inl refl
read_payload-Decides (marker ∷ b ∷ payload) = inr (_, refl, tt)

abbrev message : Bytes → Options → Bytes → Message
message datagram options payload = record {
  kind = get_or datagram 0 0 / 16 % 4;
  code = get_or datagram 1 0;
  mid = int_from_bytes (take 2 (drop 2 datagram));
  token = take (get_or datagram 0 0 % 16) (drop 4 datagram);
  options = options;
  payload = payload;
}

-- decode returns a message or raises ValueError, on any datagram: its loop ends, since each option
-- takes at least its header byte, and no index is out of range.
pub decode_total :
    (datagram : Bytes)
    → (decode datagram ≡ err value_error) ⊎ ((m : Message) × (decode datagram ≡ ok m))
unfolding decode
decode_total datagram = elim (Bool-cases (ltb (length datagram) 4 || ltb 16384 (length datagram))) [
  | inl t ↦ inl (rw t refl)
  | inr t ↦
      let first = at-get_or datagram 0 (ground (arith, t)) in
      let code = at-get_or datagram 1 (ground (arith, t)) in
      elim (Bool-cases (get_or datagram 0 0 / 64 == 1)) [
        | inr u ↦ inl (rw (t, first, u) refl)
        | inl u ↦
            elim (Bool-cases (
              ltb 8 (get_or datagram 0 0 % 16)
              || ltb (length datagram) (4 + get_or datagram 0 0 % 16))) [
                | inl v ↦ inl (rw (t, first, u, v) refl)
                | inr v ↦
                    elim (read_options-Decides (suc (length datagram)) 0
                      (drop (4 + get_or datagram 0 0 % 16) datagram) []
                      (omega (arith, length-drop (4 + get_or datagram 0 0 % 16) datagram))) [
                        | inl e ↦ inl (rw (t, first, u, v, code, e) refl)
                        | inr (read, e, _) ↦ elim (read_payload-Decides (read.1)) [
                          | inl f ↦ inl (rw (t, first, u, v, code, e, f) refl)
                          | inr (payload, f, _) ↦ inr (
                            message datagram (read.0) payload,
                            rw (t, first, u, v, code, e, f) refl,
                          )
                        ]
                      ]
              ]
      ]
]
