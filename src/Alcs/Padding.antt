-- ===== src/Alcs/Padding.antt =====
-- Encryption with the padding of ALCS, and back.
use ha_352air_legacy_local.Base.{
  ℕ, zero, suc, ◌+◌, ◌-◌, ◌%◌, ◌≤◌, ◌<◌, ◌≡◌, refl, ap, ◌∙◌, sym, true, false, [], ◌∷◌, ◌++◌, ◌==◌,
  leb, ltb, ◌&&◌, ◌||◌, not, length, length-append, length-take, length-drop, take, drop,
  take-length, drop-length, ok, arith,
}
use ha_352air_legacy_local.Base.Bytes.{Bytes, at, bytes_eq_self}
use ha_352air_legacy_local.Alcs.{Aes, repeated, whole, padding_of, encrypt, decrypt, unpad}

length-repeated : (n b : ℕ) → length (repeated n b) ≡ n
length-repeated zero b = refl
length-repeated (suc n) b = ap suc (length-repeated n b)

take-drop : (n : ℕ) (xs : Bytes) → take n xs ++ drop n xs ≡ xs
take-drop zero xs = refl
take-drop (suc n) [] = refl
take-drop (suc n) (x ∷ xs) = ap (◌∷◌ x) (take-drop n xs)

take_at : (n : ℕ) (xs ys : Bytes) → length xs ≡ n → take n (xs ++ ys) ≡ xs
take_at n xs ys e = ap (λ k. take k (xs ++ ys)) (sym e) ∙ take-length xs ys

drop_at : (n : ℕ) (xs ys : Bytes) → length xs ≡ n → drop n (xs ++ ys) ≡ ys
drop_at n xs ys e = ap (λ k. drop k (xs ++ ys)) (sym e) ∙ drop-length xs ys

at-repeated :
    (xs : Bytes) (n b i : ℕ) → length xs ≤ i → i < length xs + n → at (xs ++ repeated n b) i ≡ ok b
unfolding at
at-repeated [] zero b i l h = absurd (omega arith)
at-repeated [] (suc n) b zero l h = refl
at-repeated [] (suc n) b (suc i) l h = at-repeated [] n b i (omega arith) (omega arith)
at-repeated (x ∷ xs) n b zero l h = absurd (omega arith)
at-repeated (x ∷ xs) n b (suc i) l h = at-repeated xs n b i (omega arith) (omega arith)

unpad-padded :
    (front tail : Bytes) (n : ℕ)
    → 1 ≤ n
    → length tail + n ≡ 16
    → unpad front (tail ++ repeated n n) ≡ ok (front ++ tail)
unfolding unpad
unpad-padded front tail n p t =
    let size : length (tail ++ repeated n n) ≡ 16 =
      omega (arith, length-append tail (repeated n n), length-repeated n n) in
    let last : at (tail ++ repeated n n) 15 ≡ ok n =
      at-repeated tail n n 15 (omega arith) (omega arith) in
    let fits : (leb 1 n && leb n 16) ≡ true = ground arith in
    let end : drop (16 - n) (tail ++ repeated n n) ≡ repeated n n =
      drop_at (16 - n) tail (repeated n n) (omega arith) in
    let begin : take (16 - n) (tail ++ repeated n n) ≡ tail =
      take_at (16 - n) tail (repeated n n) (omega arith) in
    rw (size, last, end, begin, fits, bytes_eq_self (repeated n n)) refl

decrypt_parts :
    (h : Aes) (key front tail : Bytes) (n : ℕ)
    → 16 ≤ length key
    → length front % 16 ≡ 0
    → 1 ≤ n
    → length tail + n ≡ 16
    → (length (h.encryptor (take 16 key) front ++ h.encryptor (take 16 key) (tail ++ repeated n n))
          % 16
        ≡ 0)
      × (decrypt h
            (h.encryptor (take 16 key) front ++ h.encryptor (take 16 key) (tail ++ repeated n n))
            key
          ≡ ok (front ++ tail))
unfolding decrypt
decrypt_parts h key front tail n k f p t =
    let short : length (take 16 key) ≡ 16 = omega (arith, length-take 16 key) in
    let size : length (tail ++ repeated n n) ≡ 16 =
      omega (arith, length-append tail (repeated n n), length-repeated n n) in
    let block : length (tail ++ repeated n n) % 16 ≡ 0 = omega (arith, size) in
    let first = h.encryptor (take 16 key) front in
    let last = h.encryptor (take 16 key) (tail ++ repeated n n) in
    let first_length : length first ≡ length front =
      h.encryptor_length (take 16 key) front short f in
    let last_length : length last ≡ 16 =
      h.encryptor_length (take 16 key) (tail ++ repeated n n) short block ∙ size in
    let total : length (first ++ last) ≡ length front + 16 =
      omega (arith, length-append first last, first_length, last_length) in
    let valid : (length (first ++ last) == 0
          || not (length (first ++ last) % 16 == 0)
          || ltb (length key) 16)
        ≡ false =
      ground (arith, total, f) in
    let begin : take (length (first ++ last) - 16) (first ++ last) ≡ first =
      take_at _ first last (omega (arith, total, first_length)) in
    let end : drop (length (first ++ last) - 16) (first ++ last) ≡ last =
      drop_at _ first last (omega (arith, total, first_length)) in
    (
      omega (arith, total, f),
      rw
          (
            valid,
            begin,
            end,
            h.decryptor_encryptor (take 16 key) front short f,
            h.decryptor_encryptor (take 16 key) (tail ++ repeated n n) short block,
          )
          (unpad-padded front tail n p t),
    )

-- decrypt returns what encrypt was given, for any payload that is not empty and any key of at least 16
-- bytes.
pub decrypt-encrypt :
    (h : Aes) (payload key : Bytes)
    → 1 ≤ length payload
    → 16 ≤ length key
    → (cipher : Bytes) × (encrypt h payload key ≡ ok cipher)
      × (length cipher % 16 ≡ 0)
      × (decrypt h cipher key ≡ ok payload)
unfolding encrypt
decrypt-encrypt h payload key p k =
    let n = whole payload in
    let valid : (length payload == 0 || ltb (length key) 16) ≡ false = ground arith in
    let (even, back) =
      decrypt_parts h key (take n payload) (drop n payload) (padding_of payload) k
        (omega (arith, length-take n payload)) (omega arith)
        (omega (arith, length-drop n payload)) in
    (
      h.encryptor (take 16 key) (take n payload)
          ++ h.encryptor (take 16 key)
              (drop n payload ++ repeated (padding_of payload) (padding_of payload)),
      rw valid refl,
      even,
      back ∙ ap ok (take-drop n payload),
    )
