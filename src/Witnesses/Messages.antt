-- ===== src/Witnesses/Messages.antt =====
-- CoAP messages and a power transaction.
use ha_352air_legacy_local.Base.{
  ◌%◌, ◌≡◌, refl, true, some, List, [], ◌∷◌, ◌++◌, length, ok, err, timeout_error, value_error, ◌⊎◌,
  arith,
}
use ha_352air_legacy_local.Base.Bytes.{Bytes, to_bytes_2}
use ha_352air_legacy_local.Coap.{
  Part, Message, encode, encode_parts, sort_parts, insert_part, extended, decode, all_parts,
}
use ha_352air_legacy_local.Coap.Options.{collect}
use ha_352air_legacy_local.Coap.Messages.{decode-encode}
use ha_352air_legacy_local.Coap.Totality.{decode_total}
use ha_352air_legacy_local.Alcs.{Aes, Network, replied, encrypt, decrypt, set_power, an_int}
use ha_352air_legacy_local.Alcs.Padding.{decrypt-encrypt}
use ha_352air_legacy_local.Alcs.Power.{Outcome, set_power-Outcome}

abbrev token : Bytes
token = 1 ∷ 2 ∷ 3 ∷ 4 ∷ 5 ∷ 6 ∷ 7 ∷ 8 ∷ []

-- /a/b
abbrev path : Bytes
path = 0x2F ∷ 0x61 ∷ 0x2F ∷ 0x62 ∷ []

abbrev session : List Part
session = (12, 0x2A ∷ []) ∷ (71, 0 ∷ 0 ∷ 1 ∷ 2 ∷ []) ∷ []

abbrev request : Bytes
request =
    0x48
    ∷ 0x01
    ∷ 0x12
    ∷ 0x34
    ∷ (token
        ++ (0xB1 ∷ 0x61 ∷ 0x01 ∷ 0x62 ∷ 0x11 ∷ 0x2A ∷ 0xD4 ∷ 46 ∷ 0 ∷ 0 ∷ 1 ∷ 2 ∷ 0xFF ∷ 0x7B ∷ 0x7D
            ∷ []))

request_encoded : encode 0x1234 token path (0x7B ∷ 0x7D ∷ []) session ≡ ok request
unfolding encode encode_parts sort_parts insert_part extended to_bytes_2
request_encoded = refl

decode-encode_example :
    decode request
    ≡ ok (record {
      kind = 0;
      code = 1;
      mid = 0x1234;
      token = token;
      options = collect (all_parts path session) [];
      payload = 0x7B ∷ 0x7D ∷ [];
    })
decode-encode_example =
    decode-encode 0x1234 token path (0x7B ∷ 0x7D ∷ []) request session request_encoded (omega arith)

decode_total_example :
    (decode (0x48 ∷ 0x01 ∷ 0 ∷ 1 ∷ []) ≡ err value_error)
    ⊎ ((m : Message) × (decode (0x48 ∷ 0x01 ∷ 0 ∷ 1 ∷ []) ≡ ok m))
decode_total_example = decode_total (0x48 ∷ 0x01 ∷ 0 ∷ 1 ∷ [])

-- A cipher that keeps its blocks.
abbrev plain : Aes
plain = record {
  encryptor = λ key payload. payload;
  decryptor = λ key payload. payload;
  decryptor_encryptor = λ key payload k p. refl;
  encryptor_length = λ key payload k p. refl;
}

decrypt-encrypt_example :
    (cipher : Bytes) × (encrypt plain (1 ∷ 2 ∷ 3 ∷ []) (token ++ token) ≡ ok cipher)
    × (length cipher % 16 ≡ 0)
    × (decrypt plain cipher (token ++ token) ≡ ok (1 ∷ 2 ∷ 3 ∷ []))
decrypt-encrypt_example =
    decrypt-encrypt plain (1 ∷ 2 ∷ 3 ∷ []) (token ++ token) (omega arith) (omega arith)

-- A device that is off and does not answer the write.
abbrev deaf : Network
deaf = record {
  auth_reply = λ sent. replied (ok tt);
  get_reply = λ sent. replied (ok (some (an_int 0)));
  set_reply = λ sent b. replied (err timeout_error);
}

set_power-Outcome_example : Outcome deaf true (set_power deaf true)
set_power-Outcome_example = set_power-Outcome deaf true
