-- ===== src/Alcs.antt =====
-- The client of protocols/alcs_experimental.py over its messages (Coap). AES in CBC mode with the
-- fixed vector is a parameter; the JSON of a reply is what the client reads of it.
pub mod Padding
pub mod Power
use ha_352air_legacy_local.Base.{
  ℕ, zero, suc, ◌+◌, ◌-◌, ◌*◌, ◌/◌, ◌%◌, ◌≤◌, ◌<◌, ◌≡◌, Bool, true, false, Option, none, some, List,
  [], ◌∷◌, ◌++◌, ◌==◌, leb, ltb, ◌||◌, ◌&&◌, not, if◌then◌else◌, length, take, drop, one_of, Result,
  Error, ok, err, value_error, os_error, timeout_error, cancelled_error, alcs_error,
  alcs_outcome_unknown, ◌>>=◌, ◌>>◌, require,
}
use ha_352air_legacy_local.Base.Bytes.{Bytes, at, bytes_eq, int_from_bytes}
use ha_352air_legacy_local.Coap.{Message, Options}

-- Cipher(algorithms.AES(key), modes.CBC(_IV)) of `cryptography`, for a key of 16 bytes.
pub record Aes : Type 0 where
  pub encryptor : Bytes → Bytes → Bytes
  pub decryptor : Bytes → Bytes → Bytes
  pub decryptor_encryptor :
      (key payload : Bytes)
      → length key ≡ 16
      → length payload % 16 ≡ 0
      → decryptor key (encryptor key payload) ≡ payload
  pub encryptor_length :
      (key payload : Bytes)
      → length key ≡ 16
      → length payload % 16 ≡ 0
      → length (encryptor key payload) ≡ length payload

-- bytes([b]) * n
abbrev pub repeated : ℕ → ℕ → Bytes
repeated zero b = []
repeated (suc n) b = b ∷ repeated n b

-- The whole blocks before the padded one, `len(payload) & ~15`, and the padding.
abbrev pub whole : Bytes → ℕ
whole payload = length payload / 16 * 16

abbrev pub padding_of : Bytes → ℕ
padding_of payload = 16 - (length payload - whole payload)

unfoldable pub encrypt : Aes → Bytes → Bytes → Result Bytes
encrypt h payload key = do
  require (not (length payload == 0 || ltb (length key) 16)) value_error
  let padding = padding_of payload
  ok (
      h.encryptor (take 16 key) (take (whole payload) payload)
      ++ h.encryptor (take 16 key) (drop (whole payload) payload ++ repeated padding padding))

-- The end of decrypt, with the decrypted front and last block.
unfoldable pub unpad : Bytes → Bytes → Result Bytes
unpad front last = do
  padding ← at last (length last - 1)
  require
      (leb 1 padding
        && leb padding 16
        && bytes_eq (drop (length last - padding) last) (repeated padding padding))
      value_error
  ok (front ++ take (length last - padding) last)

unfoldable pub decrypt : Aes → Bytes → Bytes → Result Bytes
decrypt h payload key = do
  require (not (length payload == 0 || not (length payload % 16 == 0) || ltb (length key) 16))
      value_error
  unpad (h.decryptor (take 16 key) (take (length payload - 16) payload))
      (h.decryptor (take 16 key) (drop (length payload - 16) payload))

-- opts.get(number, [])
unfoldable pub values_of : ℕ → Options → List Bytes
values_of number [] = []
values_of number ((other, values) ∷ opts) =
    if other == number then values else values_of number opts

-- `len(opts.get(71, [])) == 1 and 1 <= len(opts[71][0]) <= 4 and … == sid`
abbrev session_matches : Option ℕ → Options → Bool
session_matches none opts = true
session_matches (some sid) opts = elim (values_of 71 opts) [
  | [] ↦ false
  | value ∷ more ↦ elim more [
    | [] ↦ leb 1 (length value) && leb (length value) 4 && int_from_bytes value == sid
    | _ ∷ _ ↦ false
  ]
]

abbrev format_matches : Option ℕ → Options → Bool
format_matches sid opts = elim (values_of 12 opts) [
  | [] ↦ true
  | value ∷ more ↦ elim more [
    | [] ↦
        leb (length value) 2
        && one_of (int_from_bytes value) (elim sid [ none ↦ 0 ∷ 50 ∷ [] | some _ ↦ 42 ∷ [] ])
    | _ ∷ _ ↦ false
  ]
]

-- `any(n & 1 and n not in {11, 71} for n in opts)`, and `23 in opts`
unfoldable pub has_unknown_option : Options → Bool
has_unknown_option [] = false
has_unknown_option ((number, _) ∷ opts) =
    number == 23
    || (number % 2 == 1 && not (one_of number (11 ∷ 71 ∷ [])))
    || has_unknown_option opts

-- What _exchange makes of a decoded message from the device: whether it is the reply.
unfoldable pub is_reply : ℕ → Bytes → Option ℕ → Message → Bool
is_reply mid token sid m =
    bytes_eq m.token token
    && m.code == 69
    && one_of m.kind (0 ∷ 1 ∷ 2 ∷ [])
    && not (m.kind == 2 && not (m.mid == mid))
    && session_matches sid m.options
    && format_matches sid m.options
    && not (has_unknown_option m.options)

-- `data.get("PowerSwitch")` as _power reads it: an int, an object with an int as its "value" or not,
-- or anything else.
pub data PowerSwitch : Type 0 where
  an_int : ℕ → PowerSwitch
  an_object : Option ℕ → PowerSwitch
  another : PowerSwitch

abbrev power_int : ℕ → Result Bool
power_int value = if value == 0 then ok false else if value == 1 then ok true else err alcs_error

-- _power
unfoldable pub read_power : Option PowerSwitch → Result Bool
read_power (some (an_int value)) = power_int value
read_power (some (an_object (some value))) = power_int value
read_power _ = err alcs_error

-- What the client sends, and the device or the network makes of it: the reply to a message may depend
-- on all that was sent before. A call may also raise before its message is sent.
pub data Sent : Type 0 where
  auth get_property : Sent
  set_property : Bool → Sent

pub data Exchange (V : Type 0) : Type 0 where
  unsent : Error → Exchange V
  replied : Result V → Exchange V

pub record Network : Type 0 where
  pub auth_reply : List Sent → Exchange (Unit {0})
  pub get_reply : List Sent → Exchange (Option PowerSwitch)
  pub set_reply : List Sent → Bool → Exchange (Unit {0})

-- A call of _auth or _property: what was sent by its end, and what it returns or raises.
unfoldable pub ask : {V : Type 0} → Exchange V → List Sent → Sent → List Sent × Result V
ask (unsent e) before message = (before, err e)
ask (replied r) before message = (before ++ message ∷ [], r)

-- The exceptions that read and set_power catch.
abbrev pub is_caught : Error → Bool
is_caught os_error = true
is_caught timeout_error = true
is_caught value_error = true
is_caught alcs_error = true
is_caught alcs_outcome_unknown = true
is_caught _ = false

-- What was sent, in order, and the outcome.
abbrev pub Transaction : Type 0
Transaction = List Sent × Result Bool

-- self._property(…, False) after what was sent, and self._power of it.
abbrev pub get_property_call : Network → List Sent → List Sent × Result (Option PowerSwitch)
get_property_call n before = ask (n.get_reply before) before get_property

abbrev pub get_power : Network → List Sent → Result Bool
get_power n before = ((get_property_call n before).1 >>= read_power)

abbrev read_failure : Error → Error
read_failure os_error = alcs_error
read_failure timeout_error = alcs_error
read_failure value_error = alcs_error
read_failure e = e

-- read; an AlcsError is not caught there.
unfoldable pub read : Network → Transaction
read n =
    let authed = ask (n.auth_reply []) [] auth in
    elim authed.1 [
      | err e ↦ (authed.0, err (read_failure e))
      | ok _ ↦ (
        (get_property_call n authed.0).0,
        elim (get_power n authed.0) [ err e ↦ err (read_failure e) | ok b ↦ ok b ],
      )
    ]

-- The exception of set_power for one that its body raised.
abbrev pub failure : Bool → Error → Error
failure attempted e =
    if is_caught e then (if attempted then alcs_outcome_unknown else alcs_error) else e

abbrev pub same_power : Bool → Bool → Bool
same_power true b = b
same_power false b = not b

-- The end of set_power, from `attempted = True` on.
abbrev pub confirm : Network → Bool → List Sent → Transaction
confirm n desired before =
    let written = ask (n.set_reply before desired) before (set_property desired) in
    elim written.1 [
      | err e ↦ (written.0, err (failure true e))
      | ok _ ↦ (
        (get_property_call n written.0).0,
        elim (get_power n written.0) [
          | err e ↦ err (failure true e)
          | ok actual ↦
              if same_power actual desired then ok actual else err (failure true alcs_error)
        ],
      )
    ]

unfoldable pub set_power : Network → Bool → Transaction
set_power n desired =
    let authed = ask (n.auth_reply []) [] auth in
    elim authed.1 [
      | err e ↦ (authed.0, err (failure false e))
      | ok _ ↦
          let known = (get_property_call n authed.0).0 in
          elim (get_power n authed.0) [
            | err e ↦ (known, err (failure false e))
            | ok current ↦
                if same_power current desired then (known, ok current) else confirm n desired known
          ]
    ]
