-- ===== src/Coap.antt =====
-- The CoAP messages of protocols/alcs_experimental.py. A position in the datagram is the bytes that
-- follow it. A path is its UTF-8 bytes: a slash is a byte of its own there.
pub mod Options
pub mod Messages
pub mod Totality
use ha_352air_legacy_local.Base.{
  ℕ, zero, suc, ◌+◌, ◌-◌, ◌*◌, ◌/◌, ◌%◌, ◌≤◌, ◌<◌, ◌≡◌, Bool, true, false, Option, none, some, List,
  [], ◌∷◌, ◌++◌, ◌==◌, leb, ltb, ◌||◌, ◌&&◌, not, if◌then◌else◌, length, take, drop, Result, ok,
  err, value_error, index_error, ◌>>=◌, ◌>>◌, require,
}
use ha_352air_legacy_local.Base.Bytes.{Bytes, at, to_bytes_2, int_from_bytes}

-- An option of a message: its number and its value.
abbrev pub Part : Type 0
Part = ℕ × Bytes

-- _extended
unfoldable pub extended : ℕ → Result (ℕ × Bytes)
extended value =
    if ltb value 13
    then ok (value, [])
    else if ltb value 269
    then ok (13, (value - 13) ∷ [])
    else if leb value 65804
    then ok (14, (value - 269) / 256 ∷ (value - 269) % 256 ∷ [])
    else err value_error

-- Each option of `encode`'s loop; `prev` is the number before it.
unfoldable pub encode_parts : ℕ → List Part → Result Bytes
encode_parts prev [] = ok []
encode_parts prev ((number, value) ∷ parts) =
    let rest = encode_parts number parts in
    do
      require (leb prev number) value_error
      delta ← extended (number - prev)
      size ← extended (length value)
      following ← rest
      ok ((delta.0 * 16 + size.0) ∷ (delta.1 ++ (size.1 ++ (value ++ following))))

-- parts.sort(key=lambda part: part[0]), which is stable.
unfoldable pub insert_part : Part → List Part → List Part
insert_part part [] = part ∷ []
insert_part part (other ∷ parts) =
    if leb part.0 other.0 then part ∷ other ∷ parts else other ∷ insert_part part parts

unfoldable pub sort_parts : List Part → List Part
sort_parts [] = []
sort_parts (part ∷ parts) = insert_part part (sort_parts parts)

-- path.split("/"), with the bytes of the part that is read.
abbrev split_path : Bytes → Bytes → List Bytes
split_path part [] = part ∷ []
split_path part (b ∷ path) =
    if b == 0x2F then part ∷ split_path [] path else split_path (part ++ (b ∷ [])) path

-- [(11, part.encode()) for part in … if part]
abbrev path_parts : List Bytes → List Part
path_parts [] = []
path_parts ([] ∷ parts) = path_parts parts
path_parts ((b ∷ part) ∷ parts) = (11, b ∷ part) ∷ path_parts parts

abbrev pub all_parts : Bytes → List Part → List Part
all_parts path options = sort_parts (path_parts (split_path [] path) ++ options)

abbrev starts_with_slash : Bytes → Bool
starts_with_slash [] = false
starts_with_slash (b ∷ path) = b == 0x2F

abbrev pub payload_bytes : Bytes → Bytes
payload_bytes [] = []
payload_bytes (b ∷ body) = 0xFF ∷ b ∷ body

unfoldable pub encode : ℕ → Bytes → Bytes → Bytes → List Part → Result Bytes
encode mid token path body options = do
  require (leb mid 65535 && length token == 8 && starts_with_slash path) value_error
  mids ← to_bytes_2 mid
  parts ← encode_parts 0 (all_parts path options)
  ok ((0x48 ∷ 0x01 ∷ (mids ++ token)) ++ (parts ++ payload_bytes body))

-- _option_value
unfoldable pub option_value : ℕ → Bytes → Result (ℕ × Bytes)
option_value n [] = if ltb n 13 then ok (n, []) else err value_error
option_value n (x ∷ []) =
    if ltb n 13 then ok (n, x ∷ []) else if n == 13 then ok (x + 13, []) else err value_error
option_value n (x ∷ y ∷ rest) =
    if ltb n 13
    then ok (n, x ∷ y ∷ rest)
    else if n == 13
    then ok (x + 13, y ∷ rest)
    else if n == 14
    then ok (x * 256 + y + 269, rest)
    else err value_error

-- `dict[int, list[bytes]]`
abbrev pub Options : Type 0
Options = List (ℕ × List Bytes)

-- opts.setdefault(number, []).append(value)
unfoldable pub append_option : ℕ → Bytes → Options → Options
append_option number value [] = (number, value ∷ []) ∷ []
append_option number value ((other, values) ∷ opts) =
    if other == number
    then (other, values ++ (value ∷ [])) ∷ opts
    else (other, values) ∷ append_option number value opts

-- One round of `decode`'s loop, after the header byte.
unfoldable pub read_option : ℕ → ℕ → Bytes → Options → Result (ℕ × Options × Bytes)
read_option number header input opts = do
  delta ← option_value (header / 16) input
  size ← option_value (header % 16) (delta.1)
  require (leb size.0 (length size.1)) value_error
  ok (
    number + delta.0,
    append_option (number + delta.0) (take size.0 size.1) opts,
    drop size.0 size.1,
  )

-- The loop, on fuel; IndexError stands for no fuel, which the loop of the source does not have.
unfoldable pub read_options : ℕ → ℕ → Bytes → Options → Result (Options × Bytes)
read_options zero number input opts = err index_error
read_options (suc fuel) number [] opts = ok (opts, [])
read_options (suc fuel) number (header ∷ input) opts = elim (header == 0xFF) [
  | true ↦ ok (opts, header ∷ input)
  | false ↦
      (read_option number header input opts >>= λ read.
      read_options fuel (read.0) (read.2) (read.1))
]

-- What `decode` returns: kind, code, mid, token, options and payload.
pub record Message : Type 0 where
  pub kind : ℕ
  pub code : ℕ
  pub mid : ℕ
  pub token : Bytes
  pub options : Options
  pub payload : Bytes

unfoldable pub read_payload : Bytes → Result Bytes
read_payload [] = ok []
read_payload (marker ∷ []) = err value_error
read_payload (marker ∷ b ∷ payload) = ok (b ∷ payload)

unfoldable pub decode : Bytes → Result Message
decode datagram = do
  require (not (ltb (length datagram) 4 || ltb 16384 (length datagram))) value_error
  first ← at datagram 0
  require (first / 64 == 1) value_error
  let size = first % 16
  require (not (ltb 8 size || ltb (length datagram) (4 + size))) value_error
  code ← at datagram 1
  read ← read_options (suc (length datagram)) 0 (drop (4 + size) datagram) []
  payload ← read_payload read.1
  ok (record {
    kind = first / 16 % 4;
    code = code;
    mid = int_from_bytes (take 2 (drop 2 datagram));
    token = take size (drop 4 datagram);
    options = read.0;
    payload = payload;
  })
