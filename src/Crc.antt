-- ===== src/Crc.antt =====
-- CRC-16/GENIBUS and the F072 checksum tests of protocols/base.py.
pub mod Register
pub mod Detection
use ha_352air_legacy_local.Base.{
  ℕ, zero, suc, ◌+◌, ◌-◌, ◌*◌, ◌/◌, ◌%◌, Bool, true, false, List, [], ◌∷◌, ◌==◌, ltb, ◌&&◌, ◌||◌,
  not, if◌then◌else◌, length, take, drop, ◌≡◌, refl, bit_xor,
}
use ha_352air_legacy_local.Base.Bytes.{
  Bytes, slice, but_last_two, last_two, int_from_bytes, bytes_eq,
}

-- ((crc << 1) ^ 0x1021) & 0xFFFF if crc & 0x8000 else (crc << 1) & 0xFFFF
abbrev pub shift_bit : ℕ → ℕ
shift_bit crc = if crc / 0x8000 % 2 == 1 then bit_xor (crc * 2) 0x1021 % 65536 else crc * 2 % 65536

-- for _ in range(8)
unfoldable pub shift_bits : ℕ → ℕ → ℕ
shift_bits zero crc = crc
shift_bits (suc n) crc = shift_bits n (shift_bit crc)

-- for byte in data
unfoldable pub crc_loop : ℕ → Bytes → ℕ
unfolding shift_bits
crc_loop crc [] = crc
crc_loop crc (byte ∷ rest) = crc_loop (shift_bits 8 (bit_xor crc (byte * 256))) rest

unfoldable pub crc16_genibus : Bytes → ℕ
unfolding crc_loop
crc16_genibus bytes = bit_xor (crc_loop 0xFFFF bytes) 0xFFFF

-- The check value of CRC-16/GENIBUS is its checksum of "123456789".
crc16_genibus_check :
    crc16_genibus (0x31 ∷ 0x32 ∷ 0x33 ∷ 0x34 ∷ 0x35 ∷ 0x36 ∷ 0x37 ∷ 0x38 ∷ 0x39 ∷ []) ≡ 0xD64E
unfolding crc16_genibus
crc16_genibus_check = refl

abbrev pub f072_prefix : Bytes
f072_prefix = 0xF0 ∷ 0x72 ∷ []

unfoldable pub f072_request_crc_is_valid : Bytes → Bool
f072_request_crc_is_valid frame =
    if ltb (length frame) 15 || not (bytes_eq (take 2 frame) f072_prefix)
    then false
    else if not (int_from_bytes (slice frame 2 4) == length frame - 2)
    then false
    else crc16_genibus (drop 2 (but_last_two frame)) == int_from_bytes (last_two frame)

unfoldable pub f072_response_crc_is_valid : Bytes → Bool
f072_response_crc_is_valid frame =
    if ltb (length frame) 9 || not (bytes_eq (take 2 frame) f072_prefix)
    then false
    else crc16_genibus (drop 2 (but_last_two frame)) == int_from_bytes (last_two frame)

unfoldable pub f072_crc_is_valid : Bytes → Bool
unfolding f072_request_crc_is_valid f072_response_crc_is_valid
f072_crc_is_valid frame = f072_request_crc_is_valid frame || f072_response_crc_is_valid frame
