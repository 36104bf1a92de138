-- ===== src/F072/Encoding.antt =====
-- What the F072 encoders accept and write.
use ha_352air_legacy_local.Base.{ℕ, ◌/◌, ◌%◌, ◌≡◌, true, [], ◌∷◌, ◌++◌, ok, arith}
use ha_352air_legacy_local.Base.Bytes.{
  bytes_eq, Bytes, IsByte, IsBytes, IsU16, bytes_of-ok, to_bytes_2-ok, int_from_bytes,
}
use ha_352air_legacy_local.Crc.{crc16_genibus, f072_request_crc_is_valid}
use ha_352air_legacy_local.Crc.Detection.{crc16_genibus-lt}
use ha_352air_legacy_local.F072.{single_value_frame, flow_frame, checked_frame}

-- The last four bytes before the checksum.
pub record Body : Type 0 where
  pub b0 : ℕ
  pub b1 : ℕ
  pub b2 : ℕ
  pub b3 : ℕ

pub record IsBody (b : Body) : Type 0 where
  pub byte0 : IsByte b.b0
  pub byte1 : IsByte b.b1
  pub byte2 : IsByte b.b2
  pub byte3 : IsByte b.b3

abbrev body_bytes : Body → Bytes
body_bytes b = b.b0 ∷ b.b1 ∷ b.b2 ∷ b.b3 ∷ []

-- The bytes under the checksum, and the frame of fifteen bytes.
abbrev covered : ℕ → ℕ → Body → Bytes
covered kind sequence b =
    0x00 ∷ 0x0D ∷ kind ∷ 0x04 ∷ 0x02 ∷ sequence / 256 ∷ sequence % 256 ∷ body_bytes b

abbrev pub request : ℕ → ℕ → Body → Bytes
request kind sequence b =
    let crc = crc16_genibus (covered kind sequence b) in
    0xF0 ∷ 0x72 ∷ (covered kind sequence b ++ (crc / 256 ∷ crc % 256 ∷ []))

covered-lt :
    (kind sequence : ℕ) (b : Body)
    → IsByte kind
    → IsU16 sequence
    → IsBody b
    → IsU16 (crc16_genibus (covered kind sequence b))
covered-lt kind sequence b k s v = crc16_genibus-lt (covered kind sequence b) (omega arith)

checked_frame-request :
    (kind sequence : ℕ) (b : Body)
    → IsByte kind
    → IsU16 sequence
    → IsBody b
    → checked_frame kind sequence (body_bytes b) ≡ ok (request kind sequence b)
unfolding checked_frame
checked_frame-request kind sequence b k s v = ground (
  arith,
  bytes_of-ok (kind ∷ 0x04 ∷ 0x02 ∷ []) (omega arith),
  to_bytes_2-ok sequence s,
  to_bytes_2-ok (crc16_genibus (covered kind sequence b)) (covered-lt kind sequence b k s v),
)

-- Every frame so laid out passes the test for requests.
pub request_crc-request :
    (kind sequence : ℕ) (b : Body) → f072_request_crc_is_valid (request kind sequence b) ≡ true
unfolding f072_request_crc_is_valid bytes_eq int_from_bytes
request_crc-request kind sequence b = ground arith

unfoldable pub value_body : ℕ → ℕ → Body
value_body code value = record { b0 = 0x03; b1 = code; b2 = value; b3 = 0x00 }

unfoldable pub flow_body : ℕ → Body
flow_body flow = record { b0 = 0x03; b1 = 0x58; b2 = flow / 256; b3 = flow % 256 }

pub single_value_frame-request :
    (kind sequence code value : ℕ)
    → IsByte kind
    → IsU16 sequence
    → IsByte code
    → IsByte value
    → single_value_frame kind sequence code value
      ≡ ok (request kind sequence (value_body code value))
unfolding single_value_frame value_body
single_value_frame-request kind sequence code value k s c v =
    rw (bytes_of-ok (0x03 ∷ code ∷ value ∷ 0x00 ∷ []) (omega arith))
      (checked_frame-request kind sequence (value_body code value) k s (omega arith))

pub flow_frame-request :
    (kind sequence flow : ℕ)
    → IsByte kind
    → IsU16 sequence
    → IsU16 flow
    → flow_frame kind sequence flow ≡ ok (request kind sequence (flow_body flow))
unfolding flow_frame flow_body
flow_frame-request kind sequence flow k s v =
    rw (to_bytes_2-ok flow v)
      (checked_frame-request kind sequence (flow_body flow) k s (omega arith))

pub request-IsBytes :
    (kind sequence : ℕ) (b : Body)
    → IsByte kind
    → IsU16 sequence
    → IsBody b
    → IsBytes (request kind sequence b)
request-IsBytes kind sequence b k s v = omega (arith, covered-lt kind sequence b k s v)
