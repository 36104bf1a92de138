-- ===== src/Outer.antt =====
-- The outer UDP envelope of protocols/base.py: `build_outer_frame`, `parse_outer_frame`,
-- `valid_source` and `outer_metadata`.
pub mod Totality
pub mod RoundTrip
pub mod Headers
use ha_352air_legacy_local.Base.{
  ℕ, ◌+◌, ◌-◌, ◌*◌, Bool, true, false, Option, none, some, List, [], ◌∷◌, ◌++◌, ◌==◌, ltb, leb,
  ◌&&◌, not, if◌then◌else◌, length, drop, Result, ok, err, value_error, ◌>>=◌, ◌>>◌, require,
}
use ha_352air_legacy_local.Base.Bytes.{Bytes, at, slice, int_from_bytes, bytes_of, to_bytes_2}
use ha_352air_legacy_local.Models.{HeaderIdentity, CommandContext, make_identity}
use ha_352air_legacy_local.Models.State.{Dict, insert, Endpoint}

abbrev pub outer_marker : ℕ
outer_marker = 0xA1

abbrev pub outer_header_length : ℕ
outer_header_length = 16

abbrev pub normal_outer_operation : ℕ
normal_outer_operation = 0x04

abbrev pub discovery_outer_operation : ℕ
discovery_outer_operation = 0x04

pub record OuterFrame : Type 0 where
  pub identity : HeaderIdentity
  pub operation : ℕ
  pub sequence : ℕ
  pub payload : Bytes

-- An optional argument: `given if given is not None else default`.
abbrev pub or_default {ℓ} : {A : Type ℓ} → Option A → A → A
or_default none a = a
or_default (some b) a = b

-- The keyword arguments `operation` and `identity` are optional.
unfoldable pub build_outer_frame :
    CommandContext → Bytes → Option ℕ → Option HeaderIdentity → Result Bytes
build_outer_frame context payload operation identity = do
  require (leb (length payload) 0xF8) value_error
  let header = or_default identity context.identity
  let operation_byte = or_default operation context.outer_operation
  require (leb operation_byte 0xFF) value_error
  start ← bytes_of (outer_marker ∷ operation_byte ∷ [])
  lengths ← bytes_of ((length payload + 7) ∷ 0 ∷ [])
  sequence ← to_bytes_2 context.outer_sequence
  kinds ← bytes_of (header.company ∷ header.wire_type ∷ [])
  auth ← to_bytes_2 header.auth
  ok (start ++ (header.mac ++ (lengths ++ (sequence ++ (kinds ++ (auth ++ payload))))))

-- The reasons handed to `on_reject`. The first, `outer_input_type`, is for what is not bytes.
pub data Rejection : Type 0 where
  outer_too_short outer_header outer_declared_length outer_length_mismatch : Rejection
  outer_identity : Rejection

-- None with its reason, or the frame.
pub data Parsed : Type 0 where
  rejected : Rejection → Parsed
  frame : OuterFrame → Parsed

-- The `try` round `HeaderIdentity(…)`, and the frame that is returned behind it.
with_identity : ℕ → ℕ → Bytes → Result HeaderIdentity → Parsed
with_identity operation sequence payload (err e) = rejected outer_identity
with_identity operation sequence payload (ok identity) =
    frame (record {
      identity = identity;
      operation = operation;
      sequence = sequence;
      payload = payload;
    })

-- The header's identity and the frame, once the declared lengths agree.
read_frame : Bytes → Result Parsed
unfolding with_identity
read_frame datagram = do
  company ← at datagram 12
  wire_type ← at datagram 13
  operation ← at datagram 1
  ok (
      with_identity operation (int_from_bytes (slice datagram 10 12)) (drop 16 datagram) (
        make_identity (slice datagram 2 8) company wire_type
          (int_from_bytes (slice datagram 14 16))))

check_lengths : Bytes → ℕ → Result Parsed
unfolding read_frame
check_lengths datagram encoded_length =
    if ltb encoded_length 7
    then ok (rejected outer_declared_length)
    else if not (length datagram == outer_header_length + (encoded_length - 7))
    then ok (rejected outer_length_mismatch)
    else read_frame datagram

check_header : Bytes → Result Parsed
unfolding check_lengths
check_header datagram = do
  marker ← at datagram 0
  reserved ← at datagram 9
  encoded_length ← at datagram 8
  let framed = marker == outer_marker && reserved == 0
  if framed then check_lengths datagram encoded_length else ok (rejected outer_header)

unfoldable pub parse_outer_frame : Bytes → Result Parsed
unfolding check_header
parse_outer_frame datagram =
    if ltb (length datagram) outer_header_length
    then ok (rejected outer_too_short)
    else check_header datagram

-- The host is text and the port an int by their types; the range of the port is checked.
unfoldable pub valid_source : Endpoint → Option Endpoint
valid_source source = if leb source.port 0xFFFF then some source else none

unfoldable pub outer_metadata : OuterFrame → Dict
outer_metadata f = ("outer_operation", f.operation) ∷ ("payload_length", length f.payload) ∷ []
