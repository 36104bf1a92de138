-- ===== src/A5a0/Reading.antt =====
-- What `A5A0Codec.decode` does with any datagram.
use ha_352air_legacy_local.Base.{
  ℕ, ◌%◌, ◌<◌, ◌≤◌, ◌≡◌, refl, ◌⊎◌, inl, inr, true, none, some, [], ◌∷◌, ◌++◌, ◌==◌, ◌&&◌, one_of,
  length, length-append, length-take, length-drop, take, drop, get_or, ok, ◌>>=◌, arith, ℕ_discrete,
  if_elim, All-get_or, All-append, All-take, All-drop, le→leb,
}
use ha_352air_legacy_local.Base.Bytes.{bytes_eq, Bytes, IsByte, IsBytes, at-get_or, slice}
use ha_352air_legacy_local.Models.{PacketKind, mode_int, ModeValue}
use ha_352air_legacy_local.Models.Laws.{mode_int-known_mode}
use ha_352air_legacy_local.Models.State.{DeviceState, Endpoint, DecodedPacket}
use ha_352air_legacy_local.Outer.{
  OuterFrame, outer_metadata, frame, rejected, Parsed, parse_outer_frame, valid_source,
}
use ha_352air_legacy_local.Outer.Totality.{envelope, IsFrame}
use ha_352air_legacy_local.Outer.RoundTrip.{
  parse_outer_frame-envelope, parse_outer_frame_total, parse_outer_frame_sound,
}
use ha_352air_legacy_local.Packet.{IsPacketOf, Outcome}
use ha_352air_legacy_local.A5a0.{state_response_prefix, safe_cumulative_volume}
use ha_352air_legacy_local.A5a0.Decode.{
  decode, decode_payload, decode_state, decode_ack, read_state, state_of, StateBytes, packet_of,
}

pub decode_framed :
    (f : OuterFrame) (source : Endpoint)
    → IsFrame f
    → source.port ≤ 0xFFFF
    → f.identity.wire_type ≡ 2
    → decode (envelope f) source ≡ decode_payload f source
unfolding decode valid_source
decode_framed f source v p w =
    ground (arith, parse_outer_frame-envelope f v, le→leb source.port 0xFFFF p)

-- The indexed bytes of a payload of at least 28 bytes.
abbrev bytes_at : Bytes → StateBytes
bytes_at payload = record {
  packed = get_or payload 3 0;
  raw_speed = get_or payload 4 0;
  raw_timer = get_or payload 5 0;
  raw_air_quality = get_or payload 6 0;
  raw_lock = get_or payload 7 0;
  raw_display = get_or payload 8 0;
  raw_power = get_or payload 9 0;
  processed_exponent = get_or payload 21 0;
  purified_exponent = get_or payload 24 0;
  linkage = get_or payload 27 0;
}

read_state-ok : (payload : Bytes) → 28 ≤ length payload → read_state payload ≡ ok (bytes_at payload)
unfolding read_state
read_state-ok payload q = rw (
  at-get_or payload 3 (omega arith),
  at-get_or payload 4 (omega arith),
  at-get_or payload 5 (omega arith),
  at-get_or payload 6 (omega arith),
  at-get_or payload 7 (omega arith),
  at-get_or payload 8 (omega arith),
  at-get_or payload 9 (omega arith),
  at-get_or payload 21 (omega arith),
  at-get_or payload 24 (omega arith),
  at-get_or payload 27 (omega arith),
)

-- What is promised of the observations: each number is within its field's range, and a field whose
-- byte stands for nothing known is absent.
pub record IsObservation (s : DeviceState) : Type 0 where
  pub mode_range : (m : ModeValue) → s.mode ≡ some m → mode_int m < 16
  pub speed_range : (n : ℕ) → s.speed ≡ some n → (1 ≤ n) × (n ≤ 6)
  pub timer_known : (n : ℕ) → s.timer_hours ≡ some n → one_of n (0 ∷ 1 ∷ 2 ∷ 3 ∷ 5 ∷ 8 ∷ []) ≡ true
  pub filter_range : (n : ℕ) → s.filter_type_raw ≡ some n → n < 16
  pub processed_exponent_range :
      (n e : ℕ) → s.processed_air_m3 ≡ some n → s.processed_air_exponent ≡ some e → e ≤ 4
  pub purified_exponent_range :
      (n e : ℕ) → s.purified_air_m3 ≡ some n → s.purified_air_exponent ≡ some e → e ≤ 4

state_of-IsObservation :
    (payload : Bytes) (b : StateBytes) → IsByte b.packed → IsObservation (state_of payload b)
unfolding state_of safe_cumulative_volume
state_of-IsObservation payload b q = record {
  mode_range = λ m e. ground (arith, mode_int-known_mode (b.packed % 16));
  speed_range = λ n e. ground arith;
  timer_known = λ n e. ground arith;
  filter_range = λ n e. ground arith;
  processed_exponent_range = λ n x e f. ground arith;
  purified_exponent_range = λ n x e f. ground arith;
}

-- A state report with its observations, or an acknowledgement with none.
abbrev pub IsReport : DecodedPacket → Type 0
IsReport p =
    ((p.kind ≡ PacketKind.state) × ((s : DeviceState) × (p.observed ≡ some s) × IsObservation s))
    ⊎ ((p.kind ≡ PacketKind.ack) × (p.observed ≡ none))

state-Outcome :
    (f : OuterFrame) (payload : Bytes) (source : Endpoint)
    → 28 ≤ length payload
    → IsBytes payload
    → Outcome IsReport f source (decode_state f payload source >>= λ p. ok (some p))
unfolding decode_state
state-Outcome f payload source q b =
    let s = state_of payload (bytes_at payload) in
    let p = packet_of f PacketKind.state (some s) source (outer_metadata f) in
    let sound =
      state_of-IsObservation payload (bytes_at payload)
        (All-get_or IsByte payload 3 0 b (omega arith)) in
    rw (read_state-ok payload q) (inr (p, refl, (inl (refl, (s, refl, sound)), refl, refl, refl)))

ack-Outcome : (f : OuterFrame) (source : Endpoint) → Outcome IsReport f source (decode_ack f source)
unfolding decode_ack
ack-Outcome f source = elim (ℕ_discrete (length f.payload) 7) [
  | yes q ↦ ground (
    arith,
    at-get_or f.payload 0 (omega arith),
    at-get_or f.payload 6 (omega arith),
    at-get_or f.payload 3 (omega arith),
    at-get_or f.payload 4 (omega arith),
  )
  | no q ↦ inl (ground arith)
]

one_long :
    (xs : Bytes)
    → (bytes_eq (take 3 xs) state_response_prefix && length xs == 33) ≡ true
    → 28 ≤ length xs
one_long xs e = ground arith

two_length :
    (xs : Bytes)
    → (bytes_eq (take 3 xs) state_response_prefix
        && (length xs == 65 && bytes_eq (slice xs 33 35) (0x5A ∷ 0xA1 ∷ [])))
      ≡ true
    → length xs ≡ 65
two_length xs e = ground arith

-- The route byte and the second record of a double report.
last_record_long : (xs : Bytes) → length xs ≡ 65 → 28 ≤ length (take 1 xs ++ drop 33 xs)
last_record_long xs e =
    omega (arith, length-append (take 1 xs) (drop 33 xs), length-take 1 xs, length-drop 33 xs)

last_record-IsBytes : (xs : Bytes) → IsBytes xs → IsBytes (take 1 xs ++ drop 33 xs)
last_record-IsBytes xs b =
    All-append IsByte (take 1 xs) (drop 33 xs) (All-take IsByte 1 xs b) (All-drop IsByte 33 xs b)

payload-Outcome :
    (f : OuterFrame) (source : Endpoint)
    → IsBytes f.payload
    → Outcome IsReport f source (decode_payload f source)
unfolding decode_payload
payload-Outcome f source b =
    if_elim (Outcome IsReport f source) _ _ _
      (λ one. state-Outcome f f.payload source (one_long f.payload one) b)
      λ _.
        if_elim (Outcome IsReport f source) _ _ _
          (λ two.
            state-Outcome f (take 1 f.payload ++ drop 33 f.payload) source
              (last_record_long f.payload (two_length f.payload two))
              (last_record-IsBytes f.payload b))
          λ _. ack-Outcome f source

abbrev pub Accepted : Bytes → Endpoint → Type 0
Accepted datagram source =
    (f : OuterFrame) × (p : DecodedPacket) × (datagram ≡ envelope f)
    × (f.identity.wire_type ≡ 2)
    × (source.port ≤ 0xFFFF)
    × (decode datagram source ≡ ok (some p))
    × IsPacketOf IsReport f source p

parsed_outcome :
    (datagram : Bytes) (source : Endpoint) (p : Parsed)
    → IsBytes datagram
    → parse_outer_frame datagram ≡ ok p
    → (decode datagram source ≡ ok none) ⊎ Accepted datagram source
unfolding decode valid_source
parsed_outcome datagram source (rejected r) b e = inl (rw e)
parsed_outcome datagram source (frame f) b e =
    let (v, q) = parse_outer_frame_sound datagram f b e in
    ground (arith, payload-Outcome f source v.payload_bytes)

-- On any datagram of bytes `decode` raises nothing. What it returns, if not None, is a packet of a
-- frame that the datagram is the layout of, with wire type 2 and a peer port of 16 bits: it carries
-- the frame's identity and sequence and the peer's address, and is a state report whose observations
-- are within their ranges or an acknowledgement without observations.
pub decode_a5a0_outcome :
    (datagram : Bytes) (source : Endpoint)
    → IsBytes datagram
    → (decode datagram source ≡ ok none) ⊎ Accepted datagram source
decode_a5a0_outcome datagram source b =
    let (p, e, _) = parse_outer_frame_total datagram b in parsed_outcome datagram source p b e
