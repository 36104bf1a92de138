-- ===== src/F072/Reading.antt =====
-- What `F072Codec.decode` does with any datagram.
use ha_352air_legacy_local.Base.{
  ℕ, ◌%◌, ◌<◌, ◌≤◌, ◌≡◌, refl, ◌⊎◌, inl, inr, true, none, some, [], ◌∷◌, one_of, length, get_or, ok,
  arith, ℕ_discrete, All-get_or, le→leb,
}
use ha_352air_legacy_local.Base.Bytes.{Bytes, IsByte, IsBytes, at-get_or}
use ha_352air_legacy_local.Models.{PacketKind, mode_int, ModeValue}
use ha_352air_legacy_local.Models.Laws.{mode_int-known_mode}
use ha_352air_legacy_local.Models.State.{Dict, DeviceState, Endpoint, DecodedPacket}
use ha_352air_legacy_local.Outer.{OuterFrame, valid_source}
use ha_352air_legacy_local.Outer.Totality.{envelope, IsFrame}
use ha_352air_legacy_local.Outer.RoundTrip.{parse_outer_frame-envelope}
use ha_352air_legacy_local.Packet.{Outcome}
use ha_352air_legacy_local.F072.{F072Codec, wire_type, flow_maximum_for_decode}
use ha_352air_legacy_local.F072.Decode.{
  decode, decode_payload, decode_ack, decode_x50_state, decode_g30_state, read_common, CommonBytes,
  x50_state, g30_state, g30_mode, safe_cumulative_volume,
}

pub decode_framed :
    (c : F072Codec) (f : OuterFrame) (source : Endpoint)
    → IsFrame f
    → source.port ≤ 0xFFFF
    → f.identity.wire_type ≡ wire_type c
    → decode c (envelope f) source ≡ decode_payload c f source
unfolding decode valid_source
decode_framed c f source v p w =
    ground (arith, parse_outer_frame-envelope f v, le→leb source.port 0xFFFF p)

-- The indexed bytes of a data area that is long enough.
abbrev bytes_at : Bytes → CommonBytes
bytes_at xs = record {
  packed = get_or xs 3 0;
  raw_timer = get_or xs 5 0;
  air_quality = get_or xs 6 0;
  raw_lock = get_or xs 7 0;
  raw_display = get_or xs 8 0;
  raw_power = get_or xs 9 0;
  processed_exponent = get_or xs 21 0;
  purified_exponent = get_or xs 24 0;
}

read_common-ok : (xs : Bytes) → 25 ≤ length xs → read_common xs ≡ ok (bytes_at xs)
unfolding read_common
read_common-ok xs q = rw (
  at-get_or xs 3 (omega arith),
  at-get_or xs 5 (omega arith),
  at-get_or xs 6 (omega arith),
  at-get_or xs 7 (omega arith),
  at-get_or xs 8 (omega arith),
  at-get_or xs 9 (omega arith),
  at-get_or xs 21 (omega arith),
  at-get_or xs 24 (omega arith),
)

-- What is promised of the observations of a codec: each number is within its field's range, and an
-- airflow is a step of the model's range.
pub record IsObservation (c : F072Codec) (s : DeviceState) : Type 0 where
  pub mode_range : (m : ModeValue) → s.mode ≡ some m → mode_int m < 16
  pub speed_range : (n : ℕ) → s.speed ≡ some n → (1 ≤ n) × (n ≤ 6)
  pub timer_known : (n : ℕ) → s.timer_hours ≡ some n → one_of n (0 ∷ 1 ∷ 2 ∷ 3 ∷ 5 ∷ 8 ∷ []) ≡ true
  pub filter_range : (n : ℕ) → s.filter_type_raw ≡ some n → n < 16
  pub ptc_range : (n : ℕ) → s.ptc ≡ some n → n ≤ 2
  pub airflow_step :
      (n : ℕ) → s.airflow_m3h ≡ some n → (40 ≤ n) × (n ≤ flow_maximum_for_decode c) × (n % 5 ≡ 0)
  pub processed_exponent_range :
      (n e : ℕ) → s.processed_air_m3 ≡ some n → s.processed_air_exponent ≡ some e → e ≤ 4
  pub purified_exponent_range :
      (n e : ℕ) → s.purified_air_m3 ≡ some n → s.purified_air_exponent ≡ some e → e ≤ 4

x50_state-IsObservation :
    (c : F072Codec) (xs : Bytes) (b : CommonBytes) (raw_speed linkage : ℕ)
    → IsByte b.packed
    → IsObservation c (x50_state xs b raw_speed linkage)
unfolding x50_state safe_cumulative_volume
x50_state-IsObservation c xs b raw_speed linkage q = record {
  mode_range = λ m e. ground (arith, mode_int-known_mode (b.packed % 16));
  speed_range = λ n e. ground arith;
  timer_known = λ n e. ground arith;
  filter_range = λ n e. ground arith;
  ptc_range = λ n e. cc;
  airflow_step = λ n e. absurd (cc);
  processed_exponent_range = λ n x e f. ground arith;
  purified_exponent_range = λ n x e f. ground arith;
}

mode_int-g30_mode : (n : ℕ) → mode_int (g30_mode n) ≡ n
unfolding g30_mode
mode_int-g30_mode n = ground (arith, mode_int-known_mode n)

g30_state-IsObservation :
    (c : F072Codec) (xs : Bytes) (b : CommonBytes) (raw_ptc temperature humidity : ℕ)
    → IsByte b.packed
    → IsObservation c (g30_state c xs b raw_ptc temperature humidity)
unfolding g30_state safe_cumulative_volume
g30_state-IsObservation c xs b raw_ptc temperature humidity q = record {
  mode_range = λ m e. ground (arith, mode_int-g30_mode (b.packed % 16));
  speed_range = λ n e. absurd (cc);
  timer_known = λ n e. ground arith;
  filter_range = λ n e. ground arith;
  ptc_range = λ n e. ground arith;
  airflow_step = λ n e. ground arith;
  processed_exponent_range = λ n x e f. ground arith;
  purified_exponent_range = λ n x e f. ground arith;
}

-- A state report with its observations, or an acknowledgement with none.
abbrev pub IsReport : F072Codec → DecodedPacket → Type 0
IsReport c p =
    ((p.kind ≡ PacketKind.state) × ((s : DeviceState) × (p.observed ≡ some s) × IsObservation c s))
    ⊎ ((p.kind ≡ PacketKind.ack) × (p.observed ≡ none))

pub x50-Outcome :
    (c : F072Codec) (f : OuterFrame) (xs : Bytes) (source : Endpoint) (m : Dict)
    → 30 ≤ length xs
    → IsBytes xs
    → Outcome (IsReport c) f source (decode_x50_state c f xs source m)
unfolding decode_x50_state
x50-Outcome c f xs source m q b =
    let sound =
      x50_state-IsObservation c xs (bytes_at xs) (get_or xs 4 0) (get_or xs 29 0)
        (All-get_or IsByte xs 3 0 b (omega arith)) in
    rw (read_common-ok xs (omega arith), at-get_or xs 4 (omega arith), at-get_or xs 29 q)
      (inr (_, refl, (inl (refl, (_, refl, sound)), refl, refl, refl)))

pub g30-Outcome :
    (c : F072Codec) (f : OuterFrame) (xs : Bytes) (source : Endpoint) (m : Dict)
    → 29 ≤ length xs
    → IsBytes xs
    → Outcome (IsReport c) f source (decode_g30_state c f xs source m)
unfolding decode_g30_state
g30-Outcome c f xs source m q b =
    let sound =
      g30_state-IsObservation c xs (bytes_at xs) (get_or xs 18 0) (get_or xs 14 0) (get_or xs 15 0)
        (All-get_or IsByte xs 3 0 b (omega arith)) in
    rw
      (
        read_common-ok xs (omega arith),
        at-get_or xs 18 (omega arith),
        at-get_or xs 14 (omega arith),
        at-get_or xs 15 (omega arith),
      )
      (inr (_, refl, (inl (refl, (_, refl, sound)), refl, refl, refl)))

pub ack-Outcome :
    (c : F072Codec) (f : OuterFrame) (xs : Bytes) (source : Endpoint) (m : Dict)
    → Outcome (IsReport c) f source (decode_ack c f xs source m)
unfolding decode_ack
ack-Outcome c f xs source m = elim (ℕ_discrete (length xs) 4) [
  | yes q ↦
      rw (q, at-get_or xs 1 (omega arith), at-get_or xs 2 (omega arith))
        (inr (_, refl, (inr (refl, refl), refl, refl, refl)))
  | no q ↦ inl (ground arith)
]
