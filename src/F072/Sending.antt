-- ===== src/F072/Sending.antt =====
-- Which F072 commands are sent, and as which frame.
use ha_352air_legacy_local.Base.{
  ℕ, ◌%◌, ◌≤◌, ◌≡◌, refl, ◌⊎◌, inl, inr, true, false, none, some, List, ◌∷◌, ◌==◌, leb, ◌&&◌,
  one_of, Result, ok, err, invalid_command, arith, ℕ_discrete, dec_lt, Bool-cases,
}
use ha_352air_legacy_local.Base.Bytes.{Bytes, IsByte, IsU16}
use ha_352air_legacy_local.Models.{
  CommandContext, IsContext, CommandOperation, f072_x50, f072_g30, same_family, airflow_op,
  percentage_op,
}
use ha_352air_legacy_local.Outer.{OuterFrame}
use ha_352air_legacy_local.Outer.Totality.{
  envelope, IsFrame, sent-IsFrame, built, build_outer_frame-envelope,
}
use ha_352air_legacy_local.F072.{
  F072Codec, inner_type, single_value_frame, flow_frame, send_inner, encode_percentage,
  encode_airflow, command_code, valid_values, flow_for_percentage, flow_maximum, validate_flow,
}
use ha_352air_legacy_local.F072.Airflow.{flow_for_percentage_nearest, flow_maximum_cases}
use ha_352air_legacy_local.F072.Encoding.{
  Body, IsBody, request, request-IsBytes, value_body, flow_body, single_value_frame-request,
  flow_frame-request,
}

-- The families that the constructor lets through.
abbrev pub IsCodec : F072Codec → Type 0
IsCodec c = (c.family ≡ f072_x50) ⊎ (c.family ≡ f072_g30)

-- The body that stands for a command, by its operation; there is none for what is not documented.
abbrev pub Encodes : F072Codec → CommandContext → ℕ → CommandOperation → Body → Type 0
Encodes c context v percentage_op b =
    (c.family ≡ f072_g30)
    × (((v ≡ 0) × (b ≡ value_body 0x5E 0x11))
        ⊎ ((1 ≤ v)
            × (v ≤ 100)
            × ((flow : ℕ) × (flow_for_percentage c v context ≡ ok flow) × (b ≡ flow_body flow))))
Encodes c context v airflow_op b =
    (c.family ≡ f072_g30)
    × (40 ≤ v)
    × (v ≤ flow_maximum c context)
    × (v % 5 ≡ 0)
    × (b ≡ flow_body v)
Encodes c context v op b =
    (code : ℕ) × (values : List ℕ) × (command_code c op ≡ some code)
    × (valid_values c.family op ≡ some values)
    × (one_of v values ≡ true)
    × (b ≡ value_body code v)

-- The datagram of a body.
abbrev pub sent : F072Codec → CommandContext → Body → OuterFrame
sent c context b = built context (0x01 ∷ request (inner_type c) context.inner_sequence b) none none

abbrev pub Verdict : F072Codec → CommandContext → (Body → Type 0) → Result Bytes → Type 0
Verdict c context E r =
    ((b : Body) × E b × IsBody b × (r ≡ ok (envelope (sent c context b))))
    ⊎ ((¬ ((b : Body) × E b)) × (r ≡ err invalid_command))

pub sent-ready :
    (c : F072Codec) (context : CommandContext) (b : Body)
    → IsContext context
    → IsBody b
    → IsFrame (sent c context b)
sent-ready c context b v w =
    sent-IsFrame context (0x01 ∷ request (inner_type c) context.inner_sequence b) v
      (
        omega arith,
        request-IsBytes (inner_type c) context.inner_sequence b (ground arith) v.inner_u16 w,
      )
      (omega arith)

send_inner-ok :
    (c : F072Codec) (context : CommandContext) (b : Body) {r : Result Bytes}
    → IsContext context
    → IsBody b
    → r ≡ ok (request (inner_type c) context.inner_sequence b)
    → send_inner context r ≡ ok (envelope (sent c context b))
send_inner-ok c context b v w e = rw e (
    build_outer_frame-envelope context (0x01 ∷ request (inner_type c) context.inner_sequence b) none
      none (sent-ready c context b v w))

pub value_sent :
    (c : F072Codec) (context : CommandContext) (code value : ℕ)
    → IsContext context
    → IsByte code
    → IsByte value
    → send_inner context (single_value_frame (inner_type c) context.inner_sequence code value)
      ≡ ok (envelope (sent c context (value_body code value)))
value_sent c context code value v p q =
    send_inner-ok c context (value_body code value) v (unfold value_body in omega arith) (
      single_value_frame-request (inner_type c) context.inner_sequence code value (ground arith)
        v.inner_u16 p q)

pub flow_sent :
    (c : F072Codec) (context : CommandContext) (flow : ℕ)
    → IsContext context
    → IsU16 flow
    → send_inner context (flow_frame (inner_type c) context.inner_sequence flow)
      ≡ ok (envelope (sent c context (flow_body flow)))
flow_sent c context flow v p =
    send_inner-ok c context (flow_body flow) v (unfold flow_body in omega arith)
      (flow_frame-request (inner_type c) context.inner_sequence flow (ground arith) v.inner_u16 p)

flow_body-IsBody : (flow : ℕ) → IsU16 flow → IsBody (flow_body flow)
unfolding flow_body
flow_body-IsBody flow p = omega arith

pub value_body-IsBody :
    (code value : ℕ) → IsByte code → IsByte value → IsBody (value_body code value)
unfolding value_body
value_body-IsBody code value p q = omega arith

abbrev Flows : F072Codec → CommandContext → ℕ → Type 0
Flows c context v = (c.family ≡ f072_g30) × (40 ≤ v) × (v ≤ flow_maximum c context) × (v % 5 ≡ 0)

Flows-cases :
    (c : F072Codec) (context : CommandContext) (v : ℕ)
    → IsCodec c
    → Flows c context v
      ⊎ ((¬ Flows c context v) × (encode_airflow c context v ≡ err invalid_command))
unfolding encode_airflow validate_flow
Flows-cases c context v (inl x) = inr (λ h. cc (h.0), rw x)
Flows-cases c context v (inr g) =
    elim (Bool-cases (leb 40 v && leb v (flow_maximum c context) && v % 5 == 0)) [
      | inl t ↦ inl (ground arith)
      | inr t ↦ inr (ground arith, ground arith)
    ]

airflow_sent :
    (c : F072Codec) (context : CommandContext) (v : ℕ)
    → IsContext context
    → Flows c context v
    → encode_airflow c context v ≡ ok (envelope (sent c context (flow_body v)))
unfolding encode_airflow validate_flow
airflow_sent c context v w h =
    let fam : same_family c.family f072_g30 ≡ true = ground arith in
    let fits : (leb 40 v && leb v (flow_maximum c context) && v % 5 == 0) ≡ true = ground arith in
    rw (fam, fits) (flow_sent c context v w (ground (arith, flow_maximum_cases c context)))

pub airflow-Verdict :
    (c : F072Codec) (context : CommandContext) (v : ℕ)
    → IsCodec c
    → IsContext context
    → Verdict c context (Encodes c context v airflow_op) (encode_airflow c context v)
airflow-Verdict c context v k w = elim (Flows-cases c context v k) [
  | inl h ↦ inl (
    flow_body v,
    (h.0, h.1, h.2, h.3, refl),
    flow_body-IsBody v (ground (arith, flow_maximum_cases c context)),
    airflow_sent c context v w h,
  )
  | inr (n, e) ↦ inr (λ x. n (x.1.0, x.1.1, x.1.2, x.1.3), e)
]

abbrev Percents : F072Codec → ℕ → Type 0
Percents c v = (c.family ≡ f072_g30) × (v ≤ 100)

Percents-cases :
    (c : F072Codec) (context : CommandContext) (v : ℕ)
    → IsCodec c
    → Percents c v ⊎ ((¬ Percents c v) × (encode_percentage c context v ≡ err invalid_command))
unfolding encode_percentage
Percents-cases c context v (inl x) = inr (λ h. cc (h.0), rw x)
Percents-cases c context v (inr g) = elim (dec_lt 100 v) [
  | yes q ↦ inr (ground arith, ground arith)
  | no q ↦ inl (g, omega arith)
]

off_sent :
    (c : F072Codec) (context : CommandContext)
    → IsContext context
    → c.family ≡ f072_g30
    → encode_percentage c context 0 ≡ ok (envelope (sent c context (value_body 0x5E 0x11)))
unfolding encode_percentage
off_sent c context w g =
    let fam : same_family c.family f072_g30 ≡ true = ground arith in
    rw fam (value_sent c context 0x5E 0x11 w (omega arith) (omega arith))

percentage_sent :
    (c : F072Codec) (context : CommandContext) (v flow : ℕ)
    → IsContext context
    → Percents c v
    → 1 ≤ v
    → IsU16 flow
    → flow_for_percentage c v context ≡ ok flow
    → encode_percentage c context v ≡ ok (envelope (sent c context (flow_body flow)))
unfolding encode_percentage
percentage_sent c context v flow w h lo u e =
    let fam : same_family c.family f072_g30 ≡ true = ground arith in
    let fits : leb v 100 ≡ true = ground arith in
    let more : (v == 0) ≡ false = ground arith in
    rw (fam, fits, more, e) (flow_sent c context flow w u)

pub percentage-Verdict :
    (c : F072Codec) (context : CommandContext) (v : ℕ)
    → IsCodec c
    → IsContext context
    → Verdict c context (Encodes c context v percentage_op) (encode_percentage c context v)
percentage-Verdict c context v k w = elim (Percents-cases c context v k) [
  | inr (n, e) ↦ inr (λ x. n (x.1.0, ground arith), e)
  | inl h ↦ elim (ℕ_discrete v 0) [
    | yes z ↦ inl (
      value_body 0x5E 0x11,
      (h.0, inl (z, refl)),
      value_body-IsBody 0x5E 0x11 (omega arith) (omega arith),
      rw z (off_sent c context w h.0),
    )
    | no z ↦
        let (flow, e, near, _) = flow_for_percentage_nearest c context v h.0 (omega arith) h.1 in
        let small : IsU16 flow = ground (arith, near, flow_maximum_cases c context) in
        inl (
          flow_body flow,
          (h.0, inr (omega arith, h.1, (flow, e, refl))),
          flow_body-IsBody flow small,
          percentage_sent c context v flow w h (omega arith) small e,
        )
  ]
]
