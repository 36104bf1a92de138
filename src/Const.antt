-- ===== src/Const.antt =====
-- The models of const.py and their families. A model's string is its `DeviceModel`, and a frozenset
-- of models is its membership test.
use ha_352air_legacy_local.Base.{
  ℕ, ◌≡◌, Bool, true, false, Option, none, some, List, [], ◌∷◌, ◌==◌, if◌then◌else◌, one_of, arith,
}
use ha_352air_legacy_local.Models.{
  DeviceModel, m25, x83, g30, x83c, x50, x50s, x83c_plus, x60, x70, g45, family_for_model,
  ProtocolFamily, m25_family, a5a0, f072_x50, f072_g30,
}

-- MODEL_WIRE_TYPES; each model has one.
abbrev pub model_wire_type : DeviceModel → ℕ
model_wire_type m25 = 1
model_wire_type x83 = 2
model_wire_type g30 = 4
model_wire_type x83c = 2
model_wire_type x50 = 3
model_wire_type x50s = 3
model_wire_type x83c_plus = 2
model_wire_type x60 = 3
model_wire_type x70 = 3
model_wire_type g45 = 4

-- MODEL_OPTIONS, in its order.
abbrev pub model_options : List DeviceModel
model_options = m25 ∷ x83 ∷ g30 ∷ x83c ∷ x50 ∷ x50s ∷ x83c_plus ∷ x60 ∷ x70 ∷ g45 ∷ []

-- model_is_purifier
abbrev pub model_is_purifier : DeviceModel → Bool
model_is_purifier m25 = false
model_is_purifier _ = true

-- SIX_SPEED_MODELS, FIVE_SPEED_MODELS and CONTINUOUS_AIRFLOW_MODELS
abbrev pub is_six_speed : DeviceModel → Bool
is_six_speed x83 = true
is_six_speed x83c = true
is_six_speed x83c_plus = true
is_six_speed _ = false

abbrev pub is_five_speed : DeviceModel → Bool
is_five_speed x50 = true
is_five_speed x50s = true
is_five_speed x60 = true
is_five_speed x70 = true
is_five_speed _ = false

abbrev pub is_continuous_airflow : DeviceModel → Bool
is_continuous_airflow g30 = true
is_continuous_airflow g45 = true
is_continuous_airflow _ = false

of_wire_type : ℕ → List DeviceModel → List DeviceModel
of_wire_type wire_type [] = []
of_wire_type wire_type (model ∷ rest) =
    if model_wire_type model == wire_type
    then model ∷ of_wire_type wire_type rest
    else of_wire_type wire_type rest

requested_of : (DeviceModel → Bool) → List DeviceModel → List DeviceModel
requested_of requested [] = []
requested_of requested (model ∷ rest) =
    if requested model then model ∷ requested_of requested rest else requested_of requested rest

-- compatible_models, with MODELS_BY_WIRE_TYPE for 1 to 4; the candidates are their membership test.
unfoldable pub compatible_models : ℕ → Option (DeviceModel → Bool) → List DeviceModel
unfolding of_wire_type requested_of
compatible_models wire_type candidates =
    let available =
      if one_of wire_type (1 ∷ 2 ∷ 3 ∷ 4 ∷ []) then of_wire_type wire_type model_options else [] in
    elim candidates [ none ↦ available | some requested ↦ requested_of requested available ]

-- The wire type of a family's codec.
abbrev pub family_wire_type : ProtocolFamily → ℕ
family_wire_type m25_family = 1
family_wire_type a5a0 = 2
family_wire_type f072_x50 = 3
family_wire_type f072_g30 = 4

-- The two tables agree: a model's wire type is that of its protocol family.
pub model_wire_type-family :
    (model : DeviceModel) → model_wire_type model ≡ family_wire_type (family_for_model model)
unfolding family_for_model
model_wire_type-family model = ground arith
