-- ===== src/Models/State.antt =====
-- The observations and packets of models.py. `raw_values` and `raw_metadata` are dictionaries, kept
-- as association lists in insertion order; every value that the codecs put there is a number.
use ha_352air_legacy_local.Base.{
  ℕ, Bool, Option, none, some, List, [], ◌∷◌, ◌≡◌, refl, if◌then◌else◌, arith,
}
use ha_352air_legacy_local.Models.{
  HeaderIdentity, ModeValue, PowerState, PacketKind, ProtocolFamily,
}
use Prim.Native.String.{String}
use text.Mathlib.Text.{◌==◌}
use text.Mathlib.TextEquality.{eq_iff}

abbrev pub Dict : Type 0
Dict = List (String × ℕ)

-- d.get(key)
unfoldable pub lookup : String → Dict → Option ℕ
lookup key [] = none
lookup key ((other, value) ∷ d) = if other == key then some value else lookup key d

-- d[key] = value
unfoldable pub insert : String → ℕ → Dict → Dict
insert key new [] = (key, new) ∷ []
insert key new ((other, value) ∷ d) =
    if other == key then (other, new) ∷ d else (other, value) ∷ insert key new d

-- {**older, **newer}
unfoldable pub merge : Dict → Dict → Dict
merge older [] = older
merge older ((k, v) ∷ newer) = merge (insert k v older) newer

pub lookup-insert :
    (read written : String) (new : ℕ) (d : Dict)
    → lookup read (insert written new d) ≡ (if written == read then some new else lookup read d)
unfolding insert lookup
lookup-insert read written new [] = refl
lookup-insert read written new ((other, value) ∷ d) = ground (
  arith,
  lookup-insert read written new d,
  eq_iff other read,
  eq_iff written read,
  eq_iff other written,
)

-- raw_values[key] = value if the decoded field is None
abbrev pub insert_if_none {ℓ} : {A : Type ℓ} → Option A → String → ℕ → Dict → Dict
insert_if_none none k v m = insert k v m
insert_if_none (some _) k v m = m

pub record DeviceState : Type 0 where
  pub mode : Option ModeValue
  pub speed : Option ℕ
  pub timer_hours : Option ℕ
  pub timer_remaining_minutes : Option ℕ
  pub air_quality_raw : Option ℕ
  pub child_lock : Option Bool
  pub display_on : Option Bool
  pub power : Option PowerState
  pub ptc : Option ℕ
  pub pm25 : Option ℕ
  pub filter_type_raw : Option ℕ
  pub processed_air_m3 : Option ℕ
  pub purified_air_m3 : Option ℕ
  pub processed_air_exponent : Option ℕ
  pub processed_air_base : Option ℕ
  pub purified_air_exponent : Option ℕ
  pub purified_air_base : Option ℕ
  pub temperature : Option ℕ
  pub humidity : Option ℕ
  pub co2 : Option ℕ
  pub airflow_m3h : Option ℕ
  pub linkage_raw : Option ℕ
  pub backlight : Option ℕ
  pub raw_values : Dict

-- DeviceState()
abbrev pub empty_state : DeviceState
empty_state = record {
  mode = none;
  speed = none;
  timer_hours = none;
  timer_remaining_minutes = none;
  air_quality_raw = none;
  child_lock = none;
  display_on = none;
  power = none;
  ptc = none;
  pm25 = none;
  filter_type_raw = none;
  processed_air_m3 = none;
  purified_air_m3 = none;
  processed_air_exponent = none;
  processed_air_base = none;
  purified_air_exponent = none;
  purified_air_base = none;
  temperature = none;
  humidity = none;
  co2 = none;
  airflow_m3h = none;
  linkage_raw = none;
  backlight = none;
  raw_values = [];
}

-- Text is a list of code points.
abbrev pub Text : Type 0
Text = List ℕ

pub record Endpoint : Type 0 where
  pub host : Text
  pub port : ℕ

pub record DecodedPacket : Type 0 where
  pub identity : HeaderIdentity
  pub sequence : ℕ
  pub kind : PacketKind
  pub observed : Option DeviceState
  pub source : Endpoint
  pub family : ProtocolFamily
  pub inner_sequence : Option ℕ
  pub raw_metadata : Dict

pub record DiscoveryResult : Type 0 where
  pub identity : HeaderIdentity
  pub host : Text
  pub source : Endpoint
  pub sequence : ℕ
