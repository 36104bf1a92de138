-- ===== src/Runtime/Availability.antt =====
-- How the runtime of runtime.py follows the device: the states that the client pushes, the periodic
-- check and the refresh that it starts. Times are whole numbers of a monotonic clock.
use ha_352air_legacy_local.Base.{
  ℕ, ◌+◌, ◌-◌, ◌≤◌, ◌≡◌, ◌≢◌, refl, ◌⊎◌, inl, Bool, true, false, Option, none, some, Error, leb,
  ltb, ◌||◌, if◌then◌else◌, arith,
}
use ha_352air_legacy_local.Models.State.{DeviceState}

-- AVAILABILITY_CHECK_SECONDS and AVAILABILITY_TIMEOUT_SECONDS
abbrev pub check_seconds : ℕ
check_seconds = 30

abbrev pub timeout_seconds : ℕ
timeout_seconds = 120

-- The fields of RuntimeData that change, and how often its listeners were called.
pub record RuntimeData : Type 0 where
  pub observed : Option DeviceState
  pub available : Bool
  pub last_seen : ℕ
  pub last_error : Option Error
  pub refreshing : Bool
  pub notified : ℕ

-- async_create_runtime, after the first refresh gave `state`.
abbrev pub create_runtime : DeviceState → ℕ → RuntimeData
create_runtime observed now = record {
  observed = some observed;
  available = true;
  last_seen = now;
  last_error = none;
  refreshing = false;
  notified = 0;
}

-- _async_handle_state
unfoldable pub handle_state : RuntimeData → DeviceState → ℕ → RuntimeData
handle_state r observed now = record r {
  observed = some observed;
  available = true;
  last_error = none;
  last_seen = now;
  notified = r.notified + 1;
}

-- _async_check_staleness
unfoldable pub check_staleness : RuntimeData → ℕ → RuntimeData
check_staleness r now =
    if r.refreshing || ltb (now - r.last_seen) check_seconds
    then r
    else record r { refreshing = true }

-- _async_refresh_stale_state, once the client's call is done: it returned, or raised.
unfoldable pub refresh_done : RuntimeData → Option Error → ℕ → RuntimeData
refresh_done r none now = record r { refreshing = false }
refresh_done r (some e) now =
    let failed : RuntimeData = record r { refreshing = false; last_error = some e } in
    if leb timeout_seconds (now - r.last_seen)
    then record failed { available = false; notified = r.notified + 1 }
    else failed

-- async_command, when the client's call raised.
unfoldable pub command_failed : RuntimeData → Error → RuntimeData
command_failed r e = record r { last_error = some e }

-- LegacyEntity.available
abbrev pub entity_available : RuntimeData → Bool
entity_available r = if r.available then elim r.observed [ none ↦ false | some _ ↦ true ] else false

-- What happens to the runtime, at a time that the clock has reached; a refresh ends only while one
-- runs.
pub data Step : RuntimeData × ℕ → RuntimeData × ℕ → Type 0 where
  waits : {r : RuntimeData} {t : ℕ} (d : ℕ) → Step (r, t) (r, t + d)
  pushed : {r : RuntimeData} {t : ℕ} (s : DeviceState) → Step (r, t) (handle_state r s t, t)
  checked : {r : RuntimeData} {t : ℕ} → Step (r, t) (check_staleness r t, t)
  refreshed :
      {r : RuntimeData} {t : ℕ} (e : Option Error)
      → r.refreshing ≡ true
      → Step (r, t) (refresh_done r e t, t)
  refused : {r : RuntimeData} {t : ℕ} (e : Error) → Step (r, t) (command_failed r e, t)

pub data Reaches : RuntimeData × ℕ → RuntimeData × ℕ → Type 0 where
  here : {x : RuntimeData × ℕ} → Reaches x x
  after : {x y z : RuntimeData × ℕ} → Reaches x y → Step y z → Reaches x z

-- A state is known and the clock is past the last one; the device is unavailable only after an error
-- that came when the last state was the timeout old.
pub record IsSound (r : RuntimeData) (t : ℕ) : Type 0 where
  pub known : r.observed ≢ none
  pub not_later : r.last_seen ≤ t
  pub gone : (r.available ≡ true) ⊎ ((r.last_seen + timeout_seconds ≤ t) × (r.last_error ≢ none))

created-IsSound : (s : DeviceState) (t : ℕ) → IsSound (create_runtime s t) t
created-IsSound s t = record { known = ground arith; not_later = ground arith; gone = inl refl }

Step-IsSound : (x y : RuntimeData × ℕ) → Step x y → IsSound x.0 x.1 → IsSound y.0 y.1
unfolding handle_state check_staleness refresh_done command_failed
Step-IsSound x y (waits d) v = record {
  known = v.known;
  not_later = ground (arith, v.not_later);
  gone = ground (arith, v.gone);
}
Step-IsSound x y (pushed s) v = record {
  known = ground arith;
  not_later = ground arith;
  gone = inl refl;
}
Step-IsSound x y checked v = record {
  known = ground (arith, v.known);
  not_later = ground (arith, v.not_later);
  gone = ground (arith, v.gone);
}
Step-IsSound x y (refreshed none _) v = record {
  known = v.known;
  not_later = v.not_later;
  gone = v.gone;
}
Step-IsSound x y (refreshed (some e) _) v = record {
  known = ground (arith, v.known);
  not_later = ground (arith, v.not_later);
  gone = ground (arith, v.gone, v.not_later);
}
Step-IsSound x y (refused e) v = record {
  known = v.known;
  not_later = v.not_later;
  gone = ground (arith, v.gone);
}

run-IsSound : (x y : RuntimeData × ℕ) → Reaches x y → IsSound x.0 x.1 → IsSound y.0 y.1
run-IsSound x y here v = v
run-IsSound x y (after {y = z} run last) v = Step-IsSound z y last (run-IsSound x z run v)

-- In a runtime that started with a state, whatever then happens: the state is never lost, and while
-- the device is unavailable its last state is at least AVAILABILITY_TIMEOUT_SECONDS old and an error
-- is kept.
pub Reaches-IsSound :
    (s : DeviceState) (start : ℕ) (x : RuntimeData × ℕ)
    → Reaches (create_runtime s start, start) x
    → IsSound x.0 x.1
Reaches-IsSound s start x h = run-IsSound _ x h (created-IsSound s start)
