-- ===== src/Witnesses/Writes.antt =====
-- A write of the M25's client, and a request that is answered at the second of three attempts.
use ha_352air_legacy_local.Base.{
  ℕ, Option, none, List, [], ◌∷◌, some_if, ◌==◌, Result, ok, Error, arith,
}
use ha_352air_legacy_local.Base.Bytes.{Bytes}
use ha_352air_legacy_local.Models.State.{DeviceState, empty_state}
use ha_352air_legacy_local.Requests.{run_attempts, command_request}
use ha_352air_legacy_local.Requests.Attempts.{EndsBy, run_attempts-EndsBy}
use ha_352air_legacy_local.Requests.Numbers.{Numbered, command_request-Numbered}
use ha_352air_legacy_local.Witnesses.Detector.{always_on}
use ha_352air_legacy_local.Witnesses.Reception.{client}

command_request-Numbered_example : Numbered client always_on (command_request client always_on)
command_request-Numbered_example =
    command_request-Numbered client always_on (omega arith) (omega arith)

abbrev no_failures : ℕ → ℕ → Option Error
no_failures attempt index = none

abbrev second_answers : ℕ → Option (Result DeviceState)
second_answers attempt = some_if (attempt == 1) (ok empty_state)

abbrev two_datagrams : List Bytes
two_datagrams = (1 ∷ []) ∷ (2 ∷ []) ∷ []

run_attempts-EndsBy_example :
    let r = run_attempts 3 two_datagrams no_failures second_answers in
    EndsBy 3 two_datagrams no_failures second_answers r.0 r.1
run_attempts-EndsBy_example = run_attempts-EndsBy 3 two_datagrams no_failures second_answers
