-- ===== src/Manager/Client.antt =====
-- `LanClient.query`, `LanClient.write_once` and `write_and_verify` of
-- tools/352air_schedule_manager.py. What arrives between a sending and its deadline is given as a
-- function of all that was sent so far; what was waiting before it is drained. The socket's errors
-- are left out.
use ha_352air_legacy_local.Base.{
  ℕ, zero, suc, ◌+◌, ◌%◌, Bool, Option, none, some, List, [], ◌∷◌, ◌++◌, not, ◌&&◌, if◌then◌else◌,
  one_of, Result, ok, err, schedule_error,
}
use ha_352air_legacy_local.Base.Bytes.{Bytes, bytes_eq}
use ha_352air_legacy_local.Models.State.{Endpoint}
use ha_352air_legacy_local.Schedule.{Device, Slots}
use ha_352air_legacy_local.Manager.{
  schedule_query_packet, schedule_write_packet, parse_schedule_response,
}

-- The client's counter, and the datagrams sent so far.
pub record LanClient : Type 0 where
  pub sequence : ℕ
  pub sent : List Bytes

abbrev pub Arrivals : Type 0
Arrivals = List Bytes → List (Bytes × Endpoint)

-- LanClient.next_sequence
abbrev pub numbered : LanClient → LanClient
numbered c = record c { sequence = (c.sequence + 1) % 65536 }

-- LanClient.send
abbrev pub send : LanClient → Bytes → LanClient
send c packet = record c { sent = c.sent ++ packet ∷ [] }

-- LanClient.wait_for with the parser of schedule replies.
unfoldable pub wait_for : Device → List (Bytes × Endpoint) → Result (Option Slots)
wait_for device [] = ok none
wait_for device ((datagram, address) ∷ rest) =
    let later = wait_for device rest in
    elim (parse_schedule_response datagram address device) [
      | err e ↦ err e
      | ok none ↦ later
      | ok (some s) ↦ ok (some s)
    ]

-- for _ in range(attempts)
unfoldable pub attempts : Arrivals → Device → ℕ → LanClient → LanClient × Result Slots
attempts arrivals device zero c = (c, err schedule_error)
attempts arrivals device (suc left) c =
    let later = attempts arrivals device left in
    let number = numbered c in
    elim (schedule_query_packet device number.sequence) [
      | err e ↦ (number, err e)
      | ok packet ↦
          let asked = send number packet in
          elim (wait_for device (arrivals asked.sent)) [
            | err e ↦ (asked, err e)
            | ok none ↦ later asked
            | ok (some s) ↦ (asked, ok s)
          ]
    ]

-- LanClient.query
unfoldable pub query : Arrivals → Device → LanClient → LanClient × Result Slots
unfolding attempts
query arrivals device c =
    if one_of device.wire_type (2 ∷ 3 ∷ 4 ∷ [])
    then attempts arrivals device 3 c
    else (c, err schedule_error)

-- LanClient.write_once
unfoldable pub write_once : Device → Slots → LanClient → LanClient × Result (Unit {0})
write_once device s c =
    let number = numbered c in
    elim (schedule_write_packet device number.sequence s) [
      | err e ↦ (number, err e)
      | ok packet ↦ (send number packet, ok tt)
    ]

-- [slot.raw for slot in fresh] == [slot.raw for slot in baseline]
abbrev pub same_slots : Slots → Slots → Bool
same_slots a b =
    bytes_eq a.first b.first
    && bytes_eq a.second b.second
    && bytes_eq a.third b.third
    && bytes_eq a.fourth b.fourth

-- A call behind another one, unless that one raised.
abbrev pub and_then {ℓ κ} :
    {A : Type ℓ} {B : Type κ}
    → LanClient × Result A
    → (LanClient → A → LanClient × Result B)
    → LanClient × Result B
and_then (c, err e) next = (c, err e)
and_then (c, ok a) next = next c a

-- A read that the verifier takes.
unfoldable pub read_back : Arrivals → Device → (Slots → Bool) → LanClient → LanClient × Result Slots
read_back arrivals device verifier c =
    and_then (query arrivals device c)
      λ c s. if verifier s then (c, ok s) else (c, err schedule_error)

-- The two reads of write_and_verify, and what is done with its first one.
abbrev pub read_twice : Arrivals → Device → (Slots → Bool) → LanClient → LanClient × Result Slots
read_twice arrivals device verifier c =
    and_then (read_back arrivals device verifier c) λ c _. read_back arrivals device verifier c

abbrev pub write_fresh :
    Arrivals
    → Device
    → Slots
    → Slots
    → (Slots → Bool)
    → LanClient
    → Slots
    → LanClient × Result Slots
write_fresh arrivals device baseline desired verifier c fresh =
    if not (same_slots fresh baseline)
    then (c, err schedule_error)
    else and_then (write_once device desired c) λ c _. read_twice arrivals device verifier c

-- write_and_verify
unfoldable pub write_and_verify :
    Arrivals → Device → Slots → Slots → (Slots → Bool) → LanClient → LanClient × Result Slots
write_and_verify arrivals device baseline desired verifier c =
    and_then (query arrivals device c) (write_fresh arrivals device baseline desired verifier)
