-- ===== src/Witnesses/Schedules.antt =====
-- A cleanup of an X83 with one configured slot.
use ha_352air_legacy_local.Base.{ℕ, ◌≡◌, ◌⊎◌, refl, none, List, [], ◌∷◌, ok, arith}
use ha_352air_legacy_local.Base.Bytes.{Bytes, bytes_eq}
use ha_352air_legacy_local.Outer.{OuterFrame}
use ha_352air_legacy_local.Outer.Totality.{envelope}
use ha_352air_legacy_local.Schedule.{
  Device, Slots, slot_is_empty, udp_port, decode_schedule_response,
}
use ha_352air_legacy_local.Crc.{crc16_genibus}
use ha_352air_legacy_local.Schedule.Reading.{Accepted, decode_schedule_response_outcome}
use ha_352air_legacy_local.Schedule.Cleanup.{empty_slots, first_taken, clear_local_schedules}
use ha_352air_legacy_local.Schedule.Verified.{Ends, clear_local_schedules-Ends}
use ha_352air_legacy_local.Schedule.Sending.{query_datagram}
use ha_352air_legacy_local.Schedule.Success.{clear_local_schedules_succeeds}
use ha_352air_legacy_local.Witnesses.{x83_identity, device}

abbrev pub purifier : Device
purifier = record {
  host = device.host;
  mac = x83_identity.mac;
  company = 0xF1;
  wire_type = 2;
  auth = 0xCB76;
}

abbrev pub evening : Bytes
evening = 0x01 ∷ 0x12 ∷ 0x00 ∷ 0x16 ∷ 0x1E ∷ 0x7F ∷ 0x00 ∷ 0x00 ∷ []

abbrev configured_replies : ℕ → List Slots
configured_replies n = record empty_slots { first = evening } ∷ []

-- The first reply behind the write is a late one.
abbrev late : ℕ → List Slots
late n = record empty_slots { first = evening } ∷ empty_slots ∷ []

decode_schedule_response_outcome_example :
    (decode_schedule_response (query_datagram purifier 7) device purifier ≡ ok none)
    ⊎ ((device.host ≡ purifier.host)
        × (device.port ≡ udp_port)
        × ((f : OuterFrame) × (query_datagram purifier 7 ≡ envelope f)
            × Accepted purifier f
                (decode_schedule_response (query_datagram purifier 7) device purifier)))
unfolding crc16_genibus
decode_schedule_response_outcome_example =
    decode_schedule_response_outcome purifier (query_datagram purifier 7) device (omega arith)

clear_local_schedules-Ends_example :
    Ends purifier configured_replies late late
      (clear_local_schedules purifier configured_replies late late 9)
clear_local_schedules-Ends_example =
    clear_local_schedules-Ends purifier configured_replies late late 9

clear_local_schedules_succeeds_example :
    (removed : ℕ) × ((clear_local_schedules purifier configured_replies late late 9).1 ≡ ok removed)
unfolding first_taken slot_is_empty bytes_eq
clear_local_schedules_succeeds_example =
    clear_local_schedules_succeeds purifier configured_replies late late 9 (omega arith) refl
      (2, omega arith, (record empty_slots { first = evening }, refl))
      (2, omega arith, (empty_slots, refl)) (2, omega arith, (empty_slots, refl))
