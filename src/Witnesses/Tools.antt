-- ===== src/Witnesses/Tools.antt =====
-- The schedule manager on an X83 with one configured slot.
use ha_352air_legacy_local.Base.{
  ◌≡◌, ◌⊎◌, inl, refl, none, some, [], ◌∷◌, ◌++◌, ◌/◌, ◌%◌, true, false, ok, err, arith, Error,
}
use ha_352air_legacy_local.Base.Bytes.{Bytes, at}
use ha_352air_legacy_local.Outer.Totality.{envelope}
use ha_352air_legacy_local.Crc.{crc16_genibus}
use ha_352air_legacy_local.Schedule.{
  Slots, empty_slot, encode_schedule_query, encode_schedule_write, decode_schedule_response,
}
use ha_352air_legacy_local.Schedule.Cleanup.{empty_slots}
use ha_352air_legacy_local.Discovery.{valid_state}
use ha_352air_legacy_local.Manager.{
  schedule_query_packet, schedule_write_packet, parse_schedule_response, valid_passive_status,
}
use ha_352air_legacy_local.Manager.Times.{configured-Shows}
use ha_352air_legacy_local.Manager.ScheduleSlot.{Time, configured, Shows}
use ha_352air_legacy_local.Manager.Frames.{schedule_packets_agree}
use ha_352air_legacy_local.Manager.Agreement.{parse_schedule_response-decode_schedule_response}
use ha_352air_legacy_local.Manager.Passive.{valid_passive_status_refuses}
use ha_352air_legacy_local.Manager.Client.{LanClient, Arrivals, same_slots, write_and_verify}
use ha_352air_legacy_local.Manager.Writing.{Wrote, ReadTwice, write_and_verify-Wrote}
use ha_352air_legacy_local.Witnesses.{x83_identity, device}
use ha_352air_legacy_local.Witnesses.Schedules.{purifier, evening}

-- On workdays at half past seven, without an end.
abbrev morning : Time
morning = record { hour = 7; minute = 30 }

configured-Shows_example :
    (raw : Bytes) × (configured (some morning) none 0x3E true ≡ ok raw)
    × Shows raw (some morning) none 0x3E true
configured-Shows_example =
    configured-Shows (some morning) none 0x3E true (omega arith, omega arith) tt refl (omega arith)
      (omega arith)

schedule_packets_agree_example :
    ((datagram : Bytes) × (schedule_query_packet purifier 7 ≡ ok datagram)
      × (encode_schedule_query purifier 7 ≡ ok datagram))
    × ((datagram : Bytes) × (schedule_write_packet purifier 7 empty_slots ≡ ok datagram)
        × (encode_schedule_write purifier 7 empty_slots ≡ ok datagram))
schedule_packets_agree_example =
    schedule_packets_agree purifier 7 empty_slots (omega arith) (omega arith) (omega arith)

-- A reply with the configured slot.
abbrev covered_reply : Bytes
covered_reply =
    0x00
    ∷ 0x2D
    ∷ 0x02
    ∷ 0x84
    ∷ 0x0C
    ∷ 0x00
    ∷ 0x07
    ∷ 0x22
    ∷ 0x04
    ∷ 0x20
    ∷ (evening ++ (empty_slot ++ (empty_slot ++ (empty_slot ++ 0x14 ∷ []))))

abbrev schedule_reply : Bytes
schedule_reply = envelope (record {
  identity = x83_identity;
  operation = 0x04;
  sequence = 7;
  payload =
      0x02
      ∷ 0xF0
      ∷ 0x72
      ∷ (covered_reply
          ++ crc16_genibus covered_reply / 256 ∷ crc16_genibus covered_reply % 256 ∷ []);
})

parse_schedule_response-decode_schedule_response_example :
    parse_schedule_response schedule_reply device purifier
    ≡ decode_schedule_response schedule_reply device purifier
unfolding crc16_genibus
parse_schedule_response-decode_schedule_response_example =
    parse_schedule_response-decode_schedule_response purifier schedule_reply device (omega arith)

-- A report of an M25.
abbrev report : Bytes
report =
    0x03 ∷ 0xF5 ∷ 0xA1 ∷ 0x00 ∷ 0x00 ∷ 0x00 ∷ 0x00 ∷ 0x00 ∷ 0x00 ∷ 0x00 ∷ 0x00 ∷ 0x00 ∷ 0x00 ∷ 0x00
    ∷ 0x00 ∷ 0x00 ∷ 0x00 ∷ []

report-valid : valid_state 1 report ≡ ok true
unfolding valid_state at
report-valid = refl

valid_passive_status_refuses_example : valid_passive_status report 1 ≡ ok false
valid_passive_status_refuses_example = valid_passive_status_refuses report 1 (inl refl) report-valid

abbrev client : LanClient
client = record { sequence = 6; sent = [] }

abbrev answering : Arrivals
answering _ = (schedule_reply, device) ∷ []

abbrev baseline : Slots
baseline = record empty_slots { first = evening }

write_and_verify-Wrote_example :
    let run =
      write_and_verify answering purifier baseline empty_slots (same_slots empty_slots) client in
    Wrote answering purifier baseline empty_slots client run.0
    × (((e : Error) × (run.1 ≡ err e))
        ⊎ ((s : Slots) × ReadTwice answering purifier baseline empty_slots
              (same_slots empty_slots)
              client
              run
              s))
write_and_verify-Wrote_example =
    write_and_verify-Wrote answering purifier baseline empty_slots (same_slots empty_slots) client
