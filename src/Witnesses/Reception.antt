-- ===== src/Witnesses/Reception.antt =====
-- A client of an M25 that waits for a report, and one of a G45 that waits for an airflow.
use ha_352air_legacy_local.Base.{◌≡◌, ◌⊎◌, refl, none, some, true, false, [], ◌∷◌, arith, All}
use ha_352air_legacy_local.Base.Bytes.{Bytes}
use ha_352air_legacy_local.Models.{on, PacketKind, m25, x83}
use ha_352air_legacy_local.Models.State.{DeviceState, DecodedPacket, empty_state}
use ha_352air_legacy_local.Outer.Totality.{envelope, built}
use ha_352air_legacy_local.Codec.{m25_codec, a5a0_codec}
use ha_352air_legacy_local.Transport.{Client, PendingState}
use ha_352air_legacy_local.Transport.Receive.{datagram_received, Window, seen, prune}
use ha_352air_legacy_local.Transport.Trust.{
  with_window, FromDevice, Learned, Observed, datagram_received_effect,
}
use ha_352air_legacy_local.Transport.Settling.{Confirmable}
use ha_352air_legacy_local.Transport.Waits.{Unsettled, SettlesAll, datagram_received_waits}
use ha_352air_legacy_local.Transport.Duplicates.{
  IsWindow, datagram_received_again, datagram_received-IsWindow,
}
use ha_352air_legacy_local.Witnesses.{x83_identity, device}
use ha_352air_legacy_local.Witnesses.Detector.{m25_context}

abbrev read_wait : PendingState
read_wait = record {
  outcome = none;
  outer_sequences = 0x1234 ∷ [];
  inner_sequences = 7 ∷ [];
  command = none;
  expected_kind = PacketKind.state;
  created_at = 500;
}

abbrev pub client : Client
client = record {
  host = device.host;
  port = 11530;
  model = m25;
  codec = m25_codec;
  identity = m25_context.identity;
  observed = none;
  available = false;
  last_state_at = none;
  has_loop = true;
  closed = false;
  pending = read_wait ∷ [];
  outer_sequence = 0x1235;
  inner_sequence = 8;
  recent_datagrams = [];
  delivered = [];
}

-- A PM2.5 of 42.
abbrev report : Bytes
report = 0x04 ∷ 0xF5 ∷ 0xA1 ∷ 0 ∷ 42 ∷ 0 ∷ 0 ∷ 1 ∷ 0 ∷ 0 ∷ 0 ∷ 0 ∷ 0 ∷ 0 ∷ 0 ∷ 0 ∷ 0 ∷ []

abbrev report_datagram : Bytes
report_datagram = envelope (built m25_context report none none)

confirmable : All (Confirmable client.codec) client.pending
confirmable = (λ command e. cc, tt)

datagram_received_waits_example :
    ((datagram_received client report_datagram device 600).1 ≡ none)
    × (Unsettled client report_datagram device 600 ⊎ SettlesAll client report_datagram device 600)
datagram_received_waits_example =
    datagram_received_waits client report_datagram device 600 confirmable

datagram_received_effect_example :
    let after = datagram_received client report_datagram device 600 in
    ((window : Window) × (after ≡ (with_window client window, none)))
    ⊎ ((packet : DecodedPacket) × FromDevice client report_datagram device packet
        × Learned client after.0 packet device
        × Observed client after.0 packet 600)
datagram_received_effect_example = datagram_received_effect client report_datagram device 600

datagram_received_again_example :
    let after = (datagram_received client report_datagram device 600).0 in
    (window : Window) × (datagram_received after report_datagram device 3600
      ≡ (with_window after window, none))
unfolding seen prune
datagram_received_again_example =
    datagram_received_again client report_datagram device device 600 3600 refl refl (omega arith)

datagram_received-IsWindow_example :
    IsWindow (datagram_received client report_datagram device 600).0.recent_datagrams
datagram_received-IsWindow_example =
    datagram_received-IsWindow client report_datagram device 600 (omega arith, tt)

-- A client of an X83 that waits for it to be on.
abbrev x83_client : Client
x83_client = record client { model = x83; codec = a5a0_codec; identity = x83_identity }

abbrev is_on_state : DeviceState
is_on_state = record empty_state { power = some on }

abbrev sensors_42 : DeviceState
sensors_42 = record empty_state { pm25 = some 42 }

abbrev light_1 : DeviceState
light_1 = record empty_state { backlight = some 1 }
