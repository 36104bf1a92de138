-- ===== src/Packet.antt =====
-- What every codec's `decode` promises of the packet that it returns.
use ha_352air_legacy_local.Base.{◌≡◌, ◌⊎◌, Option, none, some, Result, ok}
use ha_352air_legacy_local.Models.State.{Endpoint, DecodedPacket}
use ha_352air_legacy_local.Outer.{OuterFrame}

-- A packet that carries over the frame's identity and sequence and the peer's address.
abbrev pub IsPacketOf : (DecodedPacket → Type 0) → OuterFrame → Endpoint → DecodedPacket → Type 0
IsPacketOf IsReport f source p =
    IsReport p × (p.identity ≡ f.identity) × (p.sequence ≡ f.sequence) × (p.source ≡ source)

-- No exception: None, or a packet of the frame.
abbrev pub Outcome :
    (DecodedPacket → Type 0) → OuterFrame → Endpoint → Result (Option DecodedPacket) → Type 0
Outcome IsReport f source r =
    (r ≡ ok none) ⊎ ((p : DecodedPacket) × (r ≡ ok (some p)) × IsPacketOf IsReport f source p)
