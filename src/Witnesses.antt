-- ===== src/Witnesses.antt =====
-- Concrete devices, and the theorems at them, one child for each part.
mod Frames
mod Purifiers
mod Detector
mod Reception
mod Commands
mod Schedules
mod Writes
mod Entities
mod Sharing
mod Messages
mod Searches
mod Tools
use ha_352air_legacy_local.Base.{none, some, [], ◌∷◌, arith}
use ha_352air_legacy_local.Models.{
  HeaderIdentity, IsIdentity, CommandContext, IsContext, Command, power_op, f072_g30, g45,
}
use ha_352air_legacy_local.Models.State.{Endpoint}
use ha_352air_legacy_local.F072.{F072Codec}

abbrev x83_identity : HeaderIdentity
x83_identity = record {
  mac = 0x00 ∷ 0x11 ∷ 0x22 ∷ 0x33 ∷ 0x44 ∷ 0x55 ∷ [];
  company = 0xF1;
  wire_type = 2;
  auth = 0xCB76;
}

abbrev x83_context : CommandContext
x83_context = record {
  identity = x83_identity;
  outer_sequence = 0x1234;
  inner_sequence = 7;
  model = none;
  outer_operation = 4;
}

x83_context-IsContext : IsContext x83_context
x83_context-IsContext = omega arith

abbrev g45_codec : F072Codec
g45_codec = record { family = f072_g30; model = some g45 }

abbrev g45_context : CommandContext
g45_context = record x83_context { identity = record x83_identity { wire_type = 4 } }

g45_context-IsContext : IsContext g45_context
g45_context-IsContext = omega arith

-- 192.168.1.9
abbrev device : Endpoint
device = record {
  host = 0x31 ∷ 0x39 ∷ 0x32 ∷ 0x2E ∷ 0x31 ∷ 0x36 ∷ 0x38 ∷ 0x2E ∷ 0x31 ∷ 0x2E ∷ 0x39 ∷ [];
  port = 11530;
}
