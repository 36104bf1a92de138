-- ===== src/Models/Laws.antt =====
-- What the constructors of models.py let through, and the modes.
use ha_352air_legacy_local.Base.{ℕ, ◌≡◌, ok, arith}
use ha_352air_legacy_local.Base.Bytes.{Bytes, IsBytes}
use ha_352air_legacy_local.Models.{
  HeaderIdentity, make_identity, IsIdentity, CommandContext, make_context, IsContext, known_mode,
  mode_int,
}

pub make_identity-ok :
    (h : HeaderIdentity) → IsIdentity h → make_identity h.mac h.company h.wire_type h.auth ≡ ok h
unfolding make_identity
make_identity-ok h v = ground arith

-- `HeaderIdentity(…)` succeeds on a six-byte MAC with a company and a wire type of 8 bits and an
-- auth of 16 bits, on nothing else, and stores what it was given.
pub make_identity-IsIdentity :
    (mac : Bytes) (company wire_type auth : ℕ) {h : HeaderIdentity}
    → IsBytes mac
    → make_identity mac company wire_type auth ≡ ok h
    → IsIdentity h
      × (h.mac ≡ mac)
      × (h.company ≡ company)
      × (h.wire_type ≡ wire_type)
      × (h.auth ≡ auth)
unfolding make_identity
make_identity-IsIdentity mac company wire_type auth b e = ground arith

pub make_context-ok :
    (c : CommandContext)
    → IsContext c
    → make_context c.identity c.outer_sequence c.inner_sequence c.model c.outer_operation ≡ ok c
unfolding make_context
make_context-ok c v = ground arith

-- A mode keeps its number, whether it has a name or not.
pub mode_int-known_mode : (n : ℕ) → mode_int (known_mode n) ≡ n
unfolding known_mode
mode_int-known_mode n = ground arith
