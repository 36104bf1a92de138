-- ===== src/Udp/Holders.antt =====
-- Who holds which endpoint: the pairs of an endpoint and a callback, each once.
use ha_352air_legacy_local.Base.{
  ℕ, ◌+◌, ◌-◌, ◌≤◌, ◌≡◌, refl, Bool, true, false, List, [], ◌∷◌, ◌==◌, ◌&&◌, ◌||◌, not, if_elim,
  if◌then◌else◌, arith,
}

abbrev pub Holders : Type 0
Holders = List (ℕ × ℕ)

abbrev pub is_holder : ℕ → ℕ → ℕ × ℕ → Bool
is_holder id callback h = id == h.0 && callback == h.1

abbrev pub holds : ℕ → ℕ → Holders → Bool
holds id callback [] = false
holds id callback (h ∷ hs) = is_holder id callback h || holds id callback hs

abbrev pub count : ℕ → Holders → ℕ
count id [] = 0
count id (h ∷ hs) = if id == h.0 then count id hs + 1 else count id hs

abbrev pub leave : ℕ → ℕ → Holders → Holders
leave id callback [] = []
leave id callback (h ∷ hs) =
    if is_holder id callback h then leave id callback hs else h ∷ leave id callback hs

abbrev pub Apart : Holders → Type 0
Apart [] = Unit {0}
Apart (h ∷ hs) = (holds h.0 h.1 hs ≡ false) × Apart hs

pub holds-leave :
    (i c id callback : ℕ) (hs : Holders)
    → holds i c (leave id callback hs) ≡ (holds i c hs && not (i == id && c == callback))
holds-leave i c id callback [] = refl
holds-leave i c id callback (h ∷ hs) = ground (arith, holds-leave i c id callback hs)

absent-leave :
    (id callback : ℕ) (hs : Holders) (i : ℕ)
    → holds id callback hs ≡ false
    → count i (leave id callback hs) ≡ count i hs
absent-leave id callback [] i n = refl
absent-leave id callback (h ∷ hs) i n = ground (arith, absent-leave id callback hs i)

pub holds-count : (id callback : ℕ) (hs : Holders) → holds id callback hs ≡ true → 1 ≤ count id hs
holds-count id callback [] t = absurd (cc t)
holds-count id callback (h ∷ hs) t = ground (arith, holds-count id callback hs)

pub count-leave :
    (i id callback : ℕ) (hs : Holders)
    → Apart hs
    → holds id callback hs ≡ true
    → count i (leave id callback hs) ≡ (if i == id then count i hs - 1 else count i hs)
count-leave i id callback [] a t = absurd (cc t)
count-leave i id callback (h ∷ hs) a t = ground (
  arith,
  count-leave i id callback hs (a.1),
  absent-leave id callback hs i,
  a.0,
  holds-count id callback hs,
)

pub Apart-leave : (id callback : ℕ) (hs : Holders) → Apart hs → Apart (leave id callback hs)
Apart-leave id callback [] a = tt
Apart-leave id callback (h ∷ hs) a =
    if_elim Apart (is_holder id callback h) (leave id callback hs) (h ∷ leave id callback hs)
      (λ _. Apart-leave id callback hs (a.1))
      (λ _. (
        ground (arith, holds-leave (h.0) (h.1) id callback hs, a.0),
        Apart-leave id callback hs (a.1),
      ))
