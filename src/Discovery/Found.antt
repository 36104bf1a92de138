-- ===== src/Discovery/Found.antt =====
-- What the collectors hold, whatever is received.
use ha_352air_legacy_local.Base.{
  ◌+◌, ◌≤◌, ◌≡◌, refl, inl, inr, false, Option, none, some, List, [], ◌∷◌, ◌==◌, ltb, ◌&&◌, ◌||◌,
  not, if◌then◌else◌, if_elim, length, one_of, Result, ok, err, ◌>>=◌, All, arith, Bool-cases,
}
use mathlib.Core.Path.{subst}
use ha_352air_legacy_local.Base.Bytes.{Bytes, bytes_eq, bytes_eq_self, bytes_eq→eq}
use ha_352air_legacy_local.Models.State.{Endpoint}
use ha_352air_legacy_local.Outer.{Parsed, rejected, frame, parse_outer_frame}
use ha_352air_legacy_local.Schedule.{Device}
use ha_352air_legacy_local.Discovery.Search.{
  NetworkSearch, any_equal, has_key, put, differs, add_found, network_parsed, network_received,
  no_macs, read_found, all_wire_types,
}
use ha_352air_legacy_local.Discovery.{device_port}

-- A result stands under its own MAC, which is not excluded and is the expected one.
abbrev Stands : NetworkSearch → Bytes × Device → Type 0
Stands s e =
    (e.1.mac ≡ e.0)
    × (any_equal (e.0) s.excluded_macs ≡ false)
    × (differs s.expected_mac (e.0) ≡ false)

abbrev Distinct : List (Bytes × Device) → Type 0
Distinct [] = Unit {0}
Distinct ((mac, _) ∷ results) = (has_key mac results ≡ false) × Distinct results

pub record IsSearch (s : NetworkSearch) : Type 0 where
  pub bounded : length s.results ≤ 64
  pub standing : All (Stands s) s.results
  pub distinct : Distinct s.results

length-put :
    (mac : Bytes) (device : Device) (results : List (Bytes × Device))
    → length (put mac device results)
      ≡ (if has_key mac results then length results else length results + 1)
unfolding put
length-put mac device [] = refl
length-put mac device ((other, old) ∷ results) = ground (arith, length-put mac device results)

has_key-put :
    (read mac : Bytes) (device : Device) (results : List (Bytes × Device))
    → has_key read (put mac device results) ≡ (bytes_eq read mac || has_key read results)
unfolding put
has_key-put read mac device [] = ground arith
has_key-put read mac device ((other, old) ∷ results) =
    ground (arith, has_key-put read mac device results, bytes_eq→eq mac other)

has_key-other :
    (mac other : Bytes) (device : Device) (results : List (Bytes × Device))
    → bytes_eq mac other ≡ false
    → has_key other results ≡ false
    → has_key other (put mac device results) ≡ false
has_key-other mac other device results d h =
    ground (arith, has_key-put other mac device results, d, h, swap)
  where
    swap : bytes_eq other mac ≡ false
    swap = elim (Bool-cases (bytes_eq other mac)) [
      | inr f ↦ f
      | inl t ↦ absurd (cc (d, bytes_eq_self mac, bytes_eq→eq other mac t))
    ]

Distinct-put :
    (mac : Bytes) (device : Device) (results : List (Bytes × Device))
    → Distinct results
    → Distinct (put mac device results)
unfolding put
Distinct-put mac device [] d = (refl, tt)
Distinct-put mac device ((other, old) ∷ results) d =
    if_elim Distinct (bytes_eq mac other) _ _ (λ t. d)
      (λ f. (has_key-other mac other device results f (d.0), Distinct-put mac device results (d.1)))

All-put :
    (P : Bytes × Device → Type 0) (mac : Bytes) (device : Device) (results : List (Bytes × Device))
    → P (mac, device)
    → All P results
    → All P (put mac device results)
unfolding put
All-put P mac device [] p a = (p, tt)
All-put P mac device ((other, old) ∷ results) p a =
    if_elim (All P) (bytes_eq mac other) _ _
      (λ t. (subst (λ m. P (m, device)) (bytes_eq→eq mac other t) p, a.1))
      (λ f. (a.0, All-put P mac device results p (a.1)))

add_found-IsSearch :
    (s : NetworkSearch) (device : Device) → IsSearch s → IsSearch (add_found s device)
add_found-IsSearch s device v =
    if_elim IsSearch (any_equal device.mac s.excluded_macs || differs s.expected_mac device.mac) _ _
      (λ _. v)
      (λ f.
        if_elim IsSearch (has_key device.mac s.results || ltb (length s.results) 64) _ _
          (λ t. record {
            bounded = ground (arith, v.bounded, t, length-put device.mac device s.results);
            standing =
                All-put (Stands s) device.mac device s.results
                  (refl, ground (arith, f), ground (arith, f)) v.standing;
            distinct = Distinct-put device.mac device s.results v.distinct;
          })
          (λ _. v))

-- Every call keeps it.
abbrev Keeps : Result NetworkSearch → Type 0
Keeps r = (s : NetworkSearch) → r ≡ ok s → IsSearch s

bind-Keeps {ℓ} :
    {A : Type ℓ} (r : Result A) (next : A → Result NetworkSearch)
    → ((a : A) → Keeps (next a))
    → Keeps (r >>= next)
bind-Keeps (err x) next h s e = absurd (ground (arith, e))
bind-Keeps (ok a) next h s e = h a s e

ok-Keeps : (s : NetworkSearch) → IsSearch s → Keeps (ok s)
ok-Keeps s v q e = subst IsSearch (ground (arith, e)) v

network_parsed-Keeps :
    (s : NetworkSearch) (datagram : Bytes) (source : Endpoint)
    → IsSearch s
    → (outer : Parsed) → Keeps (network_parsed s datagram source outer)
unfolding network_parsed
network_parsed-Keeps s datagram source v (rejected _) = ok-Keeps s v
network_parsed-Keeps s datagram source v (frame outer) =
    if_elim Keeps
      (source.port == device_port
        && one_of outer.identity.wire_type all_wire_types
        && not (any_equal outer.identity.mac no_macs))
      _ _ (λ _. bind-Keeps (read_found s datagram source outer) _ added) (λ _. ok-Keeps s v)
  where
    added :
        (read : Option Device)
        → Keeps (ok (elim read [ none ↦ s | some device ↦ add_found s device ]))
    added none = ok-Keeps s v
    added (some device) = ok-Keeps (add_found s device) (add_found-IsSearch s device v)

pub network_received-Keeps :
    (s : NetworkSearch) (datagram : Bytes) (source : Endpoint)
    → IsSearch s
    → Keeps (network_received s datagram source)
unfolding network_received
network_received-Keeps s datagram source v =
    let counted : NetworkSearch = record s { received = s.received + 1 } in
    let w : IsSearch counted = record {
      bounded = v.bounded;
      standing = v.standing;
      distinct = v.distinct;
    } in
    if_elim Keeps (differs s.expected_host source.host) _ _ (λ _. ok-Keeps counted w)
      (λ _.
        bind-Keeps (parse_outer_frame datagram) _ (network_parsed-Keeps counted datagram source w))
