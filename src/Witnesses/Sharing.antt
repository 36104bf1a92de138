-- ===== src/Witnesses/Sharing.antt =====
-- Two consumers of the shared socket.
use ha_352air_legacy_local.Base.{◌≡◌, refl, true, false, [], ◌∷◌, ok}
use ha_352air_legacy_local.Base.Bytes.{bytes_eq}
use ha_352air_legacy_local.Udp.{UdpLoop, acquire, release, subscribe, build, same_key}
use ha_352air_legacy_local.Udp.Sharing.{
  no_endpoints, Reaches, starts, after, acquires, releases, Reaches-Refines,
}
use ha_352air_legacy_local.Udp.Refining.{Refines}
use ha_352air_legacy_local.Witnesses.{device}

abbrev one_socket : UdpLoop
one_socket = subscribe 0 7 (build device 11530 no_endpoints)

abbrev two_holders : UdpLoop
two_holders = subscribe 0 8 one_socket

first_acquired : acquire true true 7 device no_endpoints ≡ ok (0, one_socket)
unfolding acquire
first_acquired = refl

second_acquired : acquire false false 8 device one_socket ≡ ok (0, two_holders)
unfolding acquire subscribe build same_key bytes_eq
second_acquired = refl

two_Reaches : Reaches (two_holders, (0, 8) ∷ (0, 7) ∷ [])
two_Reaches =
    after (after starts (acquires true true 0 7 device first_acquired refl))
      (acquires false false 0 8 device second_acquired refl)

Reaches-Refines_example : Refines (release 0 7 two_holders) ((0, 8) ∷ [])
Reaches-Refines_example =
    Reaches-Refines (release 0 7 two_holders, (0, 8) ∷ []) (after two_Reaches (releases 0 7 refl))
