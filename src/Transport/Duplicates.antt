-- ===== src/Transport/Duplicates.antt =====
-- The window of the datagrams seen in the last three seconds.
use ha_352air_legacy_local.Base.{
  ℕ, ◌+◌, ◌≤◌, ◌≡◌, refl, ◌⊎◌, inl, inr, true, false, Option, none, some, [], ◌∷◌, ◌++◌, Result, ok,
  err, arith, Bool-cases, ◌==◌, ◌||◌, not, length, length-append,
}
use ha_352air_legacy_local.Base.Bytes.{Bytes, bytes_eq, bytes_eq_self}
use ha_352air_legacy_local.Models.State.{Endpoint, DecodedPacket}
use ha_352air_legacy_local.Codec.{decode}
use ha_352air_legacy_local.Transport.{Client}
use ha_352air_legacy_local.Transport.Receive.{
  datagram_received, decode_datagram, accept, observe, learn_identity, Window, seen, prune,
  remember,
}
use ha_352air_legacy_local.Transport.Trust.{with_window}

-- No datagram stands twice.
abbrev Distinct : Window → Type 0
Distinct [] = Unit
Distinct ((d, t) ∷ rest) = (seen d rest ≡ false) × Distinct rest

abbrev pub IsWindow : Window → Type 0
IsWindow w = (length w ≤ 512) × Distinct w

seen-prune : (d : Bytes) (now : ℕ) (w : Window) → seen d w ≡ false → seen d (prune now w) ≡ false
unfolding seen prune
seen-prune d now [] h = refl
seen-prune d now ((k, t) ∷ rest) h = ground (arith, seen-prune d now rest)

prune-Distinct : (now : ℕ) (w : Window) → Distinct w → Distinct (prune now w)
unfolding prune
prune-Distinct now [] h = tt
prune-Distinct now ((k, t) ∷ rest) h =
    ground (arith, prune-Distinct now rest h.1, seen-prune k now rest h.0)

length-prune : (now : ℕ) (w : Window) → length (prune now w) ≤ length w
unfolding prune
length-prune now [] = omega arith
length-prune now ((k, t) ∷ rest) = ground (arith, length-prune now rest)

bytes_eq_sym : (xs ys : Bytes) → bytes_eq xs ys ≡ bytes_eq ys xs
unfolding bytes_eq
bytes_eq_sym [] [] = refl
bytes_eq_sym [] (y ∷ ys) = refl
bytes_eq_sym (x ∷ xs) [] = refl
bytes_eq_sym (x ∷ xs) (y ∷ ys) = ground (arith, bytes_eq_sym xs ys)

seen-append :
    (k d : Bytes) (now : ℕ) (w : Window)
    → seen k w ≡ false
    → bytes_eq k d ≡ false
    → seen k (w ++ (d, now) ∷ []) ≡ false
unfolding seen
seen-append k d now [] h n = ground (arith, bytes_eq_sym k d)
seen-append k d now ((l, t) ∷ rest) h n = ground (arith, seen-append k d now rest)

append-Distinct :
    (d : Bytes) (now : ℕ) (w : Window)
    → Distinct w
    → seen d w ≡ false
    → Distinct (w ++ (d, now) ∷ [])
unfolding seen
append-Distinct d now [] h n = (refl, tt)
append-Distinct d now ((l, t) ∷ rest) h n =
    ground (arith, append-Distinct d now rest h.1, seen-append l d now rest h.0)

remember-IsWindow :
    (d : Bytes) (now : ℕ) (w : Window) → IsWindow w → seen d w ≡ false → IsWindow (remember d now w)
unfolding remember
remember-IsWindow d now [] h n = ground (arith, append-Distinct d now [] h.1 n)
remember-IsWindow d now (x ∷ rest) h n =
    ground (arith, append-Distinct d now (x ∷ rest) h.1 n, length-append rest ((d, now) ∷ []))

prune-IsWindow : (now : ℕ) (w : Window) → IsWindow w → IsWindow (prune now w)
prune-IsWindow now w h = (omega (arith, length-prune now w, h.0), prune-Distinct now w h.1)

-- Deciding on a packet leaves the window, and whether the client listens.
abbrev SameListening : Client → Client → Type 0
SameListening c d =
    (d.recent_datagrams ≡ c.recent_datagrams)
    × (d.closed ≡ c.closed)
    × (d.has_loop ≡ c.has_loop)
    × (d.port ≡ c.port)

accept-SameListening :
    (c : Client) (packet : DecodedPacket) (source : Endpoint) (now : ℕ)
    → SameListening c (accept c packet source now).0
unfolding accept observe learn_identity
accept-SameListening c packet source now = ground arith

decode_datagram-SameListening :
    (c : Client) (d : Bytes) (source : Endpoint) (now : ℕ)
    → SameListening c (decode_datagram c d source now).0
unfolding decode_datagram
decode_datagram-SameListening c d source now = by_result (decode c.codec d source) refl
  where
    by_result :
        (r : Result (Option DecodedPacket))
        → decode c.codec d source ≡ r
        → SameListening c (decode_datagram c d source now).0
    by_result (err e) q = ground arith
    by_result (ok none) q = ground arith
    by_result (ok (some packet)) q = ground (arith, accept-SameListening c packet source now)

-- The window keeps no datagram twice and at most 512.
pub datagram_received-IsWindow :
    (c : Client) (d : Bytes) (source : Endpoint) (now : ℕ)
    → IsWindow c.recent_datagrams
    → IsWindow (datagram_received c d source now).0.recent_datagrams
unfolding datagram_received
datagram_received-IsWindow c d source now h =
    let recent = prune now c.recent_datagrams in
    let ok' = prune-IsWindow now c.recent_datagrams h in
    ground (
      arith,
      remember-IsWindow d now recent ok',
      decode_datagram-SameListening (with_window c (remember d now recent)) d source now,
    )

seen_last :
    (d : Bytes) (t now : ℕ) (w : Window)
    → now ≤ t + 3000
    → seen d (prune now (w ++ (d, t) ∷ [])) ≡ true
unfolding seen prune
seen_last d t now [] h = ground (arith, bytes_eq_self d)
seen_last d t now ((k, u) ∷ rest) h = ground (arith, seen_last d t now rest h)

seen-remember :
    (d : Bytes) (t now : ℕ) (w : Window)
    → now ≤ t + 3000
    → seen d (prune now (remember d t w)) ≡ true
unfolding remember
seen-remember d t now [] h = seen_last d t now [] h
seen-remember d t now (x ∷ rest) h =
    ground (arith, seen_last d t now rest h, seen_last d t now (x ∷ rest) h)

received :
    (c : Client) (d : Bytes) (source : Endpoint) (now : ℕ)
    → source.port ≡ c.port
    → seen d (prune now c.recent_datagrams) ≡ false
    → let after = (datagram_received c d source now).0 in
      (after.closed ≡ c.closed)
      × (after.has_loop ≡ c.has_loop)
      × (after.port ≡ c.port)
      × (((c.closed || not c.has_loop) ≡ true)
          ⊎ (after.recent_datagrams ≡ remember d now (prune now c.recent_datagrams)))
unfolding datagram_received
received c d source now p n = ground (
  arith,
  decode_datagram-SameListening (with_window c (remember d now (prune now c.recent_datagrams))) d
      source now,
)

ignored :
    (c : Client) (d : Bytes) (source : Endpoint) (now : ℕ)
    → ((c.closed || not c.has_loop) ≡ true) ⊎ (seen d (prune now c.recent_datagrams) ≡ true)
    → (window : Window) × (datagram_received c d source now ≡ (with_window c window, none))
unfolding datagram_received
ignored c d source now h =
    elim (Bool-cases (c.closed || not (source.port == c.port) || not c.has_loop)) [
      | inl t ↦ (c.recent_datagrams, rw (datagram_received, t) refl)
      | inr t ↦ (prune now c.recent_datagrams, ground arith)
    ]

-- A datagram that was not in the window of its time is taken up once: whoever sends it again within
-- three seconds, at any port, nothing changes but that older entries leave the window.
pub datagram_received_again :
    (c : Client) (d : Bytes) (first second : Endpoint) (t now : ℕ)
    → first.port ≡ c.port
    → seen d (prune t c.recent_datagrams) ≡ false
    → now ≤ t + 3000
    → let after = (datagram_received c d first t).0 in
      (window : Window) × (datagram_received after d second now ≡ (with_window after window, none))
datagram_received_again c d first second t now p n h =
    let (closed, loop, port, window) = received c d first t p n in
    ignores (datagram_received c d first t).0 window closed loop
  where
    ignores :
        (after : Client)
        → ((c.closed || not c.has_loop) ≡ true)
          ⊎ (after.recent_datagrams ≡ remember d t (prune t c.recent_datagrams))
        → after.closed ≡ c.closed
        → after.has_loop ≡ c.has_loop
        → (window : Window) × (datagram_received after d second now
            ≡ (with_window after window, none))
    ignores after (inl off) closed loop = ignored after d second now (inl (rw (closed, loop) off))
    ignores after (inr w) closed loop =
        ignored after d second now
          (inr (rw w (seen-remember d t now (prune t c.recent_datagrams) h)))
