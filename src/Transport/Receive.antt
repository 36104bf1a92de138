-- ===== src/Transport/Receive.antt =====
-- What `LocalDeviceClient` does with one datagram: `_datagram_received` and the functions it calls.
-- An exception of the confirmation leaves the client as it is by then, so it is returned beside it.
use ha_352air_legacy_local.Base.{
  ℕ, ◌+◌, Bool, true, false, Option, none, some, List, [], ◌∷◌, ◌++◌, ◌==◌, ltb, ◌||◌, ◌&&◌, not,
  if◌then◌else◌, one_of, length, drop, Result, ok, err, Error,
}
use ha_352air_legacy_local.Base.Bytes.{Bytes, bytes_eq}
use ha_352air_legacy_local.Models.{Command, HeaderIdentity, same_kind, same_family, m25_family}
use ha_352air_legacy_local.Models.State.{DeviceState, Endpoint, DecodedPacket, lookup}
use ha_352air_legacy_local.Codec.{decode}
use ha_352air_legacy_local.Transport.{
  Client, PendingState, state_event, identity_event, merge_state, state_confirms_command,
}

-- The window of the datagrams seen, oldest first, with the times they came.
abbrev pub Window : Type 0
Window = List (Bytes × ℕ)

-- _prune_duplicates: older than three seconds.
unfoldable pub prune : ℕ → Window → Window
prune now [] = []
prune now ((known, received_at) ∷ rest) =
    if ltb (received_at + 3000) now then prune now rest else (known, received_at) ∷ prune now rest

-- `datagram in self._recent_datagrams`
unfoldable pub seen : Bytes → Window → Bool
seen datagram [] = false
seen datagram ((known, received_at) ∷ rest) = bytes_eq known datagram || seen datagram rest

-- A new datagram goes last; of more than 512 the first is dropped.
unfoldable pub remember : Bytes → ℕ → Window → Window
remember datagram now window =
    let longer = window ++ (datagram, now) ∷ [] in
    if ltb 512 (length longer) then drop 1 longer else longer

abbrev pub same_identity : HeaderIdentity → HeaderIdentity → Bool
same_identity a b =
    bytes_eq a.mac b.mac && a.company == b.company && a.wire_type == b.wire_type && a.auth == b.auth

-- _learn_identity
unfoldable pub learn_identity : Client → HeaderIdentity → Client
learn_identity c learned =
    if same_identity learned c.identity
    then c
    else record c { identity = learned; delivered = c.delivered ++ identity_event learned ∷ [] }

-- `_resolve_matching_pending` for one wait: whether the packet answers it.
abbrev pub is_broadcast : Option ℕ → Bool
is_broadcast none = false
is_broadcast (some operation) = one_of operation (0x04 ∷ 0x06 ∷ [])

abbrev pub matched_inner : Option ℕ → List ℕ → Bool
matched_inner none sequences = false
matched_inner (some sequence) sequences = one_of sequence sequences

abbrev is_done : PendingState → Bool
is_done p = elim p.outcome [ none ↦ false | some _ ↦ true ]

unfoldable pub matches : DecodedPacket → ℕ → PendingState → Bool
matches packet received_at p =
    not (is_done p || ltb received_at p.created_at)
    && same_kind packet.kind p.expected_kind
    && (one_of packet.sequence p.outer_sequences
        || matched_inner packet.inner_sequence p.inner_sequences
        || is_broadcast (lookup "outer_operation" packet.raw_metadata))

abbrev pub resolved : PendingState → DeviceState → PendingState
resolved p merged = record p { outcome = some (ok merged) }

-- Without a command there is nothing to confirm.
abbrev pub confirmed : Client → DeviceState → Option Command → Result Bool
confirmed c merged none = ok true
confirmed c merged (some command) = state_confirms_command c merged command

unfoldable pub resolve :
    Client → DecodedPacket → DeviceState → ℕ → PendingState → Result PendingState
resolve c packet merged received_at p =
    if matches packet received_at p
    then elim (confirmed c merged p.command) [
      | err e ↦ err e
      | ok shown ↦ ok (if shown then resolved p merged else p)
    ]
    else ok p

-- _resolve_matching_pending: an exception leaves the later waits as they are.
unfoldable pub resolve_pending :
    Client → DecodedPacket → DeviceState → ℕ → List PendingState → List PendingState × Option Error
resolve_pending c packet merged received_at [] = ([], none)
resolve_pending c packet merged received_at (p ∷ rest) =
    let later = resolve_pending c packet merged received_at rest in
    elim (resolve c packet merged received_at p) [
      | err e ↦ (p ∷ rest, some e)
      | ok q ↦ (q ∷ later.0, later.1)
    ]

abbrev pub next_state : Client → DecodedPacket → DeviceState → DeviceState
next_state c packet received =
    if same_family packet.family m25_family then merge_state c.observed received else received

-- From `self._state = merged_state` on.
unfoldable pub observe : Client → DecodedPacket → DeviceState → ℕ → Client × Option Error
observe c packet merged now =
    let informed = record c {
      observed = some merged;
      available = true;
      last_state_at = some now;
      delivered = c.delivered ++ state_event merged ∷ [];
    } in
    let pending = resolve_pending informed packet merged now c.pending in
    (record informed { pending = pending.0 }, pending.1)

-- From the comparison of the MAC on.
unfoldable pub accept : Client → DecodedPacket → Endpoint → ℕ → Client × Option Error
accept c packet source now =
    let learned = record (learn_identity c packet.identity) { host = source.host } in
    if bytes_eq packet.identity.mac c.identity.mac
    then elim packet.observed [
      | none ↦ (learned, none)
      | some received ↦ observe learned packet (next_state c packet received) now
    ]
    else (c, none)

-- From the decoding on.
unfoldable pub decode_datagram : Client → Bytes → Endpoint → ℕ → Client × Option Error
decode_datagram c datagram source now = elim (decode c.codec datagram source) [
  | err _ ↦ (c, none)
  | ok none ↦ (c, none)
  | ok (some packet) ↦ accept c packet source now
]

-- _datagram_received
unfoldable pub datagram_received : Client → Bytes → Endpoint → ℕ → Client × Option Error
datagram_received c datagram source now =
    if c.closed || not (source.port == c.port) || not c.has_loop
    then (c, none)
    else (let recent = prune now c.recent_datagrams in
        if seen datagram recent
        then (record c { recent_datagrams = recent }, none)
        else decode_datagram (record c { recent_datagrams = remember datagram now recent }) datagram
            source now)
