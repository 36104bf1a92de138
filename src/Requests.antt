-- ===== src/Requests.antt =====
-- The writes of `LocalDeviceClient` in transport.py: what `_execute_command` sends and waits for, and
-- the attempts of `_send_for_state`. Whether a datagram could be sent, and what an
-- attempt's wait came to before its timeout, are given for each attempt, counted down to 0.
pub mod Attempts
pub mod Numbers
use ha_352air_legacy_local.Base.{
  ℕ, zero, suc, ◌+◌, Bool, true, false, Option, none, some, List, [], ◌∷◌, ◌++◌, if◌then◌else◌,
  Result, ok, err, Error, client_closed, request_timeout,
}
use ha_352air_legacy_local.Base.Bytes.{Bytes}
use ha_352air_legacy_local.Models.{
  Command, CommandContext, CommandOperation, backlight_op, PacketKind, m25_family, same_family,
}
use ha_352air_legacy_local.Models.State.{DeviceState}
use ha_352air_legacy_local.Codec.{
  DeviceCodec, codec_family, encode_query, encode_command, encode_backlight_query,
}
use ha_352air_legacy_local.Transport.{Client, next_context}

-- The arguments of _send_for_state.
pub record Request : Type 0 where
  pub datagrams : List Bytes
  pub outer_sequences : List ℕ
  pub inner_sequences : List ℕ
  pub command : Option Command
  pub expected_kind : PacketKind
  pub retries : ℕ

-- The query behind a command, and the kind of the reply that is waited for.
unfoldable pub query_for :
    DeviceCodec → CommandOperation → CommandContext → Result (Bytes × PacketKind)
query_for codec backlight_op context = elim (encode_backlight_query codec) [
  | some encode ↦ elim (encode context) [
    | err e ↦ err e
    | ok datagram ↦ ok (datagram, PacketKind.backlight_kind)
  ]
  | none ↦ elim (encode_query codec context) [
    | err e ↦ err e
    | ok datagram ↦ ok (datagram, PacketKind.state)
  ]
]
query_for codec _ context = elim (encode_query codec context) [
  | err e ↦ err e
  | ok datagram ↦ ok (datagram, PacketKind.state)
]

-- The second half of `_execute_command`, once the command is encoded.
abbrev pub with_query : Client → Command → CommandContext → Bytes → Client × Result Request
with_query c command first datagram = elim (next_context c) [
  | err e ↦ (c, err e)
  | ok (second, d) ↦ elim (query_for c.codec command.operation second) [
    | err e ↦ (d, err e)
    | ok (query, kind) ↦ (
      d,
      ok (record {
        datagrams = datagram ∷ query ∷ [];
        outer_sequences = first.outer_sequence ∷ second.outer_sequence ∷ [];
        inner_sequences = first.inner_sequence ∷ second.inner_sequence ∷ [];
        command = some command;
        expected_kind = kind;
        retries = 3;
      }),
    )
  ]
]

-- _execute_command, up to _send_for_state: an exception leaves the counters as they are by then.
unfoldable pub command_request : Client → Command → Client × Result Request
unfolding query_for
command_request c command = if c.closed then (c, err client_closed) else elim (next_context c) [
  | err e ↦ (c, err e)
  | ok (first, d) ↦ elim (encode_command c.codec first command) [
    | err e ↦ (d, err e)
    | ok datagram ↦ with_query d command first datagram
  ]
]

-- How the attempts end: a datagram could not be sent, the wait was over, or all timed out.
pub data Ending : Type 0 where
  unsent : Error → Ending
  answered : Result DeviceState → Ending
  timed_out : Ending

-- `_send` of each datagram in turn; the first that cannot be sent ends it.
unfoldable pub send_all : List Bytes → (ℕ → Option Error) → ℕ → List Bytes × Option Error
send_all [] failure index = ([], none)
send_all (datagram ∷ rest) failure index =
    let later = send_all rest failure (index + 1) in
    elim (failure index) [ some e ↦ ([], some e) | none ↦ (datagram ∷ later.0, later.1) ]

-- The loop of _send_for_state.
unfoldable pub run_attempts :
    ℕ
    → List Bytes
    → (ℕ → ℕ → Option Error)
    → (ℕ → Option (Result DeviceState))
    → List Bytes × Ending
run_attempts zero datagrams failures waits = ([], timed_out)
run_attempts (suc left) datagrams failures waits =
    let later = run_attempts left datagrams failures waits in
    let (sent, failed) = send_all datagrams (failures left) 0 in
    elim failed [
      | some e ↦ (sent, unsent e)
      | none ↦ elim (waits left) [
        | some result ↦ (sent, answered result)
        | none ↦ (sent ++ later.0, later.1)
      ]
    ]

-- What _send_for_state returns or raises, and the client behind it.
unfoldable pub end_request : Client → Ending → Client × Result DeviceState
end_request c (unsent e) = (c, err e)
end_request c (answered result) = (c, result)
end_request c timed_out = (record c { available = false }, err request_timeout)
