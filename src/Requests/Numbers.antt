-- ===== src/Requests/Numbers.antt =====
-- The sequence numbers of a command and the query behind it.
use ha_352air_legacy_local.Base.{
  ℕ, ◌+◌, ◌%◌, ◌≡◌, ◌≢◌, refl, inl, inr, false, some, [], ◌∷◌, Result, ok, err, Error, arith,
  Bool-cases, client_closed, true, Result-cases,
}
use mathlib.Core.Path.{subst, sym}
use ha_352air_legacy_local.Base.Bytes.{Bytes, IsU16}
use ha_352air_legacy_local.Models.{
  Command, CommandContext, CommandOperation, backlight_op, PacketKind, make_context,
}
use ha_352air_legacy_local.Codec.{
  DeviceCodec, m25_codec, encode_command, encode_query, encode_backlight_query,
}
use ha_352air_legacy_local.M25
use ha_352air_legacy_local.Transport.{Client, next_context, preview_context}
use ha_352air_legacy_local.Requests.{Request, command_request, with_query, query_for}

abbrev next_number : ℕ → ℕ
next_number n = (n + 1) % 65536

abbrev advanced : Client → Client
advanced c = record c {
  outer_sequence = next_number c.outer_sequence;
  inner_sequence = next_number c.inner_sequence;
}

abbrev numbered : Client → CommandContext
numbered c = record (preview_context c) {
  outer_sequence = c.outer_sequence;
  inner_sequence = c.inner_sequence;
}

abbrev HasNumbers : Client → Type 0
HasNumbers c = IsU16 c.outer_sequence × IsU16 c.inner_sequence

next_context-numbered : (c : Client) → HasNumbers c → next_context c ≡ ok (numbered c, advanced c)
unfolding next_context make_context
next_context-numbered c h = ground arith

-- The query behind a command: an M25's backlight is asked for, of all else the state.
abbrev pub expected_query : DeviceCodec → CommandOperation → CommandContext → Result Bytes
expected_query m25_codec backlight_op context = M25.encode_backlight_query context
expected_query codec _ context = encode_query codec context

abbrev pub reply_kind : DeviceCodec → CommandOperation → PacketKind
reply_kind m25_codec backlight_op = PacketKind.backlight_kind
reply_kind codec _ = PacketKind.state

query_for-ok :
    (codec : DeviceCodec) (op : CommandOperation) (context : CommandContext) (second : Bytes)
    → expected_query codec op context ≡ ok second
    → query_for codec op context ≡ ok (second, reply_kind codec op)
unfolding query_for encode_backlight_query
query_for-ok codec op context second e = ground arith

query_for-err :
    (codec : DeviceCodec) (op : CommandOperation) (context : CommandContext) (x : Error)
    → expected_query codec op context ≡ err x
    → query_for codec op context ≡ err x
unfolding query_for encode_backlight_query
query_for-err codec op context x e = ground arith

-- The two numbers are different, both are waited for, and each of the two datagrams is encoded under
-- its own.
abbrev pub IsNumbered : Client → Command → Bytes → Bytes → Request → Type 0
IsNumbered c command first second request =
    (c.outer_sequence ≢ next_number c.outer_sequence)
    × (c.inner_sequence ≢ next_number c.inner_sequence)
    × (encode_command c.codec (numbered c) command ≡ ok first)
    × (expected_query c.codec command.operation (numbered (advanced c)) ≡ ok second)
    × (request ≡ record {
      datagrams = first ∷ second ∷ [];
      outer_sequences = c.outer_sequence ∷ next_number c.outer_sequence ∷ [];
      inner_sequences = c.inner_sequence ∷ next_number c.inner_sequence ∷ [];
      command = some command;
      expected_kind = reply_kind c.codec command.operation;
      retries = 3;
    })

-- A closed client, a command that cannot be encoded, a query that cannot, or both datagrams.
pub data Numbered (c : Client) (command : Command) (r : Client × Result Request) : Type 0 where
  closed : c.closed ≡ true → r ≡ (c, err client_closed) → Numbered c command r
  command_refused :
      (e : Error)
      → c.closed ≡ false
      → encode_command c.codec (numbered c) command ≡ err e
      → r ≡ (advanced c, err e)
      → Numbered c command r
  query_refused :
      (first : Bytes) (e : Error)
      → c.closed ≡ false
      → encode_command c.codec (numbered c) command ≡ ok first
      → expected_query c.codec command.operation (numbered (advanced c)) ≡ err e
      → r ≡ (advanced (advanced c), err e)
      → Numbered c command r
  both :
      (first second : Bytes) (request : Request)
      → c.closed ≡ false
      → IsNumbered c command first second request
      → r ≡ (advanced (advanced c), ok request)
      → Numbered c command r

query-Numbered :
    (c : Client) (command : Command) (first : Bytes)
    → HasNumbers c
    → c.closed ≡ false
    → encode_command c.codec (numbered c) command ≡ ok first
    → Numbered c command (with_query (advanced c) command (numbered c) first)
query-Numbered c command first h k e =
    elim (Result-cases (expected_query c.codec command.operation (numbered (advanced c)))) [
      | inr (x, q) ↦
          let refused = query_for-err c.codec command.operation (numbered (advanced c)) x q in
          query_refused first x k e q (ground (arith, again, refused))
      | inl (second, q) ↦
          let asked = query_for-ok c.codec command.operation (numbered (advanced c)) second q in
          both first second _ k (omega (arith, h.0), omega (arith, h.1), e, q, refl)
            (ground (arith, again, asked))
    ]
  where
    again : next_context (advanced c) ≡ ok (numbered (advanced c), advanced (advanced c))
    again = next_context-numbered (advanced c) (omega arith, omega arith)

-- A write of a client whose counters are of 16 bits raises ClientClosed if the client is closed, and
-- the codec's error if it cannot encode the command, or the query behind it. Otherwise it has two
-- datagrams: the command, encoded under the counters' numbers, and the query, encoded under the next
-- ones modulo 65536, which are different; of an M25's backlight the query asks for the backlight, of
-- all else for the state. It waits for both numbers, with three attempts. A number is used up by
-- each datagram that was to be encoded.
pub command_request-Numbered :
    (c : Client) (command : Command)
    → IsU16 c.outer_sequence
    → IsU16 c.inner_sequence
    → Numbered c command (command_request c command)
unfolding command_request
command_request-Numbered c command o i = elim (Bool-cases c.closed) [
  | inl k ↦ closed k (rw (command_request, k) refl)
  | inr k ↦ elim (Result-cases (encode_command c.codec (numbered c) command)) [
    | inr (x, q) ↦ command_refused x k q (ground (arith, next_context-numbered c (o, i), q))
    | inl (first, q) ↦
        subst (Numbered c command) (sym (encoded k first q))
          (query-Numbered c command first (o, i) k q)
  ]
]
  where
    encoded :
        c.closed ≡ false
        → (first : Bytes) → encode_command c.codec (numbered c) command ≡ ok first
        → command_request c command ≡ with_query (advanced c) command (numbered c) first
    encoded k first q = ground (arith, next_context-numbered c (o, i), q)
