-- ===== src/Queue.antt =====
-- The command queue of `LocalDeviceClient` in transport.py: `command`, `_command_worker` and the
-- part of `close` that concerns commands. A step is what runs without giving way to another task:
-- the sections under the queue lock, and what follows one until the next await. A future is its
-- number; `sent` records the commands handed to `_execute_command`, oldest first.
pub mod Futures
pub mod Delivery
pub mod Served
pub mod Order
pub mod Draining
use ha_352air_legacy_local.Base.{
  ℕ, Bool, true, false, List, [], ◌∷◌, ◌++◌, ◌==◌, if◌then◌else◌, ◌&&◌, Option, none, some, Result,
  ok, err, client_closed, ◌≡◌,
}
use ha_352air_legacy_local.Models.{Command, is_coalescible}
use ha_352air_legacy_local.Models.State.{DeviceState}

-- _QueuedCommand
pub record QueuedCommand : Type 0 where
  pub command : Command
  pub waiters : List ℕ

-- Where the worker task stands: there is none; it is at the top of its loop; it awaits
-- `_execute_command`; its waiters are answered; it found no command and has yet to leave.
pub data Worker : Type 0 where
  absent ready leaving : Worker
  executing settled : QueuedCommand → Worker

pub record CommandQueue : Type 0 where
  pub closed : Bool
  pub queue : List QueuedCommand
  pub worker : Worker
  pub active_waiters : List ℕ
  pub outcomes : List (ℕ × Result DeviceState)
  pub sent : List Command

-- The result of a future, None until it is done.
unfoldable pub outcome_of : ℕ → List (ℕ × Result DeviceState) → Option (Result DeviceState)
outcome_of future [] = none
outcome_of future ((known, outcome) ∷ rest) =
    if known == future then some outcome else outcome_of future rest

-- future.done()
abbrev pub is_done : ℕ → List (ℕ × Result DeviceState) → Bool
is_done future outcomes = elim (outcome_of future outcomes) [ none ↦ false | some _ ↦ true ]

-- future.set_result or future.set_exception, of a future that is not done.
unfoldable pub set_one :
    ℕ → Result DeviceState → List (ℕ × Result DeviceState) → List (ℕ × Result DeviceState)
set_one future outcome outcomes =
    if is_done future outcomes then outcomes else (future, outcome) ∷ outcomes

-- _set_result_all and _set_exception_all
unfoldable pub set_all :
    List ℕ → Result DeviceState → List (ℕ × Result DeviceState) → List (ℕ × Result DeviceState)
set_all [] outcome outcomes = outcomes
set_all (future ∷ rest) outcome outcomes = set_all rest outcome (set_one future outcome outcomes)

-- The queue after a command: a trailing coalescible one is replaced by a coalescible one, which
-- takes over its waiters.
unfoldable pub enqueue : Command → ℕ → List QueuedCommand → List QueuedCommand
enqueue command future [] = record { command = command; waiters = future ∷ [] } ∷ []
enqueue command future (last ∷ []) =
    if is_coalescible command && is_coalescible last.command
    then record { command = command; waiters = last.waiters ++ future ∷ [] } ∷ []
    else last ∷ record { command = command; waiters = future ∷ [] } ∷ []
enqueue command future (first ∷ next ∷ rest) = first ∷ enqueue command future (next ∷ rest)

-- A worker is created if there is none.
abbrev pub started : Worker → Worker
started absent = ready
started w = w

-- The part of `command` before it awaits its future.
unfoldable pub submit : Command → ℕ → CommandQueue → Result CommandQueue
submit command future s =
    if s.closed
    then err client_closed
    else ok (record s { queue = enqueue command future s.queue; worker = started s.worker })

-- `popleft`, or the return.
abbrev pub take_next : List QueuedCommand → CommandQueue → CommandQueue
take_next [] s = record s { worker = leaving }
take_next (q ∷ rest) s = record s {
  queue = rest;
  worker = executing q;
  active_waiters = q.waiters;
  sent = s.sent ++ q.command ∷ [];
}

-- The outer `finally`: a command that came while the worker was leaving gets a new worker.
abbrev pub successor : Bool → List QueuedCommand → Worker
successor true queue = absent
successor false [] = absent
successor false (q ∷ rest) = ready

-- What a worker does next; `outcome` is what `_execute_command` comes to when it is awaited.
abbrev pub advance : Worker → Result DeviceState → CommandQueue → CommandQueue
advance absent outcome s = s
advance ready outcome s = take_next s.queue s
advance (executing q) outcome s = record s {
  worker = settled q;
  outcomes = set_all q.waiters outcome s.outcomes;
}
advance (settled q) outcome s = record s { worker = ready; active_waiters = [] }
advance leaving outcome s = record s { worker = successor s.closed s.queue }

-- _command_worker
unfoldable pub worker_step : Result DeviceState → CommandQueue → CommandQueue
worker_step outcome s = advance s.worker outcome s

-- close, up to the wait for the queue lock.
unfoldable pub begin_close : CommandQueue → CommandQueue
begin_close s = record s { closed = true }

abbrev pub fail_queued :
    List QueuedCommand → List (ℕ × Result DeviceState) → List (ℕ × Result DeviceState)
fail_queued [] outcomes = outcomes
fail_queued (q ∷ rest) outcomes = fail_queued rest (set_all q.waiters (err client_closed) outcomes)

-- close, under the queue lock.
unfoldable pub fail_commands : CommandQueue → CommandQueue
fail_commands s = record s {
  queue = [];
  outcomes = set_all s.active_waiters (err client_closed) (fail_queued s.queue s.outcomes);
}

-- The worker's way out when it is cancelled; in a closed client it has no successor.
abbrev pub cancel : Worker → CommandQueue → CommandQueue
cancel (executing q) s = record s {
  worker = successor s.closed s.queue;
  active_waiters = [];
  outcomes = set_all q.waiters (err client_closed) s.outcomes;
}
cancel absent s = s
cancel _ s = record s { worker = successor s.closed s.queue }

unfoldable pub cancel_worker : CommandQueue → CommandQueue
cancel_worker s = cancel s.worker s

-- The steps of all tasks, in any order. `close` fails the commands after it has marked the client
-- closed, and only it cancels the worker.
pub data Step : CommandQueue → CommandQueue → Type 0 where
  submits :
      {s t : CommandQueue} (command : Command) (future : ℕ)
      → submit command future s ≡ ok t
      → Step s t
  works : {s : CommandQueue} (outcome : Result DeviceState) → Step s (worker_step outcome s)
  begins_close : {s : CommandQueue} → Step s (begin_close s)
  fails_commands : {s : CommandQueue} → s.closed ≡ true → Step s (fail_commands s)
  cancels_worker : {s : CommandQueue} → s.closed ≡ true → Step s (cancel_worker s)

pub data Steps : CommandQueue → CommandQueue → Type 0 where
  done : {s : CommandQueue} → Steps s s
  step : {s t u : CommandQueue} → Step s t → Steps t u → Steps s u
