-- ===== src/Queue/Served.antt =====
-- The worker is there when it is needed, and closing leaves nobody waiting.
use ha_352air_legacy_local.Base.{
  ℕ, ◌≡◌, refl, ◌≢◌, inl, inr, Bool, true, false, List, [], ◌∷◌, Result, err, client_closed, arith,
  one_of, Bool-cases,
}
use mathlib.Core.Path.{subst}
use ha_352air_legacy_local.Models.State.{DeviceState}
use ha_352air_legacy_local.Queue.{
  QueuedCommand, Worker, absent, ready, leaving, executing, settled, CommandQueue, is_done, enqueue,
  submit, worker_step, begin_close, fail_commands, cancel_worker, fail_queued, take_next, advance,
  cancel, successor, started, Step, submits, works, begins_close, fails_commands, cancels_worker,
  Steps, done, step,
}
use ha_352air_legacy_local.Queue.Futures.{
  is_done-set_all, set_all_sets, is_done-fail_queued, fail_queued_sets,
}
use ha_352air_legacy_local.Queue.Delivery.{IsTracked, runs}

-- A queue of an open client that is not empty has a worker.
abbrev pub Manned : Bool → List QueuedCommand → Worker → Type 0
Manned false (q ∷ rest) worker = worker ≢ absent
Manned _ _ _ = Unit

-- The waiters of the executed command are those that closing fails.
abbrev ActiveKnown : Worker → List ℕ → Type 0
ActiveKnown (executing q) active = active ≡ q.waiters
ActiveKnown _ active = Unit

abbrev pub IsServed : CommandQueue → Type 0
IsServed s = Manned s.closed s.queue s.worker × ActiveKnown s.worker s.active_waiters

by-Manned :
    (closed : Bool) (queue : List QueuedCommand) (worker : Worker)
    → worker ≢ absent
    → Manned closed queue worker
by-Manned true queue worker n = tt
by-Manned false [] worker n = tt
by-Manned false (q ∷ rest) worker n = n

successor-Manned :
    (closed : Bool) (queue : List QueuedCommand) → Manned closed queue (successor closed queue)
successor-Manned true queue = tt
successor-Manned false [] = tt
successor-Manned false (q ∷ rest) = λ e. cc

successor-ActiveKnown :
    (closed : Bool) (queue : List QueuedCommand) (active : List ℕ)
    → ActiveKnown (successor closed queue) active
successor-ActiveKnown true queue active = tt
successor-ActiveKnown false [] active = tt
successor-ActiveKnown false (q ∷ rest) active = tt

started-IsServed :
    (closed : Bool) (queue : List QueuedCommand) (worker : Worker) (active : List ℕ)
    → ActiveKnown worker active
    → Manned closed queue (started worker) × ActiveKnown (started worker) active
started-IsServed closed queue absent active k = (by-Manned closed queue ready (λ e. cc), tt)
started-IsServed closed queue ready active k = (by-Manned closed queue ready (λ e. cc), tt)
started-IsServed closed queue leaving active k = (by-Manned closed queue leaving (λ e. cc), tt)
started-IsServed closed queue (settled q) active k =
    (by-Manned closed queue (settled q) (λ e. cc), tt)
started-IsServed closed queue (executing q) active k =
    (by-Manned closed queue (executing q) (λ e. cc), k)

advance-IsServed :
    (worker : Worker) (outcome : Result DeviceState) (s : CommandQueue)
    → s.worker ≡ worker
    → IsServed s
    → IsServed (advance worker outcome s)
advance-IsServed absent outcome s e h = h
advance-IsServed ready outcome s e h = taken s.queue
  where
    taken : (queue : List QueuedCommand) → IsServed (take_next queue s)
    taken [] = (by-Manned s.closed s.queue leaving (λ e. cc), tt)
    taken (q ∷ rest) = (by-Manned s.closed rest (executing q) (λ e. cc), refl)
advance-IsServed leaving outcome s e h =
    (successor-Manned s.closed s.queue, successor-ActiveKnown s.closed s.queue s.active_waiters)
advance-IsServed (settled q) outcome s e h = (by-Manned s.closed s.queue ready (λ e. cc), tt)
advance-IsServed (executing q) outcome s e h =
    (by-Manned s.closed s.queue (settled q) (λ e. cc), tt)

cancel-IsServed :
    (worker : Worker) (s : CommandQueue)
    → s.worker ≡ worker
    → IsServed s
    → IsServed (cancel worker s)
cancel-IsServed absent s e h = h
cancel-IsServed ready s e h =
    (successor-Manned s.closed s.queue, successor-ActiveKnown s.closed s.queue s.active_waiters)
cancel-IsServed leaving s e h =
    (successor-Manned s.closed s.queue, successor-ActiveKnown s.closed s.queue s.active_waiters)
cancel-IsServed (settled q) s e h =
    (successor-Manned s.closed s.queue, successor-ActiveKnown s.closed s.queue s.active_waiters)
cancel-IsServed (executing q) s e h =
    (successor-Manned s.closed s.queue, successor-ActiveKnown s.closed s.queue [])

closed-Manned :
    (closed : Bool) (queue : List QueuedCommand) (worker : Worker)
    → closed ≡ true
    → Manned closed queue worker
closed-Manned true queue worker e = tt
closed-Manned false queue worker e = cc

pub Step-IsServed : (s t : CommandQueue) → Step s t → IsServed s → IsServed t
unfolding submit worker_step begin_close fail_commands cancel_worker
Step-IsServed s t (submits command future e) h = elim (Bool-cases s.closed) [
  | inl c ↦ absurd (ground arith)
  | inr c ↦
      let served = record s { queue = enqueue command future s.queue; worker = started s.worker } in
      let same : served ≡ t = ground arith in
      subst IsServed same
        (started-IsServed s.closed (enqueue command future s.queue) s.worker s.active_waiters h.1)
]
Step-IsServed s _ (works outcome) h = advance-IsServed s.worker outcome s refl h
Step-IsServed s _ begins_close h = (closed-Manned true s.queue s.worker refl, h.1)
Step-IsServed s _ (fails_commands k) h = (closed-Manned s.closed [] s.worker k, h.1)
Step-IsServed s _ (cancels_worker k) h = cancel-IsServed s.worker s refl h

-- Every step keeps it: in an open client a queue that is not empty has a worker task, also if the
-- command came while the last one was leaving; and the futures that closing fails are those of the
-- command that is executed.
pub Steps-IsServed : {s t : CommandQueue} → Steps s t → IsServed s → IsServed t
Steps-IsServed done h = h
Steps-IsServed {s = s} (step {t = m} x rest) h = Steps-IsServed rest (Step-IsServed s m x h)

active_runs :
    (future : ℕ) (worker : Worker) (active : List ℕ)
    → ActiveKnown worker active
    → runs future worker ≡ true
    → one_of future active ≡ true
active_runs future (executing q) active k r = rw k r
active_runs future absent active k r = cc
active_runs future ready active k r = cc
active_runs future leaving active k r = cc
active_runs future (settled q) active k r = cc

-- When `close` has failed the commands, every future that was accepted before has a result.
pub fail_commands_all :
    (future : ℕ) (s : CommandQueue)
    → IsServed s
    → IsTracked future s
    → is_done future (fail_commands s).outcomes ≡ true
unfolding fail_commands
fail_commands_all future s k h = ground (
  arith,
  active_runs future s.worker s.active_waiters k.1,
  is_done-set_all s.active_waiters (err client_closed) (fail_queued s.queue s.outcomes) future,
  set_all_sets s.active_waiters (err client_closed) (fail_queued s.queue s.outcomes) future,
  is_done-fail_queued s.queue s.outcomes future,
  fail_queued_sets s.queue s.outcomes future,
)
