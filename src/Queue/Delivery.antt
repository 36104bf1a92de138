-- ===== src/Queue/Delivery.antt =====
-- Every accepted command is answered or still being worked on, and answered once.
use ha_352air_legacy_local.Base.{
  ◌∙◌, ℕ, ◌≡◌, refl, Bool, true, false, List, [], ◌∷◌, ◌++◌, ◌==◌, ◌||◌, some, Result, ok, err,
  client_closed, arith, one_of,
}
use ha_352air_legacy_local.Models.{Command}
use ha_352air_legacy_local.Models.State.{DeviceState}
use ha_352air_legacy_local.Queue.{
  QueuedCommand, Worker, absent, ready, leaving, executing, settled, CommandQueue, is_done,
  outcome_of, enqueue, submit, worker_step, begin_close, fail_commands, cancel_worker, fail_queued,
  take_next, advance, cancel, Step, submits, works, begins_close, fails_commands, cancels_worker,
  Steps, done, step,
}
use ha_352air_legacy_local.Queue.Futures.{
  waits, set_all_keeps, is_done-set_all, set_all_sets, fail_queued_keeps, is_done-fail_queued,
  fail_queued_sets,
}

-- The future waits for the command that is executed.
abbrev pub runs : ℕ → Worker → Bool
runs future (executing q) = one_of future q.waiters
runs future _ = false

abbrev pub IsTracked : ℕ → CommandQueue → Type 0
IsTracked future s =
    (is_done future s.outcomes || waits future s.queue || runs future s.worker) ≡ true

one_of-append : (x : ℕ) (xs ys : List ℕ) → one_of x (xs ++ ys) ≡ (one_of x xs || one_of x ys)
one_of-append x [] ys = refl
one_of-append x (a ∷ xs) ys = ground (arith, one_of-append x xs ys)

waits-enqueue :
    (command : Command) (future w : ℕ) (queue : List QueuedCommand)
    → waits w (enqueue command future queue) ≡ (waits w queue || w == future)
unfolding enqueue
waits-enqueue command future w [] = ground arith
waits-enqueue command future w (last ∷ []) =
    ground (arith, one_of-append w last.waiters (future ∷ []))
waits-enqueue command future w (first ∷ next ∷ rest) =
    ground (arith, waits-enqueue command future w (next ∷ rest))

advance-IsTracked :
    (worker : Worker) (future : ℕ) (outcome : Result DeviceState) (s : CommandQueue)
    → s.worker ≡ worker
    → IsTracked future s
    → IsTracked future (advance worker outcome s)
advance-IsTracked absent future outcome s e h = h
advance-IsTracked ready future outcome s e h = take_next-IsTracked s.queue s e refl h
  where
    take_next-IsTracked :
        (queue : List QueuedCommand) (s : CommandQueue)
        → s.worker ≡ ready
        → s.queue ≡ queue
        → IsTracked future s
        → IsTracked future (take_next queue s)
    take_next-IsTracked [] s e q h = ground arith
    take_next-IsTracked (x ∷ rest) s e q h = ground arith
advance-IsTracked leaving future outcome s e h = ground arith
advance-IsTracked (settled q) future outcome s e h = ground arith
advance-IsTracked (executing q) future outcome s e h = ground (
  arith,
  is_done-set_all q.waiters outcome s.outcomes future,
  set_all_sets q.waiters outcome s.outcomes future,
)

cancel-IsTracked :
    (worker : Worker) (future : ℕ) (s : CommandQueue)
    → s.worker ≡ worker
    → IsTracked future s
    → IsTracked future (cancel worker s)
cancel-IsTracked absent future s e h = h
cancel-IsTracked ready future s e h = ground arith
cancel-IsTracked leaving future s e h = ground arith
cancel-IsTracked (settled q) future s e h = ground arith
cancel-IsTracked (executing q) future s e h = ground (
  arith,
  is_done-set_all q.waiters (err client_closed) s.outcomes future,
  set_all_sets q.waiters (err client_closed) s.outcomes future,
)

pub Step-IsTracked :
    (future : ℕ) (s t : CommandQueue) → Step s t → IsTracked future s → IsTracked future t
unfolding submit worker_step begin_close fail_commands cancel_worker
Step-IsTracked future s t (submits command other e) h =
    ground (arith, waits-enqueue command other future s.queue)
Step-IsTracked future s _ (works outcome) h = advance-IsTracked s.worker future outcome s refl h
Step-IsTracked future s _ begins_close h = h
Step-IsTracked future s _ (fails_commands k) h = ground (
  arith,
  is_done-set_all s.active_waiters (err client_closed) (fail_queued s.queue s.outcomes) future,
  is_done-fail_queued s.queue s.outcomes future,
  fail_queued_sets s.queue s.outcomes future,
)
Step-IsTracked future s _ (cancels_worker k) h = cancel-IsTracked s.worker future s refl h

Steps-IsTracked :
    {s t : CommandQueue} (future : ℕ) → Steps s t → IsTracked future s → IsTracked future t
Steps-IsTracked future done h = h
Steps-IsTracked {s = s} future (step {t = m} x rest) h =
    Steps-IsTracked future rest (Step-IsTracked future s m x h)

-- A command that was accepted is never lost: whatever the tasks do afterwards, in any order, its
-- future has a result, or the command waits in the queue, or it is being executed.
pub submit-IsTracked :
    (command : Command) (future : ℕ) (s : CommandQueue) {t u : CommandQueue}
    → submit command future s ≡ ok t
    → Steps t u
    → IsTracked future u
unfolding submit
submit-IsTracked command future s {t} {u} e steps =
    Steps-IsTracked future steps (ground (arith, waits-enqueue command future future s.queue))

Step-keeps :
    (future : ℕ) (s t : CommandQueue) {r : Result DeviceState}
    → Step s t
    → outcome_of future s.outcomes ≡ some r
    → outcome_of future t.outcomes ≡ some r
unfolding submit worker_step begin_close fail_commands cancel_worker
Step-keeps future s t {r} (submits command other e) h = ground arith
Step-keeps future s _ {r} (works outcome) h = advance_keeps s.worker refl
  where
    take_keeps :
        (queue : List QueuedCommand)
        → outcome_of future (take_next queue s).outcomes ≡ outcome_of future s.outcomes
    take_keeps [] = refl
    take_keeps (q ∷ rest) = refl

    advance_keeps :
        (worker : Worker)
        → s.worker ≡ worker
        → outcome_of future (advance worker outcome s).outcomes ≡ some r
    advance_keeps absent e = h
    advance_keeps ready e = take_keeps s.queue ∙ h
    advance_keeps leaving e = h
    advance_keeps (settled q) e = h
    advance_keeps (executing q) e = set_all_keeps q.waiters outcome s.outcomes future h
Step-keeps future s _ {r} begins_close h = h
Step-keeps future s _ {r} (fails_commands k) h =
    set_all_keeps s.active_waiters (err client_closed) _ future
      (fail_queued_keeps s.queue s.outcomes future h)
Step-keeps future s _ {r} (cancels_worker k) h = cancel_keeps s.worker refl
  where
    cancel_keeps :
        (worker : Worker)
        → s.worker ≡ worker
        → outcome_of future (cancel worker s).outcomes ≡ some r
    cancel_keeps absent e = h
    cancel_keeps ready e = h
    cancel_keeps leaving e = h
    cancel_keeps (settled q) e = h
    cancel_keeps (executing q) e = set_all_keeps q.waiters (err client_closed) s.outcomes future h

-- A command has one result: once its future has it, no later step of any task changes it.
pub outcome_once :
    {s t : CommandQueue} (future : ℕ) {r : Result DeviceState}
    → Steps s t
    → outcome_of future s.outcomes ≡ some r
    → outcome_of future t.outcomes ≡ some r
outcome_once future done h = h
outcome_once {s = s} future (step {t = m} x rest) h =
    outcome_once future rest (Step-keeps future s m x h)
