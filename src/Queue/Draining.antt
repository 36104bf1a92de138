-- ===== src/Queue/Draining.antt =====
-- Left to itself, the worker gets through the queue.
use ha_352air_legacy_local.Base.{
  ℕ, zero, suc, ◌+◌, ◌*◌, ◌≤◌, ◌<◌, ◌≡◌, refl, ◌⊎◌, inl, inr, Bool, true, false, List, [], ◌∷◌,
  length, Result, arith, ◌∙◌,
}
use ha_352air_legacy_local.Models.State.{DeviceState}
use ha_352air_legacy_local.Queue.{
  QueuedCommand, Worker, absent, ready, leaving, executing, settled, CommandQueue, is_done,
  worker_step, take_next, advance, works,
}
use ha_352air_legacy_local.Queue.Delivery.{IsTracked, Step-IsTracked}
use ha_352air_legacy_local.Queue.Served.{IsServed, Manned, Step-IsServed}

-- `n` steps of the worker; `outcomes` is what the executions come to.
abbrev pub run_worker : (ℕ → Result DeviceState) → ℕ → CommandQueue → CommandQueue
run_worker outcomes zero s = s
run_worker outcomes (suc n) s = run_worker outcomes n (worker_step (outcomes n) s)

-- The steps that are left.
abbrev work : Worker → List QueuedCommand → ℕ
work absent queue = 0
work ready queue = 3 * length queue + 2
work (executing q) queue = 3 * length queue + 4
work (settled q) queue = 3 * length queue + 3
work leaving [] = 1
work leaving (q ∷ rest) = 3 * length (q ∷ rest) + 3

abbrev pub IsIdle : CommandQueue → Type 0
IsIdle s = (s.queue ≡ []) × (s.worker ≡ absent)

abbrev Progress : Worker → CommandQueue → CommandQueue → Type 0
Progress worker s t =
    (t.closed ≡ s.closed) × (IsIdle t ⊎ (work t.worker t.queue < work worker s.queue))

absent-IsIdle : (s : CommandQueue) → s.closed ≡ false → s.worker ≡ absent → IsServed s → IsIdle s
absent-IsIdle s c e h = empty s.closed s.queue s.worker c refl e h.0
  where
    empty :
        (closed : Bool) (queue : List QueuedCommand) (worker : Worker)
        → closed ≡ false
        → s.queue ≡ queue
        → worker ≡ absent
        → Manned closed queue worker
        → IsIdle s
    empty closed [] worker c q w m = (q, e)
    empty true (x ∷ rest) worker c q w m = cc
    empty false (x ∷ rest) worker c q w m = absurd (m w)

advance-Progress :
    (worker : Worker) (outcome : Result DeviceState) (s : CommandQueue)
    → s.closed ≡ false
    → s.worker ≡ worker
    → IsServed s
    → Progress worker s (advance worker outcome s)
advance-Progress absent outcome s c e h = (refl, inl (absent-IsIdle s c e h))
advance-Progress ready outcome s c e h = taken s.queue refl
  where
    taken : (queue : List QueuedCommand) → s.queue ≡ queue → Progress ready s (take_next queue s)
    taken [] q = (refl, inr (ground arith))
    taken (x ∷ rest) q = (refl, inr (ground arith))
advance-Progress (executing q) outcome s c e h = (refl, inr (omega arith))
advance-Progress (settled q) outcome s c e h = (refl, inr (omega arith))
advance-Progress leaving outcome s c e h = succeeded s.queue refl
  where
    succeeded :
        (queue : List QueuedCommand)
        → s.queue ≡ queue
        → Progress leaving s (advance leaving outcome s)
    succeeded [] q = (refl, inl (q, rw (c, q) refl))
    succeeded (x ∷ rest) q = (refl, inr (rw (c, q) (omega arith)))

run-IsIdle :
    (outcomes : ℕ → Result DeviceState) (n : ℕ) (s : CommandQueue)
    → IsIdle s
    → IsIdle (run_worker outcomes n s)
unfolding worker_step
run-IsIdle outcomes zero s h = h
run-IsIdle outcomes (suc n) s h =
    run-IsIdle outcomes n (worker_step (outcomes n) s) (stays (outcomes n) s h)
  where
    stays :
        (outcome : Result DeviceState) (s : CommandQueue)
        → IsIdle s
        → IsIdle (worker_step outcome s)
    stays outcome s h = rw (h.1) (h.0, refl)

drains :
    (outcomes : ℕ → Result DeviceState) (n : ℕ) (s : CommandQueue)
    → s.closed ≡ false
    → IsServed s
    → work s.worker s.queue ≤ n
    → IsIdle (run_worker outcomes n s)
unfolding worker_step
drains outcomes zero s c h le = absent-IsIdle s c (no_work s.worker s.queue (omega (arith, le))) h
  where
    no_work :
        (worker : Worker) (queue : List QueuedCommand) → work worker queue ≡ 0 → worker ≡ absent
    no_work absent queue e = refl
    no_work ready queue e = absurd (omega arith)
    no_work (executing q) queue e = absurd (omega arith)
    no_work (settled q) queue e = absurd (omega arith)
    no_work leaving [] e = absurd (omega arith)
    no_work leaving (x ∷ rest) e = absurd (omega arith)
drains outcomes (suc n) s c h le =
    let (closed, next) = advance-Progress s.worker (outcomes n) s c refl h in
    elim next [
      | inl idle ↦ run-IsIdle outcomes n _ idle
      | inr less ↦
          drains outcomes n (worker_step (outcomes n) s) (closed ∙ c)
            (Step-IsServed s _ (works (outcomes n)) h) (omega (arith, less, le))
    ]

work_bound :
    (worker : Worker) (queue : List QueuedCommand) → work worker queue ≤ 3 * length queue + 4
work_bound absent queue = omega arith
work_bound ready queue = omega arith
work_bound (executing q) queue = omega arith
work_bound (settled q) queue = omega arith
work_bound leaving [] = omega arith
work_bound leaving (x ∷ rest) = omega arith

run-IsTracked :
    (outcomes : ℕ → Result DeviceState) (n future : ℕ) (s : CommandQueue)
    → IsTracked future s
    → IsTracked future (run_worker outcomes n s)
run-IsTracked outcomes zero future s h = h
run-IsTracked outcomes (suc n) future s h =
    run-IsTracked outcomes n future _ (Step-IsTracked future s _ (works (outcomes n)) h)

-- An open client's worker gets through the queue if no command is added, whatever its executions
-- come to: after three steps for each queued command and four more the queue is empty, the worker
-- has left, and every future that was accepted has a result.
pub run_worker_answers :
    (outcomes : ℕ → Result DeviceState) (n future : ℕ) (s : CommandQueue)
    → s.closed ≡ false
    → IsServed s
    → IsTracked future s
    → 3 * length s.queue + 4 ≤ n
    → IsIdle (run_worker outcomes n s) × (is_done future (run_worker outcomes n s).outcomes ≡ true)
run_worker_answers outcomes n future s c h k le =
    let idle = drains outcomes n s c h (omega (arith, work_bound s.worker s.queue, le)) in
    (idle, answered (run_worker outcomes n s) idle (run-IsTracked outcomes n future s k))
  where
    answered : (t : CommandQueue) → IsIdle t → IsTracked future t → is_done future t.outcomes ≡ true
    answered t idle k = ground arith
