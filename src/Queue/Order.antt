-- ===== src/Queue/Order.antt =====
-- Which commands are sent, in which order.
use ha_352air_legacy_local.Base.{
  ℕ, ◌≡◌, refl, List, [], ◌∷◌, ◌++◌, if◌then◌else◌, Option, none, some, Result, ok, arith,
  append_assoc, append-nil, ap, ◌∙◌, sym,
}
use ha_352air_legacy_local.Models.{Command, is_coalescible}
use ha_352air_legacy_local.Models.State.{DeviceState}
use ha_352air_legacy_local.Queue.{
  QueuedCommand, Worker, absent, ready, leaving, executing, settled, CommandQueue, enqueue, submit,
  worker_step, take_next, advance,
}

-- The commands that are never replaced: all but percentages and speeds.
abbrev pub boundaries : List Command → List Command
boundaries [] = []
boundaries (c ∷ rest) = if is_coalescible c then boundaries rest else c ∷ boundaries rest

abbrev queued : List QueuedCommand → List Command
queued [] = []
queued (q ∷ rest) = q.command ∷ queued rest

-- What was sent and what waits to be.
abbrev pub schedule : CommandQueue → List Command
schedule s = s.sent ++ queued s.queue

-- What the tasks of an open client do, and the commands that are submitted, in order.
pub data Run : CommandQueue → List Command → CommandQueue → Type 0 where
  done : {s : CommandQueue} → Run s [] s
  submits :
      {s t u : CommandQueue} {rest : List Command} (command : Command) (future : ℕ)
      → submit command future s ≡ ok t
      → Run t rest u
      → Run s (command ∷ rest) u
  works :
      {s u : CommandQueue} {rest : List Command} (outcome : Result DeviceState)
      → Run (worker_step outcome s) rest u
      → Run s rest u

boundaries-append : (xs ys : List Command) → boundaries (xs ++ ys) ≡ boundaries xs ++ boundaries ys
boundaries-append [] ys = refl
boundaries-append (x ∷ xs) ys = ground (arith, boundaries-append xs ys)

boundaries-enqueue :
    (command : Command) (future : ℕ) (queue : List QueuedCommand)
    → boundaries (queued (enqueue command future queue))
      ≡ boundaries (queued queue) ++ boundaries (command ∷ [])
unfolding enqueue
boundaries-enqueue command future [] = refl
boundaries-enqueue command future (last ∷ []) = ground arith
boundaries-enqueue command future (first ∷ next ∷ rest) =
    ground (arith, boundaries-enqueue command future (next ∷ rest))

schedule-advance :
    (worker : Worker) (outcome : Result DeviceState) (s : CommandQueue)
    → schedule (advance worker outcome s) ≡ schedule s
schedule-advance absent outcome s = refl
schedule-advance ready outcome s = taken s.queue refl
  where
    taken :
        (queue : List QueuedCommand) → s.queue ≡ queue → schedule (take_next queue s) ≡ schedule s
    taken [] e = refl
    taken (q ∷ rest) e = rw (e, append_assoc s.sent (q.command ∷ []) (queued rest)) refl
schedule-advance leaving outcome s = refl
schedule-advance (settled q) outcome s = refl
schedule-advance (executing q) outcome s = refl

submitted :
    (command : Command) (future : ℕ) (s t : CommandQueue)
    → submit command future s ≡ ok t
    → (t.sent ≡ s.sent) × (t.queue ≡ enqueue command future s.queue)
unfolding submit
submitted command future s t e = ground arith

boundaries-submit :
    (command : Command) (future : ℕ) (s t : CommandQueue)
    → submit command future s ≡ ok t
    → boundaries (schedule t) ≡ boundaries (schedule s) ++ boundaries (command ∷ [])
boundaries-submit command future s t e =
    let (sent, queue) = submitted command future s t e in
    rw
      (
        sent,
        queue,
        boundaries-append s.sent (queued (enqueue command future s.queue)),
        boundaries-append s.sent (queued s.queue),
        boundaries-enqueue command future s.queue,
      )
      (sym (
        append_assoc (boundaries s.sent) (boundaries (queued s.queue)) (boundaries (command ∷ []))))

-- In an open client the commands other than percentages and speeds are sent in the order in which
-- they were submitted, each once and none left out: those sent or queued after a run are those
-- before it and then those submitted.
pub Run-boundaries :
    {s t : CommandQueue} {commands : List Command}
    → Run s commands t
    → boundaries (schedule t) ≡ boundaries (schedule s) ++ boundaries commands
unfolding worker_step
Run-boundaries {s = s} done = sym (append-nil (boundaries (schedule s)))
Run-boundaries {s = s} (submits {t = m} {rest = rest} command future e r) =
    Run-boundaries r
    ∙ ap (λ l. l ++ boundaries rest) (boundaries-submit command future s m e)
    ∙ append_assoc (boundaries (schedule s)) (boundaries (command ∷ [])) (boundaries rest)
    ∙ ap (λ l. boundaries (schedule s) ++ l) (sym (boundaries-append (command ∷ []) rest))
Run-boundaries {s = s} {commands = commands} (works outcome r) =
    Run-boundaries r
    ∙ ap (λ l. boundaries l ++ boundaries commands) (schedule-advance s.worker outcome s)

abbrev pub last_of : Option Command → List Command → Option Command
last_of d [] = d
last_of d (c ∷ rest) = last_of (some c) rest

last_of-append :
    (d : Option Command) (xs ys : List Command) → last_of d (xs ++ ys) ≡ last_of (last_of d xs) ys
last_of-append d [] ys = refl
last_of-append d (x ∷ xs) ys = last_of-append (some x) xs ys

last_of-enqueue :
    (d : Option Command) (command : Command) (future : ℕ) (queue : List QueuedCommand)
    → last_of d (queued (enqueue command future queue)) ≡ some command
unfolding enqueue
last_of-enqueue d command future [] = refl
last_of-enqueue d command future (last ∷ []) = ground arith
last_of-enqueue d command future (first ∷ next ∷ rest) =
    last_of-enqueue (some first.command) command future (next ∷ rest)

last_of-submit :
    (command : Command) (future : ℕ) (s t : CommandQueue)
    → submit command future s ≡ ok t
    → last_of none (schedule t) ≡ some command
last_of-submit command future s t e =
    let (sent, queue) = submitted command future s t e in
    rw (sent, queue, last_of-append none s.sent (queued (enqueue command future s.queue)))
      (last_of-enqueue (last_of none s.sent) command future s.queue)

-- Coalescing keeps the newest value: after a run the last command sent or queued is the last one
-- submitted, or, if none was, what it was before.
pub Run-latest :
    {s t : CommandQueue} {commands : List Command}
    → Run s commands t
    → last_of none (schedule t) ≡ last_of (last_of none (schedule s)) commands
unfolding worker_step
Run-latest done = refl
Run-latest {s = s} (submits {t = m} {rest = rest} command future e r) =
    Run-latest r ∙ ap (λ d. last_of d rest) (last_of-submit command future s m e)
Run-latest {s = s} {commands = commands} (works outcome r) =
    Run-latest r ∙ ap (λ l. last_of (last_of none l) commands) (schedule-advance s.worker outcome s)
