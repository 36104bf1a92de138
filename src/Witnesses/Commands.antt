-- ===== src/Witnesses/Commands.antt =====
-- A client that gets a power command and two percentages before its worker starts.
use ha_352air_legacy_local.Base.{
  ℕ, ◌≡◌, refl, true, false, [], ◌∷◌, ◌++◌, Result, ok, err, request_timeout, arith,
}
use ha_352air_legacy_local.Models.{Command, power_op, percentage_op, is_coalescible}
use ha_352air_legacy_local.Models.State.{DeviceState, empty_state}
use ha_352air_legacy_local.Queue.{
  absent, ready, CommandQueue, submit, enqueue, outcome_of, is_done, fail_commands, begin_close,
  Step, Steps,
}
use ha_352air_legacy_local.Queue.Delivery.{IsTracked, submit-IsTracked}
use ha_352air_legacy_local.Queue.Served.{IsServed, Steps-IsServed, fail_commands_all}
use ha_352air_legacy_local.Queue.Order.{boundaries, schedule, Run, Run-boundaries}
use ha_352air_legacy_local.Queue.Draining.{run_worker, IsIdle, run_worker_answers}

abbrev switch_on : Command
switch_on = record { operation = power_op; value = 0 }

abbrev to_percent : ℕ → Command
to_percent n = record { operation = percentage_op; value = n }

abbrev unused : CommandQueue
unused = record {
  closed = false;
  queue = [];
  worker = absent;
  active_waiters = [];
  outcomes = [];
  sent = [];
}

abbrev after_power : CommandQueue
after_power = record unused {
  queue = record { command = switch_on; waiters = 1 ∷ [] } ∷ [];
  worker = ready;
}

abbrev after_thirty : CommandQueue
after_thirty = record after_power {
  queue =
      record { command = switch_on; waiters = 1 ∷ [] }
      ∷ record { command = to_percent 30; waiters = 2 ∷ [] }
      ∷ [];
}

abbrev after_forty : CommandQueue
after_forty = record after_power {
  queue =
      record { command = switch_on; waiters = 1 ∷ [] }
      ∷ record { command = to_percent 40; waiters = 2 ∷ 3 ∷ [] }
      ∷ [];
}

power_submitted : submit switch_on 1 unused ≡ ok after_power
unfolding submit enqueue
power_submitted = refl

thirty_submitted : submit (to_percent 30) 2 after_power ≡ ok after_thirty
unfolding submit enqueue is_coalescible
thirty_submitted = refl

forty_submitted : submit (to_percent 40) 3 after_thirty ≡ ok after_forty
unfolding submit enqueue is_coalescible
forty_submitted = refl

three : Run unused (switch_on ∷ to_percent 30 ∷ to_percent 40 ∷ []) after_forty
three = Run.submits switch_on 1 power_submitted (
    Run.submits (to_percent 30) 2 thirty_submitted
      (Run.submits (to_percent 40) 3 forty_submitted Run.done))

Run-boundaries_example :
    boundaries (schedule after_forty)
    ≡ boundaries (schedule unused) ++ boundaries (switch_on ∷ to_percent 30 ∷ to_percent 40 ∷ [])
Run-boundaries_example = Run-boundaries three

-- Closed while the first command waits.
abbrev closing : CommandQueue
closing = record after_forty { closed = true }

closes : Steps after_forty (fail_commands closing)
unfolding begin_close
closes = Steps.step Step.begins_close (Steps.step (Step.fails_commands refl) Steps.done)

submit-IsTracked_example : IsTracked 3 (fail_commands closing)
submit-IsTracked_example = submit-IsTracked (to_percent 40) 3 after_thirty forty_submitted closes

after_forty-IsServed : IsServed after_forty
after_forty-IsServed = (λ e. cc, tt)

Steps-IsServed_example : IsServed (fail_commands closing)
Steps-IsServed_example = Steps-IsServed closes after_forty-IsServed

fail_commands_all_example : is_done 2 (fail_commands after_forty).outcomes ≡ true
unfolding outcome_of
fail_commands_all_example = fail_commands_all 2 after_forty after_forty-IsServed refl

abbrev times_out : ℕ → Result DeviceState
times_out n = err request_timeout

run_worker_answers_example :
    IsIdle (run_worker times_out 10 after_forty)
    × (is_done 3 (run_worker times_out 10 after_forty).outcomes ≡ true)
unfolding outcome_of
run_worker_answers_example =
    run_worker_answers times_out 10 3 after_forty refl after_forty-IsServed refl (omega arith)

abbrev answered : CommandQueue
answered = record after_forty { outcomes = (1, ok empty_state) ∷ [] }
