-- ===== src/Tests/Workers.antt =====
-- A worker with an interval of 1800 seconds that waits, and its next steps.
use token_board.Base.{ℕ, ◌+◌, ◌*◌, ◌≤◌, ◌<◌, ◌≡◌, ◌⊎◌, suc, refl, true, false, List, [], ◌∷◌, arith}
use token_board.Workers.{
  Worker, Action, thread, tick, inserted, trigger, halt, perform_all, started, stopped, request,
  waiting,
}
use token_board.Workers.Served.{trigger_served}
use token_board.Workers.Halt.{halt_ends}
use token_board.Workers.Cadence.{perform_all_schedule}

abbrev step : Action
step = thread false (inserted 3)

abbrev nine_steps : List Action
nine_steps = step ∷ step ∷ step ∷ step ∷ step ∷ step ∷ step ∷ step ∷ step ∷ []

abbrev waiter : Worker
waiter = record (started 1800 50) { phase = waiting; clock = 60; passes = 1 }

abbrev late_steps : List Action
late_steps = step ∷ tick 2000 ∷ request ∷ nine_steps

trigger_served_example :
    ((perform_all 1800 late_steps (trigger waiter).0).stop ≡ true)
    ⊎ (1 < (perform_all 1800 late_steps (trigger waiter).0).passes)
unfolding trigger started
trigger_served_example = trigger_served 1800 waiter late_steps refl (omega arith)

halt_ends_example :
    ((perform_all 1800 nine_steps (halt waiter)).phase ≡ stopped)
    × ((perform_all 1800 nine_steps (halt waiter)).passes ≤ suc waiter.passes)
halt_ends_example = halt_ends 1800 waiter nine_steps (omega arith)

perform_all_schedule_example :
    (rounds : ℕ) × ((perform_all 1800 late_steps (started 1800 50)).deadline
      ≡ 50 + suc rounds * 1800)
    × (50 + rounds * 1800 ≤ (perform_all 1800 late_steps (started 1800 50)).clock)
    × ((perform_all 1800 late_steps (started 1800 50)).scheduled ≤ rounds)
perform_all_schedule_example = perform_all_schedule 1800 50 late_steps
