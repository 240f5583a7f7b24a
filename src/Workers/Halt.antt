-- ===== src/Workers/Halt.antt =====
-- The end of the worker after `stop`.
use token_board.Base.{ℕ, suc, ◌+◌, ◌≤◌, ◌≡◌, refl, Bool, true, false, List, [], ◌∷◌, arith}
use token_board.Workers.{
  Phase, starting, running, finished, checking, waiting, woken, timed, clearing, scheduling,
  launching, stopped, Worker, Action, tick, request, interrupt, thread, Finish, trigger, perform,
  perform_all, thread_step, thread_steps, advance_thread, halt, end_thread, begin_pass, end_wait,
  decide, move_deadline,
}

-- The steps to the end, once the stop flag is set.
abbrev to_end : Phase → ℕ
to_end starting = 1
to_end (running true) = 3
to_end (running false) = 2
to_end finished = 2
to_end checking = 1
to_end waiting = 2
to_end (woken _) = 1
to_end (timed _) = 7
to_end (clearing _ _) = 6
to_end scheduling = 5
to_end (launching _) = 4
to_end stopped = 0

-- The passes that have begun, and the one that is about to.
abbrev begun : Phase → ℕ → ℕ
begun (timed _) n = suc n
begun (clearing _ _) n = suc n
begun scheduling n = suc n
begun (launching _) n = suc n
begun _ n = n

-- The flags are set, so that the wait does not last, and the thread ends within `n` steps.
record Ends (k n : ℕ) (w : Worker) : Type 0 where
  stop : w.stop ≡ true
  wakes : w.phase ≡ waiting → w.wake ≡ true
  within : to_end w.phase ≤ n
  passes : begun w.phase w.passes ≤ k

advance-Ends :
    (interval k n : ℕ) (races : Bool) (finish : Finish) (w : Worker)
    → Ends k (suc n) w
    → Ends k n (advance_thread interval races finish w)
unfolding advance_thread end_thread begin_pass end_wait decide move_deadline
advance-Ends interval k n races finish w h = record {
  stop = ground arith;
  wakes = ground arith;
  within = ground arith;
  passes = ground arith;
}

Ends-within : (k m n : ℕ) (w : Worker) → m ≤ n → Ends k m w → Ends k n w
Ends-within k m n w h e = record {
  stop = e.stop;
  wakes = e.wakes;
  within = omega (arith, e.within);
  passes = e.passes;
}

perform-Ends :
    (interval k n : ℕ) (a : Action) (w : Worker)
    → Ends k (thread_step a + n) w
    → Ends k n (perform interval a w)
unfolding perform trigger halt
perform-Ends interval k n (tick t) w h = record {
  stop = h.stop;
  wakes = h.wakes;
  within = omega (arith, h.within);
  passes = h.passes;
}
perform-Ends interval k n request w h = record {
  stop = ground arith;
  wakes = ground arith;
  within = ground arith;
  passes = ground arith;
}
perform-Ends interval k n interrupt w h = record {
  stop = refl;
  wakes = λ _. refl;
  within = omega (arith, h.within);
  passes = h.passes;
}
perform-Ends interval k n (thread races finish) w h =
    advance-Ends interval k n races finish w (Ends-within k (1 + n) (suc n) w (omega arith) h)

perform_all-Ends :
    (interval k n : ℕ) (actions : List Action) (w : Worker)
    → Ends k (thread_steps actions + n) w
    → Ends k n (perform_all interval actions w)
unfolding perform_all
perform_all-Ends interval k n [] w h = Ends-within k (0 + n) n w (omega arith) h
perform_all-Ends interval k n (a ∷ rest) w h =
    perform_all-Ends interval k n rest (perform interval a w) (
      perform-Ends interval k (thread_steps rest + n) a w (
        Ends-within k (thread_steps (a ∷ rest) + n) (thread_step a + (thread_steps rest + n)) w
          (omega arith) h))

halt-Ends : (w : Worker) (n : ℕ) → 7 ≤ n → Ends (suc w.passes) n (halt w)
unfolding halt
halt-Ends w n h = record {
  stop = refl;
  wakes = λ _. refl;
  within = ground arith;
  passes = ground arith;
}

begun-passes : (p : Phase) (n : ℕ) → n ≤ begun p n
begun-passes p n = ground arith

to_end-stopped : (p : Phase) → to_end p ≤ 0 → p ≡ stopped
to_end-stopped p h = ground arith

-- After a stop, whatever happens, at most one more pass begins, and once the thread has made seven steps
-- it has ended.
pub halt_ends :
    (interval : ℕ) (w : Worker) (actions : List Action)
    → 7 ≤ thread_steps actions
    → ((perform_all interval actions (halt w)).phase ≡ stopped)
      × ((perform_all interval actions (halt w)).passes ≤ suc w.passes)
halt_ends interval w actions enough =
    let h =
      perform_all-Ends interval (suc w.passes) 0 actions (halt w)
        (halt-Ends w (thread_steps actions + 0) (omega arith)) in
    let v : Worker = perform_all interval actions (halt w) in
    (to_end-stopped v.phase h.within, omega (arith, h.passes, begun-passes v.phase v.passes))
