-- ===== src/Workers/Served.antt =====
-- No accepted trigger is lost.
use token_board.Base.{
  ℕ, suc, ◌+◌, ◌≤◌, ◌<◌, ◌≡◌, refl, ◌⊎◌, inl, Bool, true, false, ◌&&◌, ◌||◌, List, [], ◌∷◌, arith,
}
use token_board.Workers.{
  Phase, starting, running, finished, checking, waiting, woken, timed, clearing, scheduling,
  launching, stopped, Worker, is_alive, Action, tick, request, interrupt, thread, Finish, trigger,
  perform, perform_all, thread_step, thread_steps, advance_thread, halt, end_thread, begin_pass,
  end_wait, decide, move_deadline,
}

-- The steps to the next pass, at most, once the wait is over or need not last.
abbrev remaining : Phase → ℕ
remaining starting = 1
remaining (running _) = 9
remaining finished = 8
remaining checking = 7
remaining waiting = 6
remaining (woken _) = 5
remaining (timed _) = 4
remaining (clearing _ _) = 3
remaining scheduling = 2
remaining (launching _) = 1
remaining stopped = 0

-- Behind the wait a pass follows, whatever the flag says.
abbrev is_due : Phase → Bool
is_due (running _) = false
is_due finished = false
is_due checking = false
is_due waiting = false
is_due stopped = false
is_due _ = true

abbrev is_pending : Worker → Bool
is_pending w = is_due w.phase || (w.wake && is_alive w.phase)

-- A stop, a pass after the first `k`, or a trigger that is served within `n` steps.
abbrev IsServed : ℕ → ℕ → Worker → Type 0
IsServed k n w =
    (w.stop ≡ true)
    ⊎ ((suc k ≤ w.passes) ⊎ ((is_pending w ≡ true) × (k ≤ w.passes) × (remaining w.phase ≤ n)))

advance-IsServed :
    (interval k n : ℕ) (races : Bool) (finish : Finish) (w : Worker)
    → IsServed k (suc n) w
    → IsServed k n (advance_thread interval races finish w)
unfolding advance_thread end_thread begin_pass end_wait decide move_deadline
advance-IsServed interval k n races finish w h = ground arith

IsServed-within : (k m n : ℕ) (w : Worker) → m ≤ n → IsServed k m w → IsServed k n w
IsServed-within k m n w h k' = ground arith

perform-IsServed :
    (interval k n : ℕ) (a : Action) (w : Worker)
    → IsServed k (thread_step a + n) w
    → IsServed k n (perform interval a w)
unfolding perform trigger halt
perform-IsServed interval k n (tick t) w h = ground (arith, h)
perform-IsServed interval k n request w h = ground (arith, h)
perform-IsServed interval k n interrupt w h = inl refl
perform-IsServed interval k n (thread races finish) w h =
    advance-IsServed interval k n races finish w
      (IsServed-within k (1 + n) (suc n) w (omega arith) h)

perform_all-IsServed :
    (interval k n : ℕ) (actions : List Action) (w : Worker)
    → IsServed k (thread_steps actions + n) w
    → IsServed k n (perform_all interval actions w)
unfolding perform_all
perform_all-IsServed interval k n [] w h = IsServed-within k (0 + n) n w (omega arith) h
perform_all-IsServed interval k n (a ∷ rest) w h =
    perform_all-IsServed interval k n rest (perform interval a w) (
      perform-IsServed interval k (thread_steps rest + n) a w (
        IsServed-within k (thread_steps (a ∷ rest) + n) (thread_step a + (thread_steps rest + n)) w
          (omega arith) h))

trigger-IsServed :
    (w : Worker) (n : ℕ) → (trigger w).1 ≡ true → 9 ≤ n → IsServed w.passes n (trigger w).0
unfolding trigger
trigger-IsServed w n accepted enough = ground arith

IsServed-now : (k : ℕ) (w : Worker) → IsServed k 0 w → (w.stop ≡ true) ⊎ (k < w.passes)
IsServed-now k w h = ground arith

-- An accepted trigger is never lost: whatever happens afterwards, once the thread has made nine steps
-- the worker is stopped or a new pass has begun.
pub trigger_served :
    (interval : ℕ) (w : Worker) (actions : List Action)
    → (trigger w).1 ≡ true
    → 9 ≤ thread_steps actions
    → ((perform_all interval actions (trigger w).0).stop ≡ true)
      ⊎ (w.passes < (perform_all interval actions (trigger w).0).passes)
trigger_served interval w actions accepted enough =
    IsServed-now w.passes (perform_all interval actions (trigger w).0) (
      perform_all-IsServed interval w.passes 0 actions (trigger w).0
        (trigger-IsServed w (thread_steps actions + 0) accepted (omega arith)))
