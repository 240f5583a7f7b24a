-- ===== src/Workers/Cadence.antt =====
-- The schedule of the worker: its deadlines, and the passes that they cause.
use token_board.Base.{
  ℕ, zero, suc, ◌+◌, ◌-◌, ◌*◌, ◌≤◌, ◌<◌, ◌≡◌, refl, ap, ◌∙◌, ◌⊎◌, inl, inr, Bool, true, false, not,
  List, [], ◌∷◌, leb, Bool-cases, arith,
}
use token_board.Workers.{
  Phase, running, finished, woken, timed, clearing, scheduling, launching, Worker, Action, tick,
  request, interrupt, thread, Finish, trigger, perform, perform_all, advance_thread, halt,
  end_thread, begin_pass, end_wait, decide, catch_up, move_deadline, started,
}

-- Before, in and behind a scheduled pass.
abbrev is_scheduled : Phase → Bool
is_scheduled (running late) = late
is_scheduled finished = true
is_scheduled (woken triggered) = not triggered
is_scheduled (timed triggered) = not triggered
is_scheduled (clearing triggered now) = not triggered
is_scheduled scheduling = true
is_scheduled (launching late) = late
is_scheduled _ = false

abbrev is_finished : Phase → Bool
is_finished finished = true
is_finished _ = false

-- The time that the thread has read.
abbrev time_read : Phase → ℕ
time_read (clearing triggered now) = now
time_read _ = 0

module _ (interval start : ℕ) where
  -- A deadline after `rounds` whole intervals that have passed.
  record IsDeadline (rounds deadline clock : ℕ) : Type 0 where
    anchored : deadline ≡ start + suc rounds * interval
    reached : start + rounds * interval ≤ clock

  next-IsDeadline :
      (rounds deadline clock : ℕ)
      → IsDeadline rounds deadline clock
      → deadline ≤ clock
      → IsDeadline (suc rounds) (deadline + interval) clock
  next-IsDeadline rounds deadline clock h late = record {
    anchored = grind (arith, h.anchored);
    reached = grind (arith, h.anchored);
  }

  catch_up-IsDeadline :
      (fuel now deadline rounds : ℕ)
      → IsDeadline rounds deadline now
      → (rounds' : ℕ) × (rounds ≤ rounds')
        × IsDeadline rounds' (catch_up interval fuel now deadline) now
  unfolding catch_up
  catch_up-IsDeadline zero now deadline rounds h = (rounds, omega arith, h)
  catch_up-IsDeadline (suc fuel) now deadline rounds h = elim (Bool-cases (leb deadline now)) [
    | inl late ↦
        let (rounds', more, h') =
          catch_up-IsDeadline fuel now (deadline + interval) (suc rounds)
            (next-IsDeadline rounds deadline now h (ground arith)) in
        rw (late, catch_up) (rounds', omega arith, h')
    | inr early ↦ rw (early, catch_up) (rounds, omega arith, h)
  ]

  -- The deadline of a worker after `rounds` intervals.
  record IsOnTime (rounds : ℕ) (w : Worker) : Type 0 where
    current : IsDeadline rounds w.deadline w.clock
    counted : w.scheduled ≤ rounds
    late : is_scheduled w.phase ≡ true → w.deadline ≤ w.clock
    read : time_read w.phase ≤ w.clock

  -- Any step but the move of the deadline.
  keep-IsOnTime :
      (rounds : ℕ) (w v : Worker)
      → IsOnTime rounds w
      → v.deadline ≡ w.deadline
      → w.clock ≤ v.clock
      → v.scheduled ≡ w.scheduled
      → (is_scheduled v.phase ≡ true → w.deadline ≤ v.clock)
      → time_read v.phase ≤ v.clock
      → (rounds' : ℕ) × IsOnTime rounds' v
  keep-IsOnTime rounds w v h same_deadline later same_count late read = (
    rounds,
    record {
      current = record {
        anchored = same_deadline ∙ h.current.anchored;
        reached = omega (arith, h.current.reached);
      };
      counted = omega (arith, h.counted);
      late = λ p. omega (arith, late p);
      read = read;
    },
  )

  move_deadline-IsOnTime :
      (rounds : ℕ) (w : Worker)
      → IsOnTime rounds w
      → w.deadline ≤ w.clock
      → (rounds' : ℕ) × IsOnTime rounds' (move_deadline interval w)
  unfolding move_deadline
  move_deadline-IsOnTime rounds w h late =
      let first : suc w.clock - w.deadline ≡ suc (w.clock - w.deadline) = omega (arith, late) in
      let moves : leb w.deadline w.clock ≡ true = ground (arith, late) in
      let (rounds', more, current) =
        catch_up-IsDeadline (w.clock - w.deadline) w.clock (w.deadline + interval) (suc rounds)
          (next-IsDeadline rounds w.deadline w.clock h.current late) in
      (
        rounds',
        record {
          current = rw (first, catch_up) (rw (moves, catch_up) current);
          counted = omega (arith, h.counted, more);
          late = λ p. cc;
          read = omega arith;
        },
      )

  advance_unless_finished :
      (rounds : ℕ) (races : Bool) (finish : Finish) (w : Worker)
      → IsOnTime rounds w
      → is_finished w.phase ≡ false
      → (rounds' : ℕ) × IsOnTime rounds' (advance_thread interval races finish w)
  unfolding advance_thread end_thread begin_pass end_wait decide
  advance_unless_finished rounds races finish w h other =
      keep-IsOnTime rounds w (advance_thread interval races finish w) h (ground arith)
        (ground arith) (ground arith) (ground (arith, h.late, h.read)) (ground (arith, h.read))

  finished-cases : (p : Phase) → (p ≡ finished) ⊎ (is_finished p ≡ false)
  finished-cases p = ground arith

  perform-IsOnTime :
      (rounds : ℕ) (a : Action) (w : Worker)
      → IsOnTime rounds w
      → (rounds' : ℕ) × IsOnTime rounds' (perform interval a w)
  unfolding perform trigger halt advance_thread
  perform-IsOnTime rounds (tick t) w h =
      keep-IsOnTime rounds w (record w { clock = w.clock + t }) h refl (omega arith) refl
        (λ p. omega (arith, h.late p)) (omega (arith, h.read))
  perform-IsOnTime rounds request w h =
      keep-IsOnTime rounds w (trigger w).0 h (ground arith) (ground arith) (ground arith)
        (ground (arith, h.late)) (ground (arith, h.read))
  perform-IsOnTime rounds interrupt w h =
      keep-IsOnTime rounds w (halt w) h refl (omega arith) refl h.late h.read
  perform-IsOnTime rounds (thread races finish) w h = elim (finished-cases w.phase) [
    | inl e ↦
        rw (e, advance_thread) (move_deadline-IsOnTime rounds w h (h.late (ap is_scheduled e)))
    | inr other ↦ advance_unless_finished rounds races finish w h other
  ]

  perform_all-IsOnTime :
      (rounds : ℕ) (actions : List Action) (w : Worker)
      → IsOnTime rounds w
      → (rounds' : ℕ) × IsOnTime rounds' (perform_all interval actions w)
  unfolding perform_all
  perform_all-IsOnTime rounds [] w h = (rounds, h)
  perform_all-IsOnTime rounds (a ∷ rest) w h =
      let (rounds', h') = perform-IsOnTime rounds a w h in
      perform_all-IsOnTime rounds' rest (perform interval a w) h'

  -- The schedule never drifts: after any actions the next deadline stands a whole number of intervals
  -- after the start of the thread, `rounds` intervals have passed since, and no more than that many
  -- scheduled passes have ended, however many triggers came.
  pub perform_all_schedule :
      (actions : List Action)
      → (rounds : ℕ) × ((perform_all interval actions (started interval start)).deadline
          ≡ start + suc rounds * interval)
        × (start + rounds * interval
            ≤ (perform_all interval actions (started interval start)).clock)
        × ((perform_all interval actions (started interval start)).scheduled ≤ rounds)
  unfolding started
  perform_all_schedule actions =
      let (rounds, h) = perform_all-IsOnTime 0 actions (started interval start) (record {
        current = record { anchored = omega arith; reached = omega arith };
        counted = omega arith;
        late = λ p. cc;
        read = omega arith;
      }) in
      (rounds, h.current.anchored, h.current.reached, h.counted)

module _ (interval : ℕ) where
  catch_up_past :
      (fuel now deadline : ℕ)
      → 1 ≤ interval
      → suc now ≤ deadline + fuel
      → now < catch_up interval fuel now deadline
  unfolding catch_up
  catch_up_past zero now deadline h k = omega arith
  catch_up_past (suc fuel) now deadline h k = elim (Bool-cases (leb deadline now)) [
    | inl late ↦ rw (late, catch_up) (catch_up_past fuel now (deadline + interval) h (omega arith))
    | inr early ↦ rw (early, catch_up) (ground arith)
  ]

  -- The loop that moves the deadline has enough fuel: it ends with a deadline in the future.
  pub move_deadline_past :
      (w : Worker) → 1 ≤ interval → w.clock < (move_deadline interval w).deadline
  unfolding move_deadline
  move_deadline_past w h =
      catch_up_past (suc w.clock - w.deadline) w.clock w.deadline h (omega arith)
