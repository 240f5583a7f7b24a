-- ===== src/Workers.antt =====
-- app/services/runtime_tasks.py: `AgentUsageImportWorker`. The thread's program counter is a phase; one
-- action is a step of the thread or of another one, and any sequence of actions may happen. An
-- operation on an event (set, clear, the test) is one step. The clock is `time.monotonic`, and the
-- interval is positive, as in the source.
pub mod Served
pub mod Halt
pub mod Cadence
use token_board.Base.{
  ℕ, zero, suc, ◌+◌, ◌-◌, Bool, true, false, ◌&&◌, ◌||◌, not, Option, none, some, List, [], ◌∷◌,
  ltb, leb, if◌then◌else◌,
}

pub data Status : Type 0 where
  healthy degraded ended : Status

-- One entry of the health table, without the time of its last update.
pub record Health : Type 0 where
  pub status : Option Status
  pub last_error : Option ℕ
  pub last_inserted : Option ℕ

-- `_set_health`: an error is stored, or the last one is removed.
unfoldable pub set_health : Status → Option ℕ → Health → Health
set_health status error h = record h { status = some status; last_error = error }

-- How a pass ends: with the number of new rows, or with an exception.
pub data Finish : Type 0 where
  inserted failed : ℕ → Finish

-- The end of `_run_once`.
unfoldable pub report : Finish → Health → Health
unfolding set_health
report (inserted n) h = record (set_health Status.healthy none h) { last_inserted = some n }
report (failed e) h = set_health Status.degraded (some e) h

-- Where the thread stands in `_run`: before the first test of the stop flag; in a pass, which is the
-- scheduled one or not; before the deadline moves; at the test of the loop; in the wait; behind it;
-- behind the second test; with the time read; before the second clear; before a pass; at the end.
pub data Phase : Type 0 where
  starting : Phase
  running : Bool → Phase
  finished checking waiting : Phase
  woken : Bool → Phase
  timed : Bool → Phase
  clearing : Bool → ℕ → Phase
  scheduling : Phase
  launching : Bool → Phase
  stopped : Phase

-- `passes` counts the passes that have begun, and `scheduled` the scheduled ones that have ended.
pub record Worker : Type 0 where
  pub phase : Phase
  pub stop : Bool
  pub wake : Bool
  pub clock : ℕ
  pub deadline : ℕ
  pub health : Health
  pub passes : ℕ
  pub scheduled : ℕ

-- The end of the thread, with the last report of its `finally`.
unfoldable pub end_thread : Worker → Worker
unfolding set_health
end_thread w = record w { phase = stopped; health = set_health Status.ended none w.health }

-- A test of the stop flag.
abbrev pub unless_stopped : Phase → Worker → Worker
unless_stopped p w = if w.stop then end_thread w else record w { phase = p }

-- `_run_once` begins.
unfoldable pub begin_pass : Bool → Worker → Worker
begin_pass is_scheduled w = record w { phase = running is_scheduled; passes = suc w.passes }

-- `wait(timeout)`: it returns true once the flag is set, and false once the deadline has come, when the
-- flag may just have been set (`races`).
unfoldable pub end_wait : Bool → Worker → Worker
end_wait races w =
    if leb w.deadline w.clock && (races || not w.wake)
    then record w { phase = woken false }
    else if w.wake
    then record w { phase = woken true }
    else w

-- The branches after the time is read.
unfoldable pub decide : Bool → ℕ → Worker → Worker
decide is_triggered now w = record w {
  wake = if is_triggered then false else w.wake;
  phase = if is_triggered && ltb now w.deadline then launching false else scheduling;
}

module _ (interval : ℕ) where
  -- `while next_deadline <= now`, on fuel.
  unfoldable pub catch_up : ℕ → ℕ → ℕ → ℕ
  catch_up zero now deadline = deadline
  catch_up (suc fuel) now deadline =
      let later = catch_up fuel now (deadline + interval) in
      if leb deadline now then later else deadline

  unfoldable pub move_deadline : Worker → Worker
  unfolding catch_up
  move_deadline w = record w {
    phase = checking;
    deadline = catch_up (suc w.clock - w.deadline) w.clock w.deadline;
    scheduled = suc w.scheduled;
  }

  -- One step of the thread; a pass that runs ends with `finish`.
  unfoldable pub advance_thread : Bool → Finish → Worker → Worker
  unfolding end_thread begin_pass end_wait decide move_deadline report
  advance_thread races finish w = elim w.phase [
    | starting ↦ if w.stop then end_thread w else begin_pass false w
    | running is_scheduled ↦ record w {
      phase = if is_scheduled then finished else checking;
      health = report finish w.health;
    }
    | finished ↦ move_deadline w
    | checking ↦ unless_stopped waiting w
    | waiting ↦ end_wait races w
    | woken is_triggered ↦ unless_stopped (timed is_triggered) w
    | timed is_triggered ↦ record w { phase = clearing is_triggered w.clock }
    | clearing is_triggered now ↦ decide is_triggered now w
    | scheduling ↦ record w { wake = false; phase = launching true }
    | launching is_scheduled ↦ begin_pass is_scheduled w
    | stopped ↦ w
  ]

abbrev pub is_alive : Phase → Bool
is_alive stopped = false
is_alive _ = true

-- `trigger`.
unfoldable pub trigger : Worker → Worker × Bool
trigger w =
    if w.stop || not (is_alive w.phase) then (w, false) else (record w { wake = true }, true)

-- `stop`.
unfoldable pub halt : Worker → Worker
halt w = record w { stop = true; wake = true }

-- What may happen next: time passes, another thread calls, or the thread makes a step.
pub data Action : Type 0 where
  tick : ℕ → Action
  request interrupt : Action
  thread : Bool → Finish → Action

unfoldable pub perform : ℕ → Action → Worker → Worker
unfolding advance_thread trigger halt
perform interval (tick t) w = record w { clock = w.clock + t }
perform interval request w = (trigger w).0
perform interval interrupt w = halt w
perform interval (thread races finish) w = advance_thread interval races finish w

unfoldable pub perform_all : ℕ → List Action → Worker → Worker
unfolding perform
perform_all interval [] w = w
perform_all interval (a ∷ rest) w = perform_all interval rest (perform interval a w)

abbrev pub thread_step : Action → ℕ
thread_step (thread races finish) = 1
thread_step _ = 0

-- The steps of the thread among the actions.
abbrev pub thread_steps : List Action → ℕ
thread_steps [] = 0
thread_steps (a ∷ rest) = thread_step a + thread_steps rest

-- A worker as its thread begins to run.
unfoldable pub started : ℕ → ℕ → Worker
started interval clock = record {
  phase = starting;
  stop = false;
  wake = false;
  clock = clock;
  deadline = clock + interval;
  health = record { status = none; last_error = none; last_inserted = none };
  passes = 0;
  scheduled = 0;
}
