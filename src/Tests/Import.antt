-- ===== src/Tests/Import.antt =====
-- One file of two records that is imported, found unchanged, and imported again.
use token_board.Base.{ℕ, ◌≡◌, true, false, none, some, List, [], ◌∷◌}
use token_board.Import.{UsageEvent, Store, insert_batch}
use token_board.Import.Scan.{
  Stat, Visit, ParseBatch, Parsed, StoredCursor, Database, Pass, visit_source, import_software,
  states_of,
}
use token_board.Import.Rows.{IsLog}
use token_board.Import.Repeat.{insert_batch_again}
use token_board.Import.Passes.{OutcomeGrows, Raises, import_software-Grows, visit_source-Raises}

-- Tokens in a thousandth of a second.
abbrev speed : ℕ → ℕ → ℕ
speed completion duration = completion

abbrev event : ℕ → UsageEvent
event id = record {
  model = 5;
  prompt_tokens = 900;
  completion_tokens = 300;
  cache_read_tokens = 100;
  total_tokens = 1200;
  requested_at = 77;
  event_id = id;
  duration_ms = 2000;
}

abbrev two_events : List UsageEvent
two_events = event 1 ∷ event 2 ∷ []

abbrev no_rows : Store ℕ
no_rows = record { receipts = []; log = [] }

no_rows-IsLog : IsLog no_rows
no_rows-IsLog = record { unique = tt; receipted = tt }

abbrev stat : Stat
stat = record { size = 400; mtime = 12; mtime_ns = 12_500 }

abbrev two_records : ParseBatch
two_records = record { events = two_events; skipped = false; warnings = none }

abbrev visit : Visit
visit = record {
  state_key = 8;
  is_stopped = false;
  before = some stat;
  warnings = none;
  answer = some (Parsed.batch two_records);
  after = some stat;
  fails = false;
}

abbrev failing : Visit
failing = record visit { fails = true }

abbrev unset : Database ℕ
unset = record { store = no_rows; cursor = StoredCursor.unset; last_error = none }

abbrev begun : Pass ℕ
begun = record { database = unset; states = []; inserted = 0 }

insert_batch_again_example :
    insert_batch 0 speed 4 two_events (insert_batch 0 speed 4 two_events no_rows).0
    ≡ ((insert_batch 0 speed 4 two_events no_rows).0, 0)
insert_batch_again_example = insert_batch_again 0 speed 4 two_events no_rows no_rows-IsLog

import_software-Grows_example :
    OutcomeGrows begun (import_software 0 speed 4 false (visit ∷ failing ∷ []) unset)
unfolding states_of
import_software-Grows_example =
    import_software-Grows 0 speed 4 false (visit ∷ failing ∷ []) unset no_rows-IsLog

visit_source-Raises_example : Raises begun (visit_source 0 speed 4 false failing begun)
visit_source-Raises_example = visit_source-Raises 0 speed 4 false failing begun

abbrev other : Visit
other = record visit { state_key = 9; is_stopped = true }
