-- ===== src/Import.antt =====
-- app/services/agent_usage: the import of local agent usage. `ir.py` and `make_event` of common.py
-- build events, `_insert_agent_usage_row` of app/db/proxy/routing.py writes one, and `Scan` has
-- the importer. An event id, a model and a time text are numbers, since they are compared only.
-- A float speed is a value of a type `F`, from the source's quotient `speed`.
pub mod Scan
pub mod Rows
pub mod Repeat
pub mod Passes
pub mod Skips
use token_board.Base.{
  ℕ, zero, suc, ◌+◌, Bool, true, false, ◌||◌, Option, none, some, List, [], ◌∷◌, ◌++◌, ltb, leb,
  ◌==◌, if◌then◌else◌,
}

-- A reported count: what `int(value or 0)` refuses, a negative number, a number.
pub data Count : Type 0 where
  refused below_zero : Count
  number : ℕ → Count

-- `_non_negative_int` and `safe_int`.
unfoldable pub non_negative : Count → ℕ
non_negative refused = 0
non_negative below_zero = 0
non_negative (number n) = n

pub record UsageEvent : Type 0 where
  pub model : ℕ
  pub prompt_tokens : ℕ
  pub completion_tokens : ℕ
  pub cache_read_tokens : ℕ
  pub total_tokens : ℕ
  pub requested_at : ℕ
  pub event_id : ℕ
  pub duration_ms : ℕ

-- The counts that an adapter reports for one record.
pub record Buckets : Type 0 where
  pub input : Count
  pub output : Count
  pub cached_input : Count
  pub reasoning_output : Count
  pub total : Option Count
  pub duration : Count
  pub input_includes_cache : Bool

abbrev pub total_or : ℕ → Option Count → ℕ
total_or computed none = computed
total_or computed (some c) = non_negative c

-- `UsageEvent.from_buckets`.
unfoldable pub from_buckets : ℕ → ℕ → ℕ → Buckets → UsageEvent
unfolding non_negative
from_buckets model requested_at event_id b =
    let input : ℕ = non_negative b.input in
    let cache : ℕ = non_negative b.cached_input in
    let prompt : ℕ = if b.input_includes_cache then input else input + cache in
    let completion : ℕ = non_negative b.output + non_negative b.reasoning_output in
    record {
      model = model;
      prompt_tokens = prompt;
      completion_tokens = completion;
      cache_read_tokens = cache;
      total_tokens = total_or (prompt + completion) b.total;
      requested_at = requested_at;
      event_id = event_id;
      duration_ms = non_negative b.duration;
    }

-- `make_event`: a record without a time, or without any token, is no event.
unfoldable pub make_event : ℕ → Option ℕ → ℕ → Buckets → Option UsageEvent
unfolding from_buckets
make_event model none event_id b = none
make_event model (some requested_at) event_id b =
    if non_negative b.input
        + non_negative b.output
        + non_negative b.cached_input
        + non_negative b.reasoning_output
      == 0
    then none
    else some (from_buckets model requested_at event_id b)

-- A row of `request_log`; the prices are SQLite's.
pub record LogRow (F : Type 0) : Type 0 where
  pub event_id : ℕ
  pub software_id : ℕ
  pub model : ℕ
  pub prompt_tokens : ℕ
  pub completion_tokens : ℕ
  pub cache_read_tokens : ℕ
  pub total_tokens : ℕ
  pub duration_ms : ℕ
  pub output_tps : F
  pub requested_at : ℕ

-- The event ids of `agent_usage_receipts`, and `request_log`, where the event id is unique.
pub record Store (F : Type 0) : Type 0 where
  pub receipts : List ℕ
  pub log : List (LogRow F)

abbrev pub has_receipt : ℕ → List ℕ → Bool
has_receipt id [] = false
has_receipt id (r ∷ rs) = (r == id) || has_receipt id rs

module _ {F : Type 0} where
  abbrev pub is_logged : ℕ → List (LogRow F) → Bool
  is_logged id [] = false
  is_logged id (r ∷ rs) = (r.event_id == id) || is_logged id rs

  -- The UPDATE of the rows of an event that have no duration yet.
  unfoldable pub fill_duration : ℕ → ℕ → F → List (LogRow F) → List (LogRow F)
  fill_duration id duration tps [] = []
  fill_duration id duration tps (r ∷ rs) =
      (if r.event_id == id
        then (if r.duration_ms == 0
            then record r { duration_ms = duration; output_tps = tps }
            else r)
        else r)
      ∷ fill_duration id duration tps rs

  unfoldable pub log_row : ℕ → UsageEvent → F → LogRow F
  log_row software e tps = record {
    event_id = e.event_id;
    software_id = software;
    model = e.model;
    prompt_tokens = e.prompt_tokens;
    completion_tokens = e.completion_tokens;
    cache_read_tokens = e.cache_read_tokens;
    total_tokens = e.total_tokens;
    duration_ms = e.duration_ms;
    output_tps = tps;
    requested_at = e.requested_at;
  }

  -- An event with a receipt fills in a duration at most.
  unfoldable pub refresh_row : UsageEvent → F → Store F → Store F
  unfolding fill_duration
  refresh_row e tps s =
      if ltb 0 e.duration_ms
      then record s { log = fill_duration e.event_id e.duration_ms tps s.log }
      else s

  -- A new event gets a receipt, and a row unless the log has one.
  unfoldable pub add_row : ℕ → UsageEvent → F → Store F → Store F × Bool
  unfolding log_row
  add_row software e tps s =
      if is_logged e.event_id s.log
      then (record s { receipts = s.receipts ++ e.event_id ∷ [] }, false)
      else (
        record {
          receipts = s.receipts ++ e.event_id ∷ [];
          log = s.log ++ log_row software e tps ∷ [];
        },
        true,
      )

  unfoldable pub insert_agent_usage_row : ℕ → UsageEvent → F → Store F → Store F × Bool
  unfolding refresh_row add_row
  insert_agent_usage_row software e tps s =
      if has_receipt e.event_id s.receipts
      then (refresh_row e tps s, false)
      else add_row software e tps s

abbrev pub min_output_tokens : ℕ
min_output_tokens = 200

abbrev pub min_duration_ms : ℕ
min_duration_ms = 1000

module _ {F : Type 0} (nought : F) (speed : ℕ → ℕ → F) where
  unfoldable pub estimated_output_tps : ℕ → ℕ → F
  estimated_output_tps completion duration =
      if ltb duration min_duration_ms || ltb completion min_output_tokens
      then nought
      else speed completion duration

  unfoldable pub insert_event : ℕ → UsageEvent → Store F → Store F × Bool
  unfolding insert_agent_usage_row estimated_output_tps
  insert_event software e s =
      insert_agent_usage_row software e (estimated_output_tps e.completion_tokens e.duration_ms) s

  -- The loop over the events of one batch: the store and the number of new rows.
  unfoldable pub insert_batch : ℕ → List UsageEvent → Store F → Store F × ℕ
  unfolding insert_event
  insert_batch software [] s = (s, 0)
  insert_batch software (e ∷ es) s =
      let (s', is_new) = insert_event software e s in
      let (s'', n) = insert_batch software es s' in (s'', (if is_new then 1 else 0) + n)
