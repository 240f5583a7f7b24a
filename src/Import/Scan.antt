-- ===== src/Import/Scan.antt =====
-- app/services/agent_usage/importer.py: one pass over the sources of one software. What lies outside
-- (the files' stat, the adapter's parser, the stop flag, SQLite's failures) is a `Visit` per source.
use token_board.Base.{
  ℕ, ◌+◌, Bool, false, not, ◌&&◌, Option, none, some, List, [], ◌∷◌, ◌==◌, if◌then◌else◌,
}
use token_board.Import.{UsageEvent, Store, insert_batch}

pub record Stat : Type 0 where
  pub size : ℕ
  pub mtime : ℕ
  pub mtime_ns : ℕ

-- A stored "mtime_ns": no such key, another value, a number.
pub data NsField : Type 0 where
  missing other : NsField
  ns : ℕ → NsField

-- The state of one source in the cursor, as far as the code reads it.
pub record FileState : Type 0 where
  pub size : Option ℕ
  pub mtime : Option ℕ
  pub mtime_ns : NsField

-- A value that is not an object is `none`.
abbrev pub Cursor : Type 0
Cursor = List (ℕ × Option FileState)

-- `cursor_json`: empty, not an object, an object.
pub data StoredCursor : Type 0 where
  unset unparsable : StoredCursor
  object : Cursor → StoredCursor

unfoldable pub states_of : StoredCursor → Cursor
states_of unset = []
states_of unparsable = []
states_of (object c) = c

unfoldable pub state_at : ℕ → Cursor → Option FileState
state_at key [] = none
state_at key ((k, s) ∷ rest) = if k == key then s else state_at key rest

-- `states[key] = ...`.
unfoldable pub set_state : ℕ → FileState → Cursor → Cursor
set_state key new [] = (key, some new) ∷ []
set_state key new ((k, s) ∷ rest) =
    let tail = set_state key new rest in if k == key then (k, some new) ∷ rest else (k, s) ∷ tail

abbrev pub equals : Option ℕ → ℕ → Bool
equals none n = false
equals (some m) n = m == n

unfoldable pub same_stat : FileState → Stat → Bool
same_stat f stat = elim f.mtime_ns [
  | missing ↦ equals f.mtime stat.mtime
  | other ↦ false
  | ns n ↦ n == stat.mtime_ns
]

-- The size is the same too, and the adapter does not ask for every scan.
unfoldable pub is_unchanged : Bool → Option FileState → Stat → Bool
unfolding same_stat
is_unchanged always_scan none stat = false
is_unchanged always_scan (some f) stat =
    not always_scan && equals f.size stat.size && same_stat f stat

pub record ParseBatch : Type 0 where
  pub events : List UsageEvent
  pub skipped : Bool
  pub warnings : Option ℕ

-- A row of the older container: an event, a row that makes one, or something that makes none.
pub data RawRow : Type 0 where
  event_row : UsageEvent → RawRow
  unusable : RawRow

-- What a parser returns: None, a batch, the older container, anything else (a container without a
-- count too).
pub data Parsed : Type 0 where
  cancelled invalid : Parsed
  batch : ParseBatch → Parsed
  rows : List RawRow → Parsed

unfoldable pub events_of : List RawRow → List UsageEvent
events_of [] = []
events_of (event_row e ∷ rest) = e ∷ events_of rest
events_of (unusable ∷ rest) = events_of rest

pub data Coerced : Type 0 where
  stops refuses : Coerced
  gives : ParseBatch → Coerced

-- `_coerce_batch`; `refuses` is the TypeError.
unfoldable pub coerce_batch : Parsed → Coerced
unfolding events_of
coerce_batch cancelled = stops
coerce_batch invalid = refuses
coerce_batch (batch b) = gives b
coerce_batch (rows rs) = gives (record { events = events_of rs; skipped = false; warnings = none })

-- One source: its state key, the stop flag as the pass reaches it, the stat before and after the
-- parse (`none` is an OSError), the warnings of the discovery, the parser's answer (`none` is an
-- exception), and whether SQLite fails within the transaction.
pub record Visit : Type 0 where
  pub state_key : ℕ
  pub is_stopped : Bool
  pub before : Option Stat
  pub warnings : Option ℕ
  pub answer : Option Parsed
  pub after : Option Stat
  pub fails : Bool

-- The texts of `last_error`.
pub data LastError : Type 0 where
  warned : ℕ → LastError
  raised_error : LastError

-- The tables, and the row of `agent_software_runtime`: its cursor and its last error.
pub record Database (F : Type 0) : Type 0 where
  pub store : Store F
  pub cursor : StoredCursor
  pub last_error : Option LastError

-- The pass so far: the committed tables, the local `states` and the count.
pub record Pass (F : Type 0) : Type 0 where
  pub database : Database F
  pub states : Cursor
  pub inserted : ℕ

-- How the pass goes on after a source.
pub data Step (F : Type 0) : Type 0 where
  next return raise : Pass F → Step F

-- How a pass ends.
pub data Outcome (F : Type 0) : Type 0 where
  returned raised : Pass F → Outcome F

abbrev pub same_stamp : Stat → Stat → Bool
same_stamp a b = (a.size == b.size) && (a.mtime_ns == b.mtime_ns)

abbrev pub file_state : Stat → FileState
file_state s = record { size = some s.size; mtime = some s.mtime; mtime_ns = ns s.mtime_ns }

module _ {F : Type 0} where
  -- The discovery warnings of a source that cannot be read.
  unfoldable pub warn : Option ℕ → Pass F → Pass F
  warn none p = p
  warn (some w) p = record p { database = record p.database { last_error = some (warned w) } }

  -- The writes after the events of a batch: the cursor advances if the file was stable and the
  -- batch is whole.
  unfoldable pub advance : ℕ → ParseBatch → Stat → Stat → Pass F → Pass F
  unfolding warn set_state
  advance key b before after p =
      if same_stamp after before && not b.skipped
      then (let states = set_state key (file_state after) p.states in
          record p {
            database = record p.database { cursor = StoredCursor.object states; last_error = none };
            states = states;
          })
      else if b.skipped
      then warn b.warnings p
      else p

  -- The outer handler stores the error and raises it again.
  unfoldable pub fail_pass : Pass F → Step F
  fail_pass p = raise (record p { database = record p.database { last_error = some raised_error } })

module _ {F : Type 0} (nought : F) (speed : ℕ → ℕ → F) (software : ℕ) where
  -- The transaction: all of it, or after a rollback none of it.
  unfoldable pub write_batch : Visit → ParseBatch → Stat → Stat → Pass F → Step F
  unfolding insert_batch advance fail_pass
  write_batch v b before after p =
      let (store, n) = insert_batch nought speed software b.events p.database.store in
      if v.fails
      then fail_pass p
      else next (
          advance v.state_key b before after (record p {
            database = record p.database { store = store };
            inserted = p.inserted + n;
          }))

  unfoldable pub write_stable : Visit → ParseBatch → Stat → Option Stat → Pass F → Step F
  unfolding write_batch
  write_stable v b before none p = next p
  write_stable v b before (some after) p = write_batch v b before after p

  unfoldable pub take_answer : Visit → Stat → Option Parsed → Pass F → Step F
  unfolding write_stable coerce_batch fail_pass
  take_answer v before none p = fail_pass p
  take_answer v before (some parsed) p = elim (coerce_batch parsed) [
    | stops ↦ return p
    | refuses ↦ fail_pass p
    | gives b ↦ write_stable v b before v.after p
  ]

  -- The body of the loop over the sources.
  unfoldable pub visit_source : Bool → Visit → Pass F → Step F
  unfolding take_answer is_unchanged state_at warn
  visit_source always_scan v p = if v.is_stopped then return p else elim v.before [
    | none ↦ next (warn v.warnings p)
    | some before ↦
        if is_unchanged always_scan (state_at v.state_key p.states) before
        then next p
        else take_answer v before v.answer p
  ]

  unfoldable pub visit_sources : Bool → List Visit → Pass F → Outcome F
  unfolding visit_source
  visit_sources always_scan [] p = returned p
  visit_sources always_scan (v ∷ vs) p = elim (visit_source always_scan v p) [
    | next p' ↦ visit_sources always_scan vs p'
    | return p' ↦ returned p'
    | raise p' ↦ raised p'
  ]

  -- `_import_software` of a registered kind.
  unfoldable pub import_software : Bool → List Visit → Database F → Outcome F
  unfolding visit_sources states_of
  import_software always_scan visits d =
      visit_sources always_scan visits
        (record { database = d; states = states_of d.cursor; inserted = 0 })
