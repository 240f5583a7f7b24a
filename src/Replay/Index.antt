-- ===== src/Replay/Index.antt =====
-- app/services/codex_replay.py, `_session_index`: one pass over the records of a transcript.
use token_board.Base.{
  ℕ, zero, suc, Bool, true, false, ◌||◌, Option, none, some, List, [], ◌∷◌, ◌++◌, map, max,
}
use token_board.Replay.{TokenTime, forever, at, Boundary, SessionIndex}

-- The `source` of a session's first record: the text "subagent", an object, or anything else. An
-- object tells whether it has the key "subagent", and its two parent ids.
pub data SourceMeta : Type 0 where
  subagent_text plain : SourceMeta
  nested : Bool → Option ℕ → Option ℕ → SourceMeta

-- A `session_meta` payload; an empty id is `none`.
pub record SessionMeta : Type 0 where
  pub session_id : Option ℕ
  pub forked_from_id : Option ℕ
  pub parent_thread_id : Option ℕ
  pub is_subagent_thread : Bool
  pub source : SourceMeta
  pub started_at : Option ℕ

-- A normalized record, by what the pass does with it.
pub data Content : Type 0 where
  session_meta : SessionMeta → Content
  token_count : ℕ → Content
  task_started : Option ℕ → Content
  other : Content

pub record Entry : Type 0 where
  pub timestamp : Option ℕ
  pub content : Content

-- The local variables of the loop. The pending times are those that are `forever`.
pub record Indexing : Type 0 where
  pub meta : Option SessionMeta
  pub meta_count : ℕ
  pub logical : Option ℕ
  pub fingerprints : List ℕ
  pub times : List TokenTime
  pub boundaries : List Boundary
  pub raw_token_count : ℕ

abbrev pub first_of : Option ℕ → Option ℕ → Option ℕ
first_of none b = b
first_of (some a) b = some a

unfoldable pub parent_thread : SessionMeta → Option ℕ
parent_thread m = elim m.source [
  | subagent_text ↦ m.parent_thread_id
  | plain ↦ m.parent_thread_id
  | nested _ direct spawned ↦ first_of m.parent_thread_id (first_of direct spawned)
]

abbrev pub names_subagent : SourceMeta → Bool
names_subagent subagent_text = true
names_subagent plain = false
names_subagent (nested has _ _) = has

abbrev pub is_given : Option ℕ → Bool
is_given none = false
is_given (some _) = true

unfoldable pub is_subagent_session : SessionMeta → Bool
unfolding parent_thread
is_subagent_session m =
    m.is_subagent_thread || names_subagent m.source || is_given (parent_thread m)

unfoldable pub later_time : Option ℕ → ℕ → ℕ
later_time none t = t
later_time (some l) t = max l t

abbrev pub settle : ℕ → TokenTime → TokenTime
settle t forever = at t
settle t (at s) = at s

-- A record with a timestamp moves the logical time and gives it to the pending counts.
unfoldable pub tick : Option ℕ → Indexing → Indexing
unfolding later_time
tick none s = s
tick (some t) s =
    let logical = later_time s.logical t in
    record s { logical = some logical; times = map (settle logical) s.times }

abbrev pub time_now : Option ℕ → Option ℕ → TokenTime
time_now none logical = forever
time_now (some t) none = forever
time_now (some t) (some l) = at l

unfoldable pub take_content : Option ℕ → Content → Indexing → Indexing
take_content t other s = s
take_content t (session_meta m) s = record s {
  meta = elim s.meta_count [ zero ↦ some m | suc _ ↦ s.meta ];
  meta_count = suc s.meta_count;
}
take_content t (token_count fingerprint) s = record s {
  fingerprints = s.fingerprints ++ fingerprint ∷ [];
  times = s.times ++ time_now t s.logical ∷ [];
  raw_token_count = suc s.raw_token_count;
}
take_content t (task_started started) s = record s {
  boundaries =
      s.boundaries ++ record { raw_token_count = s.raw_token_count; started_at = started } ∷ [];
}

-- One round of the loop.
unfoldable pub read_entry : Entry → Indexing → Indexing
unfolding tick take_content
read_entry e s = take_content e.timestamp e.content (tick e.timestamp s)

unfoldable pub read_entries : List Entry → Indexing → Indexing
unfolding read_entry
read_entries [] s = s
read_entries (e ∷ es) s = read_entries es (read_entry e s)

abbrev pub unread : Indexing
unread = record {
  meta = none;
  meta_count = 0;
  logical = none;
  fingerprints = [];
  times = [];
  boundaries = [];
  raw_token_count = 0;
}

abbrev pub id_or_path : Option ℕ → ℕ → ℕ
id_or_path none name = name
id_or_path (some id) name = id

-- The dictionary that is returned, for a file with its size and the session id of its name.
unfoldable pub index_of : ℕ → ℕ → ℕ → Indexing → SessionIndex
unfolding parent_thread is_subagent_session
index_of path size name s = elim s.meta [
  | none ↦ record {
    path = path;
    size = size;
    session_id = name;
    forked_from_id = none;
    parent_thread_id = none;
    is_subagent = false;
    session_meta_count = s.meta_count;
    session_started_at = none;
    token_fingerprints = s.fingerprints;
    token_times = s.times;
    task_boundaries = s.boundaries;
    raw_token_count = s.raw_token_count;
  }
  | some m ↦ record {
    path = path;
    size = size;
    session_id = id_or_path m.session_id name;
    forked_from_id = m.forked_from_id;
    parent_thread_id = parent_thread m;
    is_subagent = is_subagent_session m;
    session_meta_count = s.meta_count;
    session_started_at = m.started_at;
    token_fingerprints = s.fingerprints;
    token_times = s.times;
    task_boundaries = s.boundaries;
    raw_token_count = s.raw_token_count;
  }
]

unfoldable pub session_index : ℕ → ℕ → ℕ → List Entry → SessionIndex
unfolding index_of read_entries
session_index path size name entries = index_of path size name (read_entries entries unread)
