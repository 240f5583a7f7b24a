-- ===== src/Replay.antt =====
-- app/services/codex_replay.py: the replayed prefix of a forked or sub-agent transcript. A transcript
-- is the list of its decoded records; a fingerprint is a number, and a time is in milliseconds, with
-- `forever` for the float infinity.
pub mod Index
pub mod Prefix
use token_board.Base.{
  ℕ, zero, suc, ◌+◌, ◌-◌, ◌*◌, Bool, true, false, ◌&&◌, ◌||◌, Option, none, some, List, [], ◌∷◌,
  ◌++◌, length, take, drop, min, max, leb, ltb, ◌==◌, if◌then◌else◌,
}

abbrev pub same_list : List ℕ → List ℕ → Bool
same_list [] [] = true
same_list [] (y ∷ ys) = false
same_list (x ∷ xs) [] = false
same_list (x ∷ xs) (y ∷ ys) = (x == y) && same_list xs ys

-- `parent[-size:]`, for a size of 1 or more.
abbrev pub suffix : ℕ → List ℕ → List ℕ
suffix size parent = drop (length parent - size) parent

-- The loop from `size` down to 1.
unfoldable pub prefix_suffix_from : ℕ → List ℕ → List ℕ → ℕ
prefix_suffix_from zero child parent = 0
prefix_suffix_from (suc n) child parent =
    let rest = prefix_suffix_from n child parent in
    if same_list (take (suc n) child) (suffix (suc n) parent) then suc n else rest

unfoldable pub longest_prefix_suffix : List ℕ → List ℕ → ℕ
unfolding prefix_suffix_from
longest_prefix_suffix child parent =
    prefix_suffix_from (min (length child) (length parent)) child parent

-- `any(parent[index:index + size] == prefix ...)`: the indexes from 0 to `len(parent) - size`.
unfoldable pub occurs : List ℕ → ℕ → List ℕ → Bool
occurs prefix size [] = same_list [] prefix
occurs prefix size (x ∷ parent) =
    same_list (take size (x ∷ parent)) prefix || occurs prefix size parent

unfoldable pub prefix_inside_from : ℕ → List ℕ → List ℕ → ℕ
unfolding occurs
prefix_inside_from zero child parent = 0
prefix_inside_from (suc n) child parent =
    let rest = prefix_inside_from n child parent in
    if occurs (take (suc n) child) (suc n) parent then suc n else rest

unfoldable pub longest_prefix_inside : List ℕ → List ℕ → ℕ
unfolding prefix_inside_from
longest_prefix_inside child parent =
    prefix_inside_from (min (length child) (length parent)) child parent

-- The time of a token count: `inf` until a later record has a timestamp.
pub data TokenTime : Type 0 where
  forever : TokenTime
  at : ℕ → TokenTime

pub record Boundary : Type 0 where
  pub raw_token_count : ℕ
  pub started_at : Option ℕ

pub record SessionIndex : Type 0 where
  pub path : ℕ
  pub size : ℕ
  pub session_id : ℕ
  pub forked_from_id : Option ℕ
  pub parent_thread_id : Option ℕ
  pub is_subagent : Bool
  pub session_meta_count : ℕ
  pub session_started_at : Option ℕ
  pub token_fingerprints : List ℕ
  pub token_times : List TokenTime
  pub task_boundaries : List Boundary
  pub raw_token_count : ℕ

abbrev pub is_by : TokenTime → ℕ → Bool
is_by forever started = false
is_by (at t) started = leb t started

-- The parent's fingerprints up to the child's start.
unfoldable pub tokens_by : ℕ → List ℕ → List TokenTime → List ℕ
tokens_by started [] times = []
tokens_by started (f ∷ fs) [] = []
tokens_by started (f ∷ fs) (t ∷ ts) =
    let rest = tokens_by started fs ts in if is_by t started then f ∷ rest else rest

-- `by_session`: the first of the largest copies of a session.
unfoldable pub larger_copy : ℕ → Option SessionIndex → List SessionIndex → Option SessionIndex
larger_copy session best [] = best
larger_copy session none (i ∷ items) =
    larger_copy session (if i.session_id == session then some i else none) items
larger_copy session (some b) (i ∷ items) =
    larger_copy session (if (i.session_id == session) && ltb b.size i.size then some i else some b)
      items

unfoldable pub parent_of : SessionIndex → List SessionIndex → Option SessionIndex
unfolding larger_copy
parent_of item items = elim item.forked_from_id [
  | some id ↦ larger_copy id none items
  | none ↦ elim item.parent_thread_id [
    | none ↦ none
    | some id ↦ if item.is_subagent then larger_copy id none items else none
  ]
]

unfoldable pub parent_tokens : SessionIndex → Option SessionIndex → List ℕ
unfolding tokens_by
parent_tokens item none = []
parent_tokens item (some parent) = elim item.session_started_at [
  | none ↦ parent.token_fingerprints
  | some started ↦ tokens_by started parent.token_fingerprints parent.token_times
]

abbrev pub starts_from : Option ℕ → ℕ → Bool
starts_from none t = true
starts_from (some started) t = leb started t

abbrev pub is_near : Option ℕ → ℕ → Bool
is_near none t = false
is_near (some started) t = leb ((t - started) + (started - t)) 5000

abbrev pub is_matching : SessionIndex → ℕ → Boundary → Bool
is_matching item skipped b = elim b.started_at [
  | none ↦ false
  | some t ↦ (b.raw_token_count == skipped) && starts_from item.session_started_at t
]

abbrev pub is_own_task : SessionIndex → Boundary → Bool
is_own_task item b = elim b.started_at [ none ↦ false | some t ↦ is_near item.session_started_at t ]

-- `[b for b in boundaries if test(b)][-1]`.
unfoldable pub last_boundary : (Boundary → Bool) → List Boundary → Option Boundary
last_boundary test [] = none
last_boundary test (b ∷ bs) = elim (last_boundary test bs) [
  | some c ↦ some c
  | none ↦ if test b then some b else none
]

unfoldable pub most_tokens : List Boundary → ℕ
most_tokens [] = 0
most_tokens (b ∷ bs) = max b.raw_token_count (most_tokens bs)

abbrev pub is_none : Option SessionIndex → Bool
is_none none = true
is_none (some _) = false

-- The task boundary of a sub-agent that raises the count.
unfoldable pub boundary_floor : SessionIndex → Option SessionIndex → ℕ → ℕ
unfolding last_boundary most_tokens
boundary_floor item parent skipped =
    elim (last_boundary (is_matching item skipped) item.task_boundaries) [
      | some b ↦ b.raw_token_count
      | none ↦ elim (last_boundary (is_own_task item) item.task_boundaries) [
        | some b ↦ b.raw_token_count
        | none ↦
            if is_none parent && (item.session_meta_count == 1)
            then most_tokens item.task_boundaries
            else 0
      ]
    ]

unfoldable pub subagent_skip : SessionIndex → Option SessionIndex → List ℕ → ℕ
unfolding boundary_floor longest_prefix_suffix longest_prefix_inside
subagent_skip item parent tokens =
    let skipped =
      max (longest_prefix_suffix item.token_fingerprints tokens)
        (longest_prefix_inside item.token_fingerprints tokens) in
    max skipped (boundary_floor item parent skipped)

-- The body of the loop over the files.
unfoldable pub skip_of : SessionIndex → Option SessionIndex → ℕ
unfolding subagent_skip parent_tokens
skip_of item parent =
    if item.is_subagent
    then subagent_skip item parent (parent_tokens item parent)
    else longest_prefix_suffix item.token_fingerprints (parent_tokens item parent)

-- The files with a count, in the order of the files.
unfoldable pub skip_counts : List SessionIndex → List SessionIndex → List (ℕ × ℕ)
unfolding skip_of parent_of
skip_counts items [] = []
skip_counts items (i ∷ is) =
    let rest = skip_counts items is in
    let skipped = skip_of i (parent_of i items) in
    if skipped == 0 then rest else (i.path, skipped) ∷ rest

-- `replay_skip_counts`; a cancelled index is `none`, and the result is then empty.
unfoldable pub all_indexes : List (Option SessionIndex) → Option (List SessionIndex)
all_indexes [] = some []
all_indexes (none ∷ is) = none
all_indexes (some i ∷ is) = elim (all_indexes is) [ none ↦ none | some items ↦ some (i ∷ items) ]

unfoldable pub replay_skip_counts : List (Option SessionIndex) → List (ℕ × ℕ)
unfolding skip_counts all_indexes
replay_skip_counts files = elim (all_indexes files) [
  | none ↦ []
  | some items ↦ skip_counts items items
]
