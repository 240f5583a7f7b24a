-- ===== src/Merge.antt =====
-- app/services/codex_segments.py: the merge of copied and continued Codex transcripts. A line is what
-- the merge reads of one normalized record: its fingerprint (a number; equal records have equal
-- fingerprints), its time, whether it is a `session_meta`, and what it does to the context. A node
-- is named by its ordinal, which is its place in the dictionary `nodes`.
pub mod Topological
pub mod Edges
pub mod Chains
pub mod Files
use token_board.Base.{
  ℕ, zero, suc, ◌+◌, ◌-◌, ◌*◌, Bool, true, false, ◌&&◌, ◌||◌, not, Option, none, some, List, [],
  ◌∷◌, ◌++◌, map, length, ltb, ◌==◌, if◌then◌else◌, Result, ok, err, value_error, cancelled, ◌>>=◌,
}
use token_board.Time.{us_per_second, moment_end}

-- The model and service tier of a transcript, `none` until a record sets them.
pub record Context : Type 0 where
  pub model : Option ℕ
  pub service_tier : Option ℕ

-- A `turn_context` or settings record sets the model if it is a text, and the tier if it has one
-- (a null tier is a number too).
pub record Line : Type 0 where
  pub fingerprint : ℕ
  pub timestamp : Option ℕ
  pub is_session_meta : Bool
  pub sets_model : Option ℕ
  pub sets_tier : Option ℕ

-- A physical line, or the stop flag found set before it.
pub data Physical : Type 0 where
  stopped unreadable : Physical
  readable : Line → Physical

pub record Node : Type 0 where
  pub fingerprint : ℕ
  pub occurrence : ℕ
  pub context : Context
  pub timestamp : Option ℕ
  pub ordinal : ℕ
  pub successors : List ℕ
  pub incoming : ℕ

abbrev pub or_keep : Option ℕ → Option ℕ → Option ℕ
or_keep none old = old
or_keep (some new) old = some new

unfoldable pub next_context : Line → Context → Context
next_context l c = record {
  model = or_keep l.sets_model c.model;
  service_tier = or_keep l.sets_tier c.service_tier;
}

-- The occurrences of a fingerprint in the file so far.
abbrev pub count : ℕ → List ℕ → ℕ
count x [] = 0
count x (y ∷ ys) = (if y == x then 1 else 0) + count x ys

unfoldable pub find_node : ℕ → ℕ → List Node → Option ℕ
find_node fingerprint occurrence [] = none
find_node fingerprint occurrence (n ∷ ns) =
    if (n.fingerprint == fingerprint) && (n.occurrence == occurrence)
    then some n.ordinal
    else find_node fingerprint occurrence ns

unfoldable pub successors_of : ℕ → List Node → List ℕ
successors_of x [] = []
successors_of x (n ∷ ns) = if n.ordinal == x then n.successors else successors_of x ns

unfoldable pub incoming_of : ℕ → List Node → ℕ
incoming_of x [] = 0
incoming_of x (n ∷ ns) = if n.ordinal == x then n.incoming else incoming_of x ns

-- The edge in the dictionary: a successor of the one node, an incoming edge of the other.
abbrev pub link : ℕ → ℕ → Node → Node
link from to n = record n {
  successors = if n.ordinal == from then n.successors ++ to ∷ [] else n.successors;
  incoming = if n.ordinal == to then suc n.incoming else n.incoming;
}

unfoldable pub add_edge : ℕ → ℕ → List Node → List Node
unfolding successors_of
add_edge from to ns =
    if (from == to) || not (count to (successors_of from ns) == 0)
    then ns
    else map (link from to) ns

unfoldable pub edge_from : Option ℕ → ℕ → List Node → List Node
unfolding add_edge
edge_from none to ns = ns
edge_from (some from) to ns = add_edge from to ns

unfoldable pub new_node : Line → ℕ → Context → ℕ → Node
new_node l occurrence context ordinal = record {
  fingerprint = l.fingerprint;
  occurrence = occurrence;
  context = context;
  timestamp = l.timestamp;
  ordinal = ordinal;
  successors = [];
  incoming = 0;
}

-- `if key not in nodes`: the nodes, and the ordinal of the key.
unfoldable pub place : Line → ℕ → Context → List Node → List Node × ℕ
unfolding find_node new_node
place l occurrence context ns = elim (find_node l.fingerprint occurrence ns) [
  | some x ↦ (ns, x)
  | none ↦ (ns ++ new_node l occurrence context (length ns) ∷ [], length ns)
]

-- The dictionary and the canonical key, and the locals of one file.
pub record Reading : Type 0 where
  pub nodes : List Node
  pub canonical : Option ℕ
  pub seen : List ℕ
  pub previous : Option ℕ
  pub context : Context

abbrev pub canonical_of : Bool → Bool → ℕ → Option ℕ → Option ℕ
canonical_of is_first is_meta x (some c) = some c
canonical_of is_first is_meta x none = if is_first && is_meta then some x else none

-- One readable line.
unfoldable pub read_line : Bool → Line → Reading → Reading
unfolding place edge_from next_context
read_line is_first l r =
    let context = next_context l r.context in
    let occurrence = suc (count l.fingerprint r.seen) in
    let (nodes, x) = place l occurrence context r.nodes in
    record {
      nodes = edge_from r.previous x nodes;
      canonical = canonical_of is_first l.is_session_meta x r.canonical;
      seen = l.fingerprint ∷ r.seen;
      previous = some x;
      context = context;
    }

unfoldable pub read_lines : Bool → List Physical → Reading → Result Reading
unfolding read_line
read_lines is_first [] r = ok r
read_lines is_first (stopped ∷ ls) r = err cancelled
read_lines is_first (unreadable ∷ ls) r = read_lines is_first ls r
read_lines is_first (readable l ∷ ls) r = read_lines is_first ls (read_line is_first l r)

abbrev pub open_file : Reading → Reading
open_file r = record {
  nodes = r.nodes;
  canonical = r.canonical;
  seen = [];
  previous = none;
  context = record { model = none; service_tier = none };
}

unfoldable pub read_files : Bool → List (List Physical) → Reading → Result Reading
unfolding read_lines
read_files is_first [] r = ok r
read_files is_first (f ∷ fs) r =
    read_lines is_first f (open_file r) >>= λ r'. read_files false fs r'

-- `nodes[successor]["incoming"] -= 1`.
abbrev pub lower : ℕ → Node → Node
lower x n = record n { incoming = if n.ordinal == x then n.incoming - 1 else n.incoming }

unfoldable pub decrement : ℕ → List Node → List Node
decrement x ns = map (lower x) ns

-- The loop over the successors of the node that is taken. A set has no order, and none matters:
-- the ready nodes are sorted before the next one is taken.
unfoldable pub release : List ℕ → List Node → List ℕ → List Node × List ℕ
unfolding decrement incoming_of
release [] ns ready = (ns, ready)
release (s ∷ ss) ns ready =
    let ns' = decrement s ns in
    release ss ns' (if incoming_of s ns' == 0 then ready ++ s ∷ [] else ready)

unfoldable pub initial_ready : List Node → List ℕ
initial_ready [] = []
initial_ready (n ∷ ns) =
    let rest = initial_ready ns in if n.incoming == 0 then n.ordinal ∷ rest else rest

module _ (before : ℕ → ℕ → Bool) where
  unfoldable pub insert_ready : ℕ → List ℕ → List ℕ
  insert_ready x [] = x ∷ []
  insert_ready x (y ∷ ys) =
      let rest = insert_ready x ys in if before y x then y ∷ rest else x ∷ y ∷ ys

  unfoldable pub sort_ready : List ℕ → List ℕ
  unfolding insert_ready
  sort_ready [] = []
  sort_ready (x ∷ xs) = insert_ready x (sort_ready xs)

  -- `while ready`, on fuel; `out` is the result with its last node first.
  unfoldable pub take_ready : ℕ → List Node → List ℕ → List ℕ → Option (List ℕ)
  unfolding sort_ready release successors_of
  take_ready zero ns ready out = none
  take_ready (suc fuel) ns ready out = elim (sort_ready ready) [
    | [] ↦ some out
    | x ∷ rest ↦
        let (ns', ready') = release (successors_of x ns) ns rest in
        take_ready fuel ns' ready' (x ∷ out)
  ]

-- A record without a time sorts as 9999-12-31T23:59:59.999999Z does among texts of whole seconds.
unfoldable pub time_rank : Option ℕ → ℕ
time_rank none = 2 * (moment_end - us_per_second) - 1
time_rank (some t) = 2 * t

unfoldable pub rank_of : ℕ → List Node → ℕ
unfolding time_rank
rank_of x [] = 0
rank_of x (n ∷ ns) = if n.ordinal == x then time_rank n.timestamp else rank_of x ns

abbrev pub is_canonical : Option ℕ → ℕ → Bool
is_canonical none x = false
is_canonical (some c) x = c == x

-- `sort_key`: the canonical node, then by time, then by ordinal.
unfoldable pub sorts_before : List Node → Option ℕ → ℕ → ℕ → Bool
unfolding rank_of
sorts_before ns canonical a b =
    if is_canonical canonical a
    then not (is_canonical canonical b)
    else if is_canonical canonical b
    then false
    else ltb (rank_of a ns) (rank_of b ns) || ((rank_of a ns == rank_of b ns) && ltb a b)

abbrev pub unread_files : Reading
unread_files = record {
  nodes = [];
  canonical = none;
  seen = [];
  previous = none;
  context = record { model = none; service_tier = none };
}

abbrev pub complete : List Node → List ℕ → Result (List ℕ)
complete ns out = if length out == length ns then ok out else err value_error

-- The topological merge; `none` means that the fuel ran out.
unfoldable pub merge_nodes : List Node → Option ℕ → Option (Result (List ℕ))
unfolding take_ready sorts_before initial_ready
merge_nodes ns canonical =
    elim (take_ready (sorts_before ns canonical) (suc (length ns)) ns (initial_ready ns) []) [
      | none ↦ none
      | some out ↦ some (complete ns out)
    ]

-- `merge_codex_records`: the nodes in the merged order, the last one first.
unfoldable pub merge_codex_records : List (List Physical) → Option (Result (List ℕ))
unfolding read_files merge_nodes
merge_codex_records files = elim (read_files true files unread_files) [
  | err e ↦ some (err e)
  | ok r ↦ merge_nodes r.nodes r.canonical
]
