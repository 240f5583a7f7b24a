-- ===== src/Tests/Merge.antt =====
-- A transcript and a continuation that copies its first two records.
use token_board.Base.{
  ℕ, ◌≡◌, ◌∙◌, refl, true, none, some, List, [], ◌∷◌, ◌≤◌, ◌<◌, ◌==◌, All, Result, ok, arith,
}
use token_board.Merge.{
  Physical, readable, unreadable, Node, Reading, count, successors_of, take_ready, sort_ready,
  insert_ready, sorts_before, rank_of, time_rank, initial_ready, release, decrement, incoming_of,
  read_lines, read_line, place, find_node, new_node, edge_from, add_edge, next_context, read_files,
  unread_files, merge_nodes, merge_codex_records,
}
use token_board.Merge.Topological.Complete.{IsDictionary, merge_nodes_once, merge_nodes_consistent}
use token_board.Merge.Files.{
  is_in_order, merge_codex_records_order, merge_codex_records_total, merge_codex_records_read,
}
use token_board.Merge.Chains.{nodes_of_files, read_files-IsDictionary}

abbrev line : ℕ → ℕ → Physical
line fingerprint time = readable (record {
  fingerprint = fingerprint;
  timestamp = some time;
  is_session_meta = fingerprint == 1;
  sets_model = none;
  sets_tier = none;
})

abbrev original : List Physical
original = line 1 10 ∷ line 2 20 ∷ unreadable ∷ line 3 30 ∷ []

abbrev continuation : List Physical
continuation = line 1 10 ∷ line 2 20 ∷ line 4 25 ∷ []

abbrev files : List (List Physical)
files = original ∷ continuation ∷ []

-- Two copies that disagree about the order of two records.
abbrev conflicting : List (List Physical)
conflicting = (line 1 10 ∷ line 2 20 ∷ []) ∷ (line 2 20 ∷ line 1 10 ∷ []) ∷ []

abbrev node : ℕ → ℕ → ℕ → List ℕ → ℕ → Node
node fingerprint time ordinal successors incoming = record {
  fingerprint = fingerprint;
  occurrence = 1;
  context = record { model = none; service_tier = none };
  timestamp = some time;
  ordinal = ordinal;
  successors = successors;
  incoming = incoming;
}

abbrev read : Reading
read = record {
  nodes =
      node 1 10 0 (1 ∷ []) 0
      ∷ node 2 20 1 (2 ∷ 3 ∷ []) 1
      ∷ node 3 30 2 [] 1
      ∷ node 4 25 3 [] 1
      ∷ [];
  canonical = some 0;
  seen = 4 ∷ 2 ∷ 1 ∷ [];
  previous = some 3;
  context = record { model = none; service_tier = none };
}

abbrev merged : List ℕ
merged = 2 ∷ 3 ∷ 1 ∷ 0 ∷ []

files-read : read_files true files unread_files ≡ ok read
unfolding read_files read_lines read_line place find_node new_node edge_from add_edge successors_of
    next_context
files-read = refl

read-IsDictionary : IsDictionary read.nodes
read-IsDictionary = read_files-IsDictionary files files-read

nodes_merged : merge_nodes read.nodes read.canonical ≡ some (ok merged)
unfolding merge_nodes take_ready sort_ready insert_ready sorts_before rank_of time_rank
    initial_ready release decrement incoming_of successors_of
nodes_merged = refl

files-merged : merge_codex_records files ≡ some (ok merged)
files-merged = merge_codex_records_read files files-read ∙ nodes_merged

merge_codex_records_order_example :
    All (λ (xs : List ℕ). is_in_order merged xs ≡ true) (nodes_of_files true files unread_files)
merge_codex_records_order_example = merge_codex_records_order files files-merged

merge_codex_records_total_example :
    (r : Result (List ℕ)) × (merge_codex_records conflicting ≡ some r)
merge_codex_records_total_example = merge_codex_records_total conflicting

merge_nodes_once_example : count 3 merged ≡ 1
merge_nodes_once_example =
    merge_nodes_once read.nodes read.canonical 3 read-IsDictionary nodes_merged refl

increases : (a b : ℕ) → 1 ≤ count b (successors_of a read.nodes) → a < b
unfolding successors_of
increases a b h = ground arith

merge_nodes_consistent_example :
    (out : List ℕ) × (merge_nodes read.nodes read.canonical ≡ some (ok out))
merge_nodes_consistent_example =
    merge_nodes_consistent read.nodes read.canonical (λ (x : ℕ). x) read-IsDictionary increases
