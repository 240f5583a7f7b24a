-- ===== src/Tests/Replay.antt =====
-- A sub-agent's transcript that begins with the last two counts of its parent.
use token_board.Base.{ℕ, ◌≤◌, ◌≡◌, refl, arith, false, Option, none, some, [], ◌∷◌}
use token_board.Replay.{
  SessionIndex, longest_prefix_suffix, prefix_suffix_from, skip_of, parent_tokens, tokens_by,
  replay_skip_counts, all_indexes, skip_counts, parent_of, larger_copy, subagent_skip,
  longest_prefix_inside, prefix_inside_from, boundary_floor, last_boundary, occurs, most_tokens,
}
use token_board.Replay.Index.{
  Entry, Content, SourceMeta, session_index, index_of, read_entries, read_entry, tick, take_content,
  later_time, parent_thread, is_subagent_session,
}
use token_board.Replay.Prefix.{EndsWith, longest_prefix_suffix-EndsWith, skip_of-EndsWith}

abbrev meta : ℕ → Option ℕ → Entry
meta id parent = record {
  timestamp = some 1000;
  content = Content.session_meta (record {
    session_id = some id;
    forked_from_id = none;
    parent_thread_id = parent;
    is_subagent_thread = false;
    source = SourceMeta.plain;
    started_at = some 9000;
  });
}

abbrev count : ℕ → ℕ → Entry
count time fingerprint = record { timestamp = some time; content = Content.token_count fingerprint }

abbrev parent : SessionIndex
parent = session_index 100 10 7 (meta 7 none ∷ count 2000 21 ∷ count 3000 22 ∷ count 4000 23 ∷ [])

abbrev child : SessionIndex
child =
    session_index 200 10 8 (meta 8 (some 7) ∷ count 9001 22 ∷ count 9002 23 ∷ count 9003 24 ∷ [])

longest_prefix_suffix-EndsWith_example :
    (2 ≤ longest_prefix_suffix (22 ∷ 23 ∷ 24 ∷ []) (21 ∷ 22 ∷ 23 ∷ []))
    × (longest_prefix_suffix (22 ∷ 23 ∷ 24 ∷ []) (21 ∷ 22 ∷ 23 ∷ []) ≤ 3)
    × (longest_prefix_suffix (22 ∷ 23 ∷ 24 ∷ []) (21 ∷ 22 ∷ 23 ∷ []) ≤ 3)
    × EndsWith
        (22 ∷ 23 ∷ 24 ∷ [])
        (21 ∷ 22 ∷ 23 ∷ [])
        (longest_prefix_suffix (22 ∷ 23 ∷ 24 ∷ []) (21 ∷ 22 ∷ 23 ∷ []))
longest_prefix_suffix-EndsWith_example =
    longest_prefix_suffix-EndsWith (22 ∷ 23 ∷ 24 ∷ []) (21 ∷ 22 ∷ 23 ∷ []) 2 (omega arith)
      (omega arith) (omega arith) refl

skip_of-EndsWith_example : 2 ≤ skip_of child (some parent)
unfolding session_index index_of read_entries read_entry tick take_content later_time parent_thread
    is_subagent_session parent_tokens tokens_by
skip_of-EndsWith_example =
    skip_of-EndsWith child (some parent) 2 (omega arith) (omega arith) (omega arith) refl

-- The child's file skips its two inherited counts.
two_skipped : replay_skip_counts (some parent ∷ some child ∷ []) ≡ (200, 2) ∷ []
unfolding replay_skip_counts all_indexes skip_counts parent_of larger_copy skip_of subagent_skip
    longest_prefix_suffix prefix_suffix_from longest_prefix_inside prefix_inside_from occurs
    boundary_floor last_boundary most_tokens session_index index_of read_entries read_entry tick
    take_content later_time parent_thread is_subagent_session parent_tokens tokens_by
two_skipped = refl
