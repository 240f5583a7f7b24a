-- ===== src/Replay/Prefix.antt =====
-- The replayed prefix is the longest one: what the two searches return, and what is skipped.
use token_board.Base.{
  ℕ, zero, suc, ◌≤◌, ◌≡◌, inl, inr, true, List, length, take, min, arith, Bool-cases, leb, leb→le,
  Option,
}
use mathlib.Core.Path.{subst}
use token_board.Replay.{
  same_list, suffix, prefix_suffix_from, longest_prefix_suffix, SessionIndex, subagent_skip,
  skip_of, parent_tokens,
}

-- The first `size` counts of the child are the last of the parent.
abbrev pub EndsWith : List ℕ → List ℕ → ℕ → Type 0
EndsWith child parent size = same_list (take size child) (suffix size parent) ≡ true

prefix_suffix_from_lem :
    (n : ℕ) (child parent : List ℕ)
    → (prefix_suffix_from n child parent ≤ n)
      × ((1 ≤ prefix_suffix_from n child parent)
          → EndsWith child parent (prefix_suffix_from n child parent))
unfolding prefix_suffix_from
prefix_suffix_from_lem zero child parent = (omega arith, λ h. absurd (omega arith))
prefix_suffix_from_lem (suc n) child parent =
    elim (Bool-cases (same_list (take (suc n) child) (suffix (suc n) parent))) [
      | inl hit ↦ rw (hit, prefix_suffix_from) (omega arith, λ _. hit)
      | inr miss ↦
          let (bound, ends) = prefix_suffix_from_lem n child parent in
          rw (miss, prefix_suffix_from) (omega arith, ends)
    ]

prefix_suffix_from_max :
    (n size : ℕ) (child parent : List ℕ)
    → 1 ≤ size
    → size ≤ n
    → EndsWith child parent size
    → size ≤ prefix_suffix_from n child parent
unfolding prefix_suffix_from
prefix_suffix_from_max zero size child parent h k e = k
prefix_suffix_from_max (suc n) size child parent h k e =
    elim (Bool-cases (same_list (take (suc n) child) (suffix (suc n) parent))) [
      | inl hit ↦ rw (hit, prefix_suffix_from) k
      | inr miss ↦ elim (Bool-cases (leb size n)) [
        | inl below ↦
            rw (miss, prefix_suffix_from)
              (prefix_suffix_from_max n size child parent h (leb→le size n below) e)
        | inr top ↦
            let at_top : size ≡ suc n = ground arith in
            let e' : EndsWith child parent (suc n) = subst (EndsWith child parent) at_top e in cc
      ]
    ]

-- When some non-empty prefix of the child's counts is a suffix of the parent's, the search returns
-- the length of such a prefix, and none that is longer fits.
pub longest_prefix_suffix-EndsWith :
    (child parent : List ℕ) (size : ℕ)
    → 1 ≤ size
    → size ≤ length child
    → size ≤ length parent
    → EndsWith child parent size
    → (size ≤ longest_prefix_suffix child parent)
      × (longest_prefix_suffix child parent ≤ length child)
      × (longest_prefix_suffix child parent ≤ length parent)
      × EndsWith child parent (longest_prefix_suffix child parent)
unfolding longest_prefix_suffix
longest_prefix_suffix-EndsWith child parent size h k l e =
    let limit : ℕ = min (length child) (length parent) in
    let (bound, ends) = prefix_suffix_from_lem limit child parent in
    let below = prefix_suffix_from_max limit size child parent h (omega arith) e in
    (below, omega arith, omega arith, ends (omega arith))

-- Counts that a file inherits are skipped: if its first counts are the last ones of its parent up to
-- the file's start, the number to skip is at least theirs, for a fork and for a sub-agent.
pub skip_of-EndsWith :
    (item : SessionIndex) (parent : Option SessionIndex) (size : ℕ)
    → 1 ≤ size
    → size ≤ length item.token_fingerprints
    → size ≤ length (parent_tokens item parent)
    → EndsWith item.token_fingerprints (parent_tokens item parent) size
    → size ≤ skip_of item parent
unfolding skip_of subagent_skip
skip_of-EndsWith item parent size h k l e =
    let tokens : List ℕ = parent_tokens item parent in
    let (found, _, _, _) =
      longest_prefix_suffix-EndsWith item.token_fingerprints tokens size h k l e in
    elim (Bool-cases item.is_subagent) [
      | inl subagent ↦ rw (subagent, skip_of) (omega (arith, found))
      | inr fork ↦ rw (fork, skip_of) found
    ]
