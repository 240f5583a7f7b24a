-- ===== src/Merge/Files.antt =====
-- The merged transcript of files: it exists, and it keeps the order of every file.
use token_board.Base.{
  ℕ, ◌≡◌, refl, ap, inl, inr, Bool, true, ◌&&◌, ◌||◌, Option, none, some, List, [], ◌∷◌, All, ◌==◌,
  arith, Result, ok, err,
}
use token_board.Merge.{
  Node, Physical, Reading, read_files, unread_files, merge_nodes, merge_codex_records,
}
use token_board.Merge.Topological.Result.{comes_before}
use token_board.Merge.Topological.Complete.{IsDictionary, merge_nodes_total, merge_nodes_order}
use token_board.Merge.Chains.{
  IsChain, AreChains, Linked, nodes_of_files, read_files-AreChains, read_files-IsDictionary,
  unread-IsWhole,
}

-- In a merged transcript (its last node first) the nodes stand in the order of the list.
abbrev pub is_in_order : List ℕ → List ℕ → Bool
is_in_order out [] = true
is_in_order out (x ∷ []) = true
is_in_order out (x ∷ y ∷ ys) = ((x == y) || comes_before x y out) && is_in_order out (y ∷ ys)

chain_in_order :
    (ns : List Node) (canonical : Option ℕ) (out xs : List ℕ) (p : Option ℕ)
    → IsDictionary ns
    → merge_nodes ns canonical ≡ some (ok out)
    → IsChain ns p xs
    → is_in_order out xs ≡ true
unfolding Linked
chain_in_order ns canonical out [] p h k c = refl
chain_in_order ns canonical out (x ∷ []) p h k c = refl
chain_in_order ns canonical out (x ∷ y ∷ ys) p h k (_, (inl same, c)) =
    let rest = chain_in_order ns canonical out (y ∷ ys) (some x) h k (inl same, c) in ground arith
chain_in_order ns canonical out (x ∷ y ∷ ys) p h k (_, (inr e, c)) =
    let rest = chain_in_order ns canonical out (y ∷ ys) (some x) h k (inr e, c) in
    let (_, _, before) = merge_nodes_order ns canonical x y h k e in ground arith

All-in_order :
    (ns : List Node) (canonical : Option ℕ) (out : List ℕ) (xss : List (List ℕ))
    → IsDictionary ns
    → merge_nodes ns canonical ≡ some (ok out)
    → AreChains ns xss
    → All (λ xs. is_in_order out xs ≡ true) xss
All-in_order ns canonical out [] h k c = tt
All-in_order ns canonical out (xs ∷ xss) h k (c, cs) =
    (chain_in_order ns canonical out xs none h k c, All-in_order ns canonical out xss h k cs)

-- After the reading, the merge is that of the dictionary.
pub merge_codex_records_read :
    (files : List (List Physical)) {r : Reading}
    → read_files true files unread_files ≡ ok r
    → merge_codex_records files ≡ merge_nodes r.nodes r.canonical
unfolding merge_codex_records
merge_codex_records_read files k =
    ap
      (λ (s : Result Reading). elim s [
        | err e ↦ some (err e)
        | ok r ↦ merge_nodes r.nodes r.canonical
      ])
      k

-- A merge that returns keeps the order of every file: of two records that follow one another in a
-- file, and are not one node, the first stands before the second in the merged transcript.
pub merge_codex_records_order :
    (files : List (List Physical)) {out : List ℕ}
    → merge_codex_records files ≡ some (ok out)
    → All (λ xs. is_in_order out xs ≡ true) (nodes_of_files true files unread_files)
unfolding merge_codex_records
merge_codex_records_order files {out = out} h = go (read_files true files unread_files) refl h
  where
    go :
        (s : Result Reading)
        → read_files true files unread_files ≡ s
        → elim s [ err e ↦ some (err e) | ok r ↦ merge_nodes r.nodes r.canonical ] ≡ some (ok out)
        → All (λ xs. is_in_order out xs ≡ true) (nodes_of_files true files unread_files)
    go (err e) k m = cc
    go (ok r) k m =
        let (whole, _, chains) = read_files-AreChains true files unread_files unread-IsWhole k in
        All-in_order r.nodes r.canonical out (nodes_of_files true files unread_files)
          whole.dictionary m chains

-- The merge always ends: with a result, a conflict or a cancellation, and never without fuel.
pub merge_codex_records_total :
    (files : List (List Physical)) → (r : Result (List ℕ)) × (merge_codex_records files ≡ some r)
unfolding merge_codex_records
merge_codex_records_total files = go (read_files true files unread_files) refl
  where
    go :
        (s : Result Reading)
        → read_files true files unread_files ≡ s
        → (r : Result (List ℕ)) × (elim s [
          | err e ↦ some (err e)
          | ok r ↦ merge_nodes r.nodes r.canonical
        ]
            ≡ some r)
    go (err e) k = (err e, refl)
    go (ok r) k = merge_nodes_total r.nodes r.canonical (read_files-IsDictionary files k)
