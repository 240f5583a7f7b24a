-- ===== src/Merge/Topological/Complete.antt =====
-- The whole merge of a dictionary of nodes: it returns; a result has each node once and respects every
-- edge; and where some order agrees with all the edges it raises nothing.
use token_board.Base.{
  ℕ, zero, suc, ◌≤◌, ◌<◌, ◌≡◌, refl, sym, ◌∙◌, inl, inr, true, ◌&&◌, not, Option, some, List, [],
  ◌∷◌, length, ◌==◌, if◌then◌else◌, Bool-cases, arith, Result, ok, ok-injective,
}
use mathlib.Core.Option.{some-injective}
use token_board.Merge.{
  Node, count, successors_of, incoming_of, take_ready, initial_ready, sorts_before, complete,
  merge_nodes,
}
use token_board.Merge.Topological.Graph.{
  is_node, HasDistinctOrdinals, pending, left, left_none, left_at_first,
}
use token_board.Merge.Topological.Rounds.{IsGraph, IsExact, IsSame}
use token_board.Merge.Topological.Result.{comes_before, Ended, take_ready-Ended}

-- What the reading of the files leaves: a graph whose counts of incoming edges are exact.
pub record IsDictionary (ns : List Node) : Type 0 where
  pub graph : IsGraph ns
  pub counted : (b : ℕ) → is_node b ns ≡ true → incoming_of b ns ≡ pending b [] ns

count-initial_ready :
    (b : ℕ) (ns : List Node)
    → HasDistinctOrdinals ns
    → count b (initial_ready ns) ≡ (if is_node b ns && (incoming_of b ns == 0) then 1 else 0)
unfolding initial_ready incoming_of
count-initial_ready b [] h = refl
count-initial_ready b (n ∷ ns) (fresh, h) = elim (Bool-cases (n.ordinal == b)) [
  | inl here ↦
      let e : n.ordinal ≡ b = ground arith in
      let fresh' = rw e at fresh in ground (arith, count-initial_ready b ns h)
  | inr there ↦ ground (arith, count-initial_ready b ns h)
]

initial-IsExact : (ns : List Node) → IsDictionary ns → IsExact ns (initial_ready ns) [] []
initial-IsExact ns h =
    let counts = λ (b : ℕ). count-initial_ready b ns h.graph.distinct in
    record {
      graph = h.graph;
      exact = λ b k. omega (arith, h.counted b k);
      once = λ b. ground (arith, counts b);
      free = λ b k. ground (arith, counts b);
      found = λ b k z. ground (arith, counts b);
      targets = λ b k. absurd (omega arith);
    }

merged_end :
    (ns : List Node) (canonical : Option ℕ)
    → IsDictionary ns
    → Ended ns []
        (take_ready (sorts_before ns canonical) (suc (length ns)) ns (initial_ready ns) [])
merged_end ns canonical h =
    take_ready-Ended (sorts_before ns canonical) (suc (length ns)) ns (initial_ready ns) []
      (initial-IsExact ns h) (λ a b e k. absurd (omega arith)) (omega (arith, left_at_first ns))

-- The merge as the result of its loop.
merged_eq :
    (ns : List Node) (canonical : Option ℕ) (h : IsDictionary ns)
    → merge_nodes ns canonical ≡ some (complete ns (merged_end ns canonical h).final)
unfolding merge_nodes
merged_eq ns canonical h = rw ((merged_end ns canonical h).returned, merge_nodes) refl

-- The merge of a dictionary always ends: its fuel, one round more than there are nodes, is enough.
pub merge_nodes_total :
    (ns : List Node) (canonical : Option ℕ)
    → IsDictionary ns
    → (r : Result (List ℕ)) × (merge_nodes ns canonical ≡ some r)
merge_nodes_total ns canonical h =
    (complete ns (merged_end ns canonical h).final, merged_eq ns canonical h)

complete-ok :
    (ns : List Node) (out : List ℕ) {r : List ℕ}
    → complete ns out ≡ ok r
    → (out ≡ r) × (length out ≡ length ns)
complete-ok ns out h = elim (Bool-cases (length out == length ns)) [
  | inl full ↦ (ok-injective (rw full at h), ground arith)
  | inr short ↦ let h' = rw short at h in cc
]

-- The end of a merge that returned.
returned :
    (ns : List Node) (canonical : Option ℕ) {out : List ℕ} (h : IsDictionary ns)
    → merge_nodes ns canonical ≡ some (ok out)
    → ((merged_end ns canonical h).final ≡ out) × (left (merged_end ns canonical h).final ns ≡ 0)
returned ns canonical h k =
    let end = merged_end ns canonical h in
    let (same, full) =
      complete-ok ns end.final (some-injective _ _ (sym (merged_eq ns canonical h) ∙ k)) in
    (same, omega (arith, end.counted, left_at_first ns, full))

successors-is_node :
    (a b : ℕ) (ns : List Node) → 1 ≤ count b (successors_of a ns) → is_node a ns ≡ true
unfolding successors_of
successors-is_node a b [] h = absurd (omega arith)
successors-is_node a b (n ∷ ns) h = ground (arith, successors-is_node a b ns)

-- A merge that returns has every node of the dictionary in its result exactly once.
pub merge_nodes_once :
    (ns : List Node) (canonical : Option ℕ) (b : ℕ) {out : List ℕ}
    → IsDictionary ns
    → merge_nodes ns canonical ≡ some (ok out)
    → is_node b ns ≡ true
    → count b out ≡ 1
merge_nodes_once ns canonical b h k node =
    let end = merged_end ns canonical h in
    let (same, nothing_left) = returned ns canonical h k in
    let there = left_none b end.final ns nothing_left node in
    rw (← same) (omega (arith, end.exact.once b, there))

-- A merge that returns respects every edge: the two ends stand in the result once, the source before
-- the target.
pub merge_nodes_order :
    (ns : List Node) (canonical : Option ℕ) (a b : ℕ) {out : List ℕ}
    → IsDictionary ns
    → merge_nodes ns canonical ≡ some (ok out)
    → 1 ≤ count b (successors_of a ns)
    → (count a out ≡ 1) × (count b out ≡ 1) × (comes_before a b out ≡ true)
merge_nodes_order ns canonical a b {out} h k e =
    let end = merged_end ns canonical h in
    let (same, nothing_left) = returned ns canonical h k in
    let once_b = merge_nodes_once ns canonical b h k (h.graph.closed a b e) in
    let there : 1 ≤ count b end.final = rw same (omega (arith, once_b)) in
    (
      merge_nodes_once ns canonical a h k (successors-is_node a b ns e),
      once_b,
      rw same at (end.ordered a b e there),
    )

-- A node with a pending edge has a predecessor that is not in the result.
pub pending_some :
    (b : ℕ) (out : List ℕ) (ns : List Node)
    → HasDistinctOrdinals ns
    → 1 ≤ pending b out ns
    → (a : ℕ) × (is_node a ns ≡ true) × (count a out ≡ 0) × (1 ≤ count b (successors_of a ns))
unfolding successors_of
pending_some b out [] d h = absurd (omega arith)
pending_some b out (n ∷ ns) (fresh, d) h =
    elim (Bool-cases ((count n.ordinal out == 0) && not (count b n.successors == 0))) [
      | inl here ↦ (n.ordinal, ground arith, ground arith, ground arith)
      | inr there ↦
          let (a, node, absent, e) = pending_some b out ns d (ground arith) in
          elim (Bool-cases (n.ordinal == a)) [
            | inl same ↦
                let k : n.ordinal ≡ a = ground arith in
                let fresh' = rw k at fresh in absurd (ground arith)
            | inr other ↦ (a, ground arith, absent, ground arith)
          ]
    ]

left_all :
    (out : List ℕ) (ns : List Node)
    → ((b : ℕ) → is_node b ns ≡ true → 1 ≤ count b out)
    → left out ns ≡ 0
left_all out [] h = refl
left_all out (n ∷ ns) h =
    let there : 1 ≤ count n.ordinal out = h n.ordinal (ground arith) in
    let rest = left_all out ns (λ b k. h b (ground arith)) in ground arith

module _ (ns ms : List Node) (final : List ℕ) (same : IsSame ns ms) (exact : IsExact ms [] final [])
    (f : ℕ → ℕ) (increases : (a b : ℕ) → 1 ≤ count b (successors_of a ns) → f a < f b) where
  -- No node is left out: each that is has a predecessor that is, and the order has no such descent.
  none_left_out : (k b : ℕ) → f b < k → is_node b ms ≡ true → count b final ≡ 0 → ⊥
  none_left_out zero b below node absent = absurd (omega arith)
  none_left_out (suc k) b below node absent =
      let held : 1 ≤ incoming_of b ms = elim (Bool-cases (incoming_of b ms == 0)) [
        | inl free ↦ absurd (omega (arith, exact.found b node (ground arith)))
        | inr held ↦ ground arith
      ] in
      let (a, node', absent', e) =
        pending_some b final ms exact.graph.distinct (omega (arith, exact.exact b node)) in
      none_left_out k a (omega (arith, increases a b (rw (same.edges a) at e))) node' absent'

  all_merged : (b : ℕ) → is_node b ns ≡ true → 1 ≤ count b final
  all_merged b node = elim (Bool-cases (count b final == 0)) [
    | inl absent ↦
        absurd (none_left_out (suc (f b)) b (omega arith) (same.nodes b ∙ node) (ground arith))
    | inr there ↦ ground arith
  ]

-- If some numbering of the nodes increases along every edge, so that the copies do not conflict, the
-- merge returns a result and raises nothing.
pub merge_nodes_consistent :
    (ns : List Node) (canonical : Option ℕ) (f : ℕ → ℕ)
    → IsDictionary ns
    → ((a b : ℕ) → 1 ≤ count b (successors_of a ns) → f a < f b)
    → (out : List ℕ) × (merge_nodes ns canonical ≡ some (ok out))
merge_nodes_consistent ns canonical f h increases =
    let end = merged_end ns canonical h in
    let nothing_left =
      left_all end.final ns (all_merged ns end.nodes end.final end.same end.exact f increases) in
    let full : length end.final ≡ length ns =
      omega (arith, end.counted, left_at_first ns, nothing_left) in
    (end.final, merged_eq ns canonical h ∙ ground arith)
