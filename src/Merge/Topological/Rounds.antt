-- ===== src/Merge/Topological/Rounds.antt =====
-- One round of the merge: the counts of incoming edges stay exact.
use token_board.Base.{
  ℕ, ◌+◌, ◌-◌, ◌≤◌, ◌≡◌, ◌⊎◌, refl, sym, ◌∙◌, inl, inr, true, List, [], ◌∷◌, ◌++◌, ◌==◌,
  if◌then◌else◌, Bool-cases, arith,
}
use mathlib.Core.Path.{subst}
use token_board.Merge.{Node, count, successors_of, incoming_of, decrement, release}
use token_board.Merge.Topological.Graph.{
  is_node, HasDistinctOrdinals, count-append, total_take, pending, left, weight_at-successors,
  is_node-decrement, successors_of-decrement, pending-decrement, left-decrement,
  decrement-HasDistinctOrdinals, incoming_of-decrement,
}

-- A graph: each ordinal names one node, and every edge leads to a node.
pub record IsGraph (ns : List Node) : Type 0 where
  pub distinct : HasDistinctOrdinals ns
  pub closed : (a b : ℕ) → 1 ≤ count b (successors_of a ns) → is_node b ns ≡ true

-- The invariant, while the edges to `rest` are still to be taken off: the count of a node is that of
-- its pending edges and of those to be taken off, and a node without any is ready or in the result,
-- once.
pub record IsExact (ns : List Node) (ready out rest : List ℕ) : Type 0 where
  pub graph : IsGraph ns
  pub exact : (b : ℕ) → is_node b ns ≡ true → incoming_of b ns ≡ pending b out ns + count b rest
  pub once : (b : ℕ) → count b ready + count b out ≤ 1
  pub free :
      (b : ℕ) → 1 ≤ count b ready + count b out → (is_node b ns ≡ true) × (incoming_of b ns ≡ 0)
  pub found : (b : ℕ) → is_node b ns ≡ true → incoming_of b ns ≡ 0 → 1 ≤ count b ready + count b out
  pub targets : (b : ℕ) → 1 ≤ count b rest → is_node b ns ≡ true

-- The nodes and their edges are the same.
pub record IsSame (ns ms : List Node) : Type 0 where
  pub nodes : (b : ℕ) → is_node b ms ≡ is_node b ns
  pub edges : (a : ℕ) → successors_of a ms ≡ successors_of a ns
  pub remains : (out : List ℕ) → left out ms ≡ left out ns

pub IsSame-refl : (ns : List Node) → IsSame ns ns
IsSame-refl ns = record { nodes = λ b. refl; edges = λ a. refl; remains = λ out. refl }

pub IsSame-trans : (ns ms ks : List Node) → IsSame ns ms → IsSame ms ks → IsSame ns ks
IsSame-trans ns ms ks h k = record {
  nodes = λ b. k.nodes b ∙ h.nodes b;
  edges = λ a. k.edges a ∙ h.edges a;
  remains = λ out. k.remains out ∙ h.remains out;
}

decrement-IsSame : (s : ℕ) (ns : List Node) → IsSame ns (decrement s ns)
decrement-IsSame s ns = record {
  nodes = λ b. is_node-decrement s b ns;
  edges = λ a. successors_of-decrement s a ns;
  remains = λ out. left-decrement s out ns;
}

decrement-IsGraph : (s : ℕ) (ns : List Node) → IsGraph ns → IsGraph (decrement s ns)
decrement-IsGraph s ns g = record {
  distinct = decrement-HasDistinctOrdinals s ns g.distinct;
  closed =
      λ a b h. is_node-decrement s b ns ∙ g.closed a b (rw (successors_of-decrement s a ns) at h);
}

-- The ready nodes after one edge to `s` is taken off.
abbrev readied : ℕ → List Node → List ℕ → List ℕ
readied s ns ready = if incoming_of s (decrement s ns) == 0 then ready ++ s ∷ [] else ready

count-readied :
    (b s : ℕ) (ns : List Node) (ready : List ℕ)
    → count b (readied s ns ready)
      ≡ count b ready
        + (if incoming_of s (decrement s ns) == 0 then (if s == b then 1 else 0) else 0)
count-readied b s ns ready = ground (arith, count-append b ready (s ∷ []))

-- A node with an edge to be taken off is neither ready nor in the result.
fresh_target :
    (s : ℕ) (ss : List ℕ) (ns : List Node) (ready out : List ℕ)
    → IsExact ns ready out (s ∷ ss)
    → (is_node s ns ≡ true) × (1 ≤ incoming_of s ns) × (count s ready + count s out ≡ 0)
fresh_target s ss ns ready out h =
    let node : is_node s ns ≡ true = h.targets s (ground arith) in
    let held : 1 ≤ incoming_of s ns = ground (arith, h.exact s node) in
    (node, held, ground (arith, h.free s))

-- What a round does to one node: `b` is the target, or stays as it is.
abbrev Moves : ℕ → ℕ → List Node → List ℕ → Type 0
Moves b s ns ready =
    ((s ≡ b)
      × (incoming_of b (decrement s ns) ≡ incoming_of b ns - 1)
      × (count b (readied s ns ready)
          ≡ count b ready + (if incoming_of b (decrement s ns) == 0 then 1 else 0)))
    ⊎ ((incoming_of b (decrement s ns) ≡ incoming_of b ns)
        × (count b (readied s ns ready) ≡ count b ready))

moves : (b s : ℕ) (ns : List Node) (ready : List ℕ) → Moves b s ns ready
moves b s ns ready = elim (Bool-cases (s == b)) [
  | inl same ↦
      let e : s ≡ b = ground arith in
      inl (
        e,
        rw same at (incoming_of-decrement s b ns),
        subst
            (λ t.
              count b (readied s ns ready)
              ≡ count b ready + (if incoming_of t (decrement s ns) == 0 then 1 else 0))
            e (rw same at (count-readied b s ns ready)),
      )
  | inr other ↦
      inr (rw other at (incoming_of-decrement s b ns), ground (arith, count-readied b s ns ready))
]

release_one :
    (s : ℕ) (ss : List ℕ) (ns : List Node) (ready out : List ℕ)
    → IsExact ns ready out (s ∷ ss)
    → IsExact (decrement s ns) (readied s ns ready) out ss
release_one s ss ns ready out h =
    let (node, held, fresh) = fresh_target s ss ns ready out h in
    record {
      graph = decrement-IsGraph s ns h.graph;
      exact = λ b k. ground (
        arith,
        incoming_of-decrement s b ns,
        pending-decrement s b out ns,
        is_node-decrement s b ns,
        h.exact b,
      );
      once = λ b. elim (moves b s ns ready) [
        | inl (e, _, c) ↦ let fresh' = rw e at fresh in ground (arith, c)
        | inr (_, c) ↦ rw c (h.once b)
      ];
      free = λ b k. elim (moves b s ns ready) [
        | inl (e, i, c) ↦
            let fresh' = rw e at fresh in
            let node' = rw e at node in (is_node-decrement s b ns ∙ node', ground (arith, c))
        | inr (i, c) ↦ let (n, z) = h.free b (rw c at k) in (is_node-decrement s b ns ∙ n, i ∙ z)
      ];
      found = λ b k z. elim (moves b s ns ready) [
        | inl (e, i, c) ↦ ground (arith, c)
        | inr (i, c) ↦ rw c (h.found b (sym (is_node-decrement s b ns) ∙ k) (sym i ∙ z))
      ];
      targets = λ b k. is_node-decrement s b ns ∙ h.targets b (ground arith);
    }

-- All the edges of a node that is taken.
pub release-IsExact :
    (ss : List ℕ) (ns : List Node) (ready out : List ℕ)
    → IsExact ns ready out ss
    → IsExact (release ss ns ready).0 (release ss ns ready).1 out []
unfolding release
release-IsExact [] ns ready out h = h
release-IsExact (s ∷ ss) ns ready out h =
    release-IsExact ss (decrement s ns) (readied s ns ready) out (release_one s ss ns ready out h)

pub release-IsSame :
    (ss : List ℕ) (ns : List Node) (ready : List ℕ) → IsSame ns (release ss ns ready).0
unfolding release
release-IsSame [] ns ready = IsSame-refl ns
release-IsSame (s ∷ ss) ns ready =
    IsSame-trans ns (decrement s ns) (release ss (decrement s ns) (readied s ns ready)).0
      (decrement-IsSame s ns) (release-IsSame ss (decrement s ns) (readied s ns ready))

-- The node that is taken joins the result, and its edges are to be taken off.
pub take-IsExact :
    (x : ℕ) (rest : List ℕ) (ns : List Node) (ready out : List ℕ)
    → ((b : ℕ) → count b ready ≡ count b (x ∷ rest))
    → IsExact ns ready out []
    → IsExact ns rest (x ∷ out) (successors_of x ns)
take-IsExact x rest ns ready out sorted h =
    let (node, _) = h.free x (ground (arith, sorted x)) in
    let absent : count x out ≡ 0 = ground (arith, h.once x, sorted x) in
    record {
      graph = h.graph;
      exact = λ b k. omega (
        arith,
        h.exact b k,
        total_take (λ n. count b n.successors) x out ns h.graph.distinct node absent,
        weight_at-successors b x ns,
      );
      once = λ b. ground (arith, h.once b, sorted b);
      free = λ b k. h.free b (ground (arith, sorted b));
      found = λ b k z. ground (arith, h.found b k z, sorted b);
      targets = λ b k. h.graph.closed x b k;
    }
