-- ===== src/Merge/Edges.antt =====
-- What a new node and a new edge do to a dictionary of nodes: its counts stay exact.
use token_board.Base.{
  ℕ, ◌+◌, ◌≡◌, refl, sym, ◌∙◌, inl, inr, true, false, ◌&&◌, ◌||◌, List, [], ◌∷◌, ◌++◌, length, map,
  ltb, ◌==◌, if◌then◌else◌, Bool-cases, arith,
}
use token_board.Merge.{Node, count, successors_of, incoming_of, link}
use token_board.Merge.Topological.Graph.{is_node, HasDistinctOrdinals, pending, count-append}
use token_board.Merge.Topological.Rounds.{IsGraph}
use token_board.Merge.Topological.Complete.{IsDictionary, pending_some}

-- The nodes are numbered from 0 in the order of their insertion.
abbrev pub IsNumbered : List Node → Type 0
IsNumbered ns = (x : ℕ) → is_node x ns ≡ ltb x (length ns)

pub is_node-append :
    (x : ℕ) (ns ms : List Node) → is_node x (ns ++ ms) ≡ (is_node x ns || is_node x ms)
is_node-append x [] ms = refl
is_node-append x (n ∷ ns) ms = ground (arith, is_node-append x ns ms)

append-HasDistinctOrdinals :
    (ns : List Node) (n : Node)
    → HasDistinctOrdinals ns
    → is_node n.ordinal ns ≡ false
    → HasDistinctOrdinals (ns ++ n ∷ [])
append-HasDistinctOrdinals [] n h k = (refl, tt)
append-HasDistinctOrdinals (m ∷ ns) n (fresh, h) k = (
  ground (arith, is_node-append m.ordinal ns (n ∷ [])),
  append-HasDistinctOrdinals ns n h (ground arith),
)

-- A new node without edges.
module _ (n : Node) (no_successors : n.successors ≡ []) (no_incoming : n.incoming ≡ 0) where
  pub successors_of-append :
      (a : ℕ) (ns : List Node) → successors_of a (ns ++ n ∷ []) ≡ successors_of a ns
  unfolding successors_of
  successors_of-append a [] = ground arith
  successors_of-append a (m ∷ ns) = ground (arith, successors_of-append a ns)

  incoming_of-append : (b : ℕ) (ns : List Node) → incoming_of b (ns ++ n ∷ []) ≡ incoming_of b ns
  unfolding incoming_of
  incoming_of-append b [] = ground arith
  incoming_of-append b (m ∷ ns) = ground (arith, incoming_of-append b ns)

  pending-append : (b : ℕ) (ns : List Node) → pending b [] (ns ++ n ∷ []) ≡ pending b [] ns
  pending-append b [] = rw no_successors (omega arith)
  pending-append b (m ∷ ns) = omega (arith, pending-append b ns)

incoming_of_other : (b : ℕ) (ns : List Node) → is_node b ns ≡ false → incoming_of b ns ≡ 0
unfolding incoming_of
incoming_of_other b [] h = refl
incoming_of_other b (n ∷ ns) h = ground (arith, incoming_of_other b ns)

-- No edge leads to a number that is no node.
pending_other : (b : ℕ) (ns : List Node) → IsGraph ns → is_node b ns ≡ false → pending b [] ns ≡ 0
pending_other b ns g h = elim (Bool-cases (pending b [] ns == 0)) [
  | inl none_pending ↦ ground arith
  | inr some_pending ↦
      let (a, _, _, e) = pending_some b [] ns g.distinct (ground arith) in
      let node = g.closed a b e in absurd (ground arith)
]

pub append-IsDictionary :
    (ns : List Node) (n : Node)
    → n.successors ≡ []
    → n.incoming ≡ 0
    → is_node n.ordinal ns ≡ false
    → IsDictionary ns
    → IsDictionary (ns ++ n ∷ [])
append-IsDictionary ns n no_successors no_incoming fresh h = record {
  graph = record {
    distinct = append-HasDistinctOrdinals ns n h.graph.distinct fresh;
    closed = λ a b e. ground (
      arith,
      is_node-append b ns (n ∷ []),
      h.graph.closed a b (rw (successors_of-append n no_successors no_incoming a ns) at e),
    );
  };
  counted = λ b k. elim (Bool-cases (is_node b ns)) [
    | inl old ↦ omega (
      arith,
      h.counted b old,
      incoming_of-append n no_successors no_incoming b ns,
      pending-append n no_successors no_incoming b ns,
    )
    | inr new ↦ omega (
      arith,
      incoming_of_other b ns new,
      pending_other b ns h.graph new,
      incoming_of-append n no_successors no_incoming b ns,
      pending-append n no_successors no_incoming b ns,
    )
  ];
}

-- A new edge.
module _ (from to : ℕ) where
  pub is_node-link : (x : ℕ) (ns : List Node) → is_node x (map (link from to) ns) ≡ is_node x ns
  is_node-link x [] = refl
  is_node-link x (n ∷ ns) = ground (arith, is_node-link x ns)

  link-HasDistinctOrdinals :
      (ns : List Node) → HasDistinctOrdinals ns → HasDistinctOrdinals (map (link from to) ns)
  link-HasDistinctOrdinals [] h = tt
  link-HasDistinctOrdinals (n ∷ ns) (fresh, h) =
      (is_node-link n.ordinal ns ∙ fresh, link-HasDistinctOrdinals ns h)

  pub length-link : (ns : List Node) → length (map (link from to) ns) ≡ length ns
  length-link [] = refl
  length-link (n ∷ ns) = omega (arith, length-link ns)

  pub count-successors-link :
      (a b : ℕ) (ns : List Node)
      → count b (successors_of a (map (link from to) ns))
        ≡ count b (successors_of a ns) + (if is_node a ns && (from == a) && (to == b) then 1 else 0)
  unfolding successors_of
  count-successors-link a b [] = refl
  count-successors-link a b (n ∷ ns) =
      ground (arith, count-successors-link a b ns, count-append b n.successors (to ∷ []))

  incoming_of-link :
      (b : ℕ) (ns : List Node)
      → incoming_of b (map (link from to) ns)
        ≡ incoming_of b ns + (if is_node b ns && (to == b) then 1 else 0)
  unfolding incoming_of
  incoming_of-link b [] = refl
  incoming_of-link b (n ∷ ns) = ground (arith, incoming_of-link b ns)

  pending-link :
      (b : ℕ) (ns : List Node)
      → HasDistinctOrdinals ns
      → pending b [] (map (link from to) ns)
        ≡ pending b [] ns + (if is_node from ns && (to == b) then 1 else 0)
  pending-link b [] h = refl
  pending-link b (n ∷ ns) (fresh, h) = elim (Bool-cases (n.ordinal == from)) [
    | inl here ↦
        let e : n.ordinal ≡ from = ground arith in
        let fresh' = rw e at fresh in
        ground (arith, pending-link b ns h, count-append b n.successors (to ∷ []))
    | inr there ↦ ground (arith, pending-link b ns h)
  ]

  pub link-IsDictionary :
      (ns : List Node)
      → is_node from ns ≡ true
      → is_node to ns ≡ true
      → IsDictionary ns
      → IsDictionary (map (link from to) ns)
  link-IsDictionary ns f t h = record {
    graph = record {
      distinct = link-HasDistinctOrdinals ns h.graph.distinct;
      closed = λ a b e. is_node-link b ns ∙ elim (Bool-cases (to == b)) [
        | inl here ↦ let k : to ≡ b = ground arith in rw k at t
        | inr there ↦ h.graph.closed a b (ground (arith, count-successors-link a b ns))
      ];
    };
    counted = λ b k.
        let node : is_node b ns ≡ true = sym (is_node-link b ns) ∙ k in
        ground (arith, incoming_of-link b ns, pending-link b ns h.graph.distinct, h.counted b node);
  }
