-- ===== src/Merge/Topological/Graph.antt =====
-- Sums over the nodes that are not in the result yet, and what one round does to them.
use token_board.Base.{
  ℕ, ◌+◌, ◌-◌, ◌≤◌, ◌≡◌, refl, ◌∙◌, inl, inr, Bool, true, false, ◌||◌, List, [], ◌∷◌, ◌++◌, length,
  ◌==◌, if◌then◌else◌, Bool-cases, arith,
}
use token_board.Merge.{Node, count, successors_of, incoming_of, decrement, insert_ready, sort_ready}

abbrev pub is_node : ℕ → List Node → Bool
is_node x [] = false
is_node x (n ∷ ns) = (n.ordinal == x) || is_node x ns

abbrev pub HasDistinctOrdinals : List Node → Type 0
HasDistinctOrdinals [] = Unit
HasDistinctOrdinals (n ∷ ns) = (is_node n.ordinal ns ≡ false) × HasDistinctOrdinals ns

pub count-append : (x : ℕ) (xs ys : List ℕ) → count x (xs ++ ys) ≡ count x xs + count x ys
count-append x [] ys = omega arith
count-append x (y ∷ xs) ys = omega (arith, count-append x xs ys)

module _ (before : ℕ → ℕ → Bool) where
  count-insert_ready :
      (b x : ℕ) (ys : List ℕ) → count b (insert_ready before x ys) ≡ count b (x ∷ ys)
  unfolding insert_ready
  count-insert_ready b x [] = refl
  count-insert_ready b x (y ∷ ys) = ground (arith, count-insert_ready b x ys)

  -- Sorting keeps the ready nodes.
  pub count-sort_ready : (b : ℕ) (xs : List ℕ) → count b (sort_ready before xs) ≡ count b xs
  unfolding sort_ready
  count-sort_ready b [] = refl
  count-sort_ready b (x ∷ xs) =
      ground (arith, count-insert_ready b x (sort_ready before xs), count-sort_ready b xs)

module _ (weight : Node → ℕ) where
  -- The weight of the nodes that are not in the result.
  abbrev pub total : List ℕ → List Node → ℕ
  total out [] = 0
  total out (n ∷ ns) = (if count n.ordinal out == 0 then weight n else 0) + total out ns

  abbrev pub weight_at : ℕ → List Node → ℕ
  weight_at x [] = 0
  weight_at x (n ∷ ns) = if n.ordinal == x then weight n else weight_at x ns

  total_other :
      (x : ℕ) (out : List ℕ) (ns : List Node)
      → is_node x ns ≡ false
      → total (x ∷ out) ns ≡ total out ns
  total_other x out [] h = refl
  total_other x out (n ∷ ns) h = ground (arith, total_other x out ns)

  -- A node that joins the result takes its weight off the sum.
  pub total_take :
      (x : ℕ) (out : List ℕ) (ns : List Node)
      → HasDistinctOrdinals ns
      → is_node x ns ≡ true
      → count x out ≡ 0
      → total out ns ≡ total (x ∷ out) ns + weight_at x ns
  total_take x out [] d h k = cc
  total_take x out (n ∷ ns) (fresh, d) h k = elim (Bool-cases (n.ordinal == x)) [
    | inl here ↦
        let e : n.ordinal ≡ x = ground arith in
        let rest = total_other x out ns (rw e at fresh) in ground (arith, rest)
    | inr there ↦ ground (arith, total_take x out ns d)
  ]

-- The edges to a node from those that are not in the result.
abbrev pub pending : ℕ → List ℕ → List Node → ℕ
pending b = total (λ n. count b n.successors)

-- The nodes that are not in the result.
abbrev pub left : List ℕ → List Node → ℕ
left = total (λ n. 1)

pub weight_at-successors :
    (b x : ℕ) (ns : List Node)
    → weight_at (λ n. count b n.successors) x ns ≡ count b (successors_of x ns)
unfolding successors_of
weight_at-successors b x [] = refl
weight_at-successors b x (n ∷ ns) = ground (arith, weight_at-successors b x ns)

pub weight_at-one : (x : ℕ) (ns : List Node) → is_node x ns ≡ true → weight_at (λ n. 1) x ns ≡ 1
weight_at-one x [] h = cc
weight_at-one x (n ∷ ns) h = ground (arith, weight_at-one x ns)

-- With no pending edge, every node with an edge to `b` is in the result.
pub pending_none :
    (a b : ℕ) (out : List ℕ) (ns : List Node)
    → pending b out ns ≡ 0
    → 1 ≤ count b (successors_of a ns)
    → 1 ≤ count a out
unfolding successors_of
pending_none a b out [] h e = absurd (omega arith)
pending_none a b out (n ∷ ns) h e = elim (Bool-cases (n.ordinal == a)) [
  | inl here ↦ let k : n.ordinal ≡ a = ground arith in ground arith
  | inr there ↦ ground (arith, pending_none a b out ns)
]

-- With nothing left, every node is in the result.
pub left_none :
    (x : ℕ) (out : List ℕ) (ns : List Node)
    → left out ns ≡ 0
    → is_node x ns ≡ true
    → 1 ≤ count x out
left_none x out [] h k = cc
left_none x out (n ∷ ns) h k = elim (Bool-cases (n.ordinal == x)) [
  | inl here ↦ let e : n.ordinal ≡ x = ground arith in ground arith
  | inr there ↦ ground (arith, left_none x out ns)
]

pub left_at_first : (ns : List Node) → left [] ns ≡ length ns
left_at_first [] = refl
left_at_first (n ∷ ns) = omega (arith, left_at_first ns)

-- Lowering a count of incoming edges keeps the nodes and their edges.
module _ (s : ℕ) where
  pub is_node-decrement : (x : ℕ) (ns : List Node) → is_node x (decrement s ns) ≡ is_node x ns
  unfolding decrement
  is_node-decrement x [] = refl
  is_node-decrement x (n ∷ ns) = ground (arith, is_node-decrement x ns)

  pub successors_of-decrement :
      (x : ℕ) (ns : List Node) → successors_of x (decrement s ns) ≡ successors_of x ns
  unfolding decrement successors_of
  successors_of-decrement x [] = refl
  successors_of-decrement x (n ∷ ns) = ground (arith, successors_of-decrement x ns)

  pub pending-decrement :
      (b : ℕ) (out : List ℕ) (ns : List Node) → pending b out (decrement s ns) ≡ pending b out ns
  unfolding decrement
  pending-decrement b out [] = refl
  pending-decrement b out (n ∷ ns) = ground (arith, pending-decrement b out ns)

  pub left-decrement : (out : List ℕ) (ns : List Node) → left out (decrement s ns) ≡ left out ns
  unfolding decrement
  left-decrement out [] = refl
  left-decrement out (n ∷ ns) = ground (arith, left-decrement out ns)

  pub decrement-HasDistinctOrdinals :
      (ns : List Node) → HasDistinctOrdinals ns → HasDistinctOrdinals (decrement s ns)
  unfolding decrement
  decrement-HasDistinctOrdinals [] h = tt
  decrement-HasDistinctOrdinals (n ∷ ns) (fresh, h) =
      (is_node-decrement n.ordinal ns ∙ fresh, decrement-HasDistinctOrdinals ns h)

  pub incoming_of-decrement :
      (b : ℕ) (ns : List Node)
      → incoming_of b (decrement s ns) ≡ (if s == b then incoming_of b ns - 1 else incoming_of b ns)
  unfolding decrement incoming_of
  incoming_of-decrement b [] = ground arith
  incoming_of-decrement b (n ∷ ns) = ground (arith, incoming_of-decrement b ns)
