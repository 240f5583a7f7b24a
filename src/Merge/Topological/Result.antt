-- ===== src/Merge/Topological/Result.antt =====
-- The merge ends, and its result has each node once, behind its predecessors.
use token_board.Base.{
  ℕ, zero, suc, ◌+◌, ◌≤◌, ◌<◌, ◌≡◌, refl, sym, ap, ◌∙◌, ◌⊎◌, inl, inr, Bool, true, false, not,
  Option, some, List, [], ◌∷◌, length, ◌==◌, if◌then◌else◌, Bool-cases, arith,
}
use token_board.Merge.{Node, count, successors_of, release, sort_ready, take_ready}
use token_board.Merge.Topological.Graph.{
  count-sort_ready, total_take, pending, pending_none, left, weight_at-one,
}
use token_board.Merge.Topological.Rounds.{
  IsExact, IsSame, IsSame-refl, IsSame-trans, release-IsExact, release-IsSame, take-IsExact,
}

List-cases {ℓ} :
    {A : Type ℓ} (xs : List A) → (xs ≡ []) ⊎ ((x : A) × (rest : List A) × (xs ≡ x ∷ rest))
List-cases [] = inl refl
List-cases (x ∷ rest) = inr (x, rest, refl)

-- In a result with its last node first, `b` stands behind `a`.
abbrev pub comes_before : ℕ → ℕ → List ℕ → Bool
comes_before a b [] = false
comes_before a b (x ∷ out) = if x == b then not (count a out == 0) else comes_before a b out

abbrev pub IsOrdered : List Node → List ℕ → Type 0
IsOrdered ns out =
    (a b : ℕ) → 1 ≤ count b (successors_of a ns) → 1 ≤ count b out → comes_before a b out ≡ true

take-IsOrdered :
    (x : ℕ) (ns : List Node) (ready out : List ℕ)
    → 1 ≤ count x ready
    → IsExact ns ready out []
    → IsOrdered ns out
    → IsOrdered ns (x ∷ out)
take-IsOrdered x ns ready out r h o a b e k = elim (Bool-cases (x == b)) [
  | inl last ↦
      let same : x ≡ b = ground arith in
      let (node, zero_in) = h.free x (omega arith) in
      let none_pending : pending x out ns ≡ 0 = omega (arith, h.exact x node) in
      let before_a = pending_none a b out ns (rw same at none_pending) e in ground arith
  | inr earlier ↦ rw earlier (o a b e (ground arith))
]

no_more-IsExact :
    (ns : List Node) (ready out : List ℕ)
    → ((b : ℕ) → count b ready ≡ 0)
    → IsExact ns ready out []
    → IsExact ns [] out []
no_more-IsExact ns ready out z h = record {
  graph = h.graph;
  exact = h.exact;
  once = λ b. omega (arith, h.once b);
  free = λ b k. h.free b (omega arith);
  found = λ b k i. omega (arith, h.found b k i, z b);
  targets = h.targets;
}

-- How the loop ends, from a state with the nodes `ns` and the result `out`.
pub record Ended (ns : List Node) (out : List ℕ) (r : Option (List ℕ)) : Type 0 where
  pub final : List ℕ
  pub nodes : List Node
  pub returned : r ≡ some final
  pub same : IsSame ns nodes
  pub exact : IsExact nodes [] final []
  pub ordered : IsOrdered ns final
  pub counted : left final ns + length final ≡ left out ns + length out

module _ (before : ℕ → ℕ → Bool) where
  pub take_ready-Ended :
      (fuel : ℕ) (ns : List Node) (ready out : List ℕ)
      → IsExact ns ready out []
      → IsOrdered ns out
      → left out ns < fuel
      → Ended ns out (take_ready before fuel ns ready out)
  unfolding take_ready
  take_ready-Ended zero ns ready out h o f = absurd (omega arith)
  take_ready-Ended (suc fuel) ns ready out h o f = elim (List-cases (sort_ready before ready)) [
    | inl empty ↦
        rw (empty, take_ready)
          (record {
            final = out;
            nodes = ns;
            returned = refl;
            same = IsSame-refl ns;
            exact =
                no_more-IsExact ns ready out
                  (λ b. sym (count-sort_ready before b ready) ∙ ap (count b) empty) h;
            ordered = o;
            counted = refl;
          })
    | inr (x, rest, taken) ↦
        let sorted : (b : ℕ) → count b ready ≡ count b (x ∷ rest) =
          λ b. sym (count-sort_ready before b ready) ∙ ap (count b) taken in
        let is_ready : 1 ≤ count x ready = ground (arith, sorted x) in
        let (node, _) = h.free x (omega arith) in
        let fewer : left out ns ≡ left (x ∷ out) ns + 1 =
          total_take (λ n. 1) x out ns h.graph.distinct node (ground (arith, h.once x))
          ∙ ap (λ w. left (x ∷ out) ns + w) (weight_at-one x ns node) in
        let ns' : List Node = (release (successors_of x ns) ns rest).0 in
        let same : IsSame ns ns' = release-IsSame (successors_of x ns) ns rest in
        let exact =
          release-IsExact (successors_of x ns) ns rest (x ∷ out)
            (take-IsExact x rest ns ready out sorted h) in
        let ordered : IsOrdered ns' (x ∷ out) =
          λ a b e k. take-IsOrdered x ns ready out is_ready h o a b (rw (same.edges a) at e) k in
        let end =
          take_ready-Ended fuel ns' (release (successors_of x ns) ns rest).1 (x ∷ out) exact ordered
            (omega (arith, same.remains (x ∷ out))) in
        rw (taken, take_ready)
          (record {
            final = end.final;
            nodes = end.nodes;
            returned = end.returned;
            same = IsSame-trans ns ns' end.nodes same end.same;
            exact = end.exact;
            ordered = λ a b e k. end.ordered a b (rw (same.edges a) e) k;
            counted =
                omega (arith, end.counted, same.remains end.final, same.remains (x ∷ out), fewer);
          })
  ]
