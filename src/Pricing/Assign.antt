-- ===== src/Pricing/Assign.antt =====
-- A sequence of assignments of priorities that no rule has: it returns.
use token_board.Base.{
  ℕ, ◌≡◌, refl, ap, ◌∙◌, Bool, true, false, ◌&&◌, ◌||◌, not, Option, none, some, List, [], ◌∷◌, map,
  ◌==◌, if◌then◌else◌, ok, Option-cases, arith, inl, inr,
}
use token_board.Pricing.{
  ℤ, pos, negsuc, same_int, PricingRule, has_id, clashes, find_rule, put_priority, ids_of,
  set_priority, Assignments, assign,
}

-- A rule has the priority.
abbrev pub is_taken : ℤ → List PricingRule → Bool
is_taken p [] = false
is_taken p (r ∷ rs) = same_int r.priority p || is_taken p rs

abbrev pub priority_of : ℕ → List PricingRule → Option ℤ
priority_of id [] = none
priority_of id (r ∷ rs) = if r.id == id then some r.priority else priority_of id rs

-- The assigned ids and priorities.
abbrev pub assigns_id : ℕ → Assignments → Bool
assigns_id id [] = false
assigns_id id ((i, p) ∷ todo) = (i == id) || assigns_id id todo

abbrev pub assigns_priority : ℤ → Assignments → Bool
assigns_priority p [] = false
assigns_priority p ((i, q) ∷ todo) = same_int q p || assigns_priority p todo

-- The priorities of the assignments are distinct and free in the table, and so are the ids distinct.
abbrev pub IsFree : Assignments → List PricingRule → Type 0
IsFree [] rs = Unit
IsFree ((id, p) ∷ todo) rs =
    (is_taken p rs ≡ false)
    × (assigns_priority p todo ≡ false)
    × (assigns_id id todo ≡ false)
    × IsFree todo rs

clashes-is_taken :
    (r : PricingRule) (p : ℤ) (rs : List PricingRule)
    → is_taken p rs ≡ false
    → clashes r p rs ≡ false
unfolding clashes
clashes-is_taken r p [] h = refl
clashes-is_taken r p (q ∷ qs) h = ground (arith, clashes-is_taken r p qs)

is_taken-put :
    (id : ℕ) (p q : ℤ) (rs : List PricingRule)
    → is_taken q rs ≡ false
    → same_int p q ≡ false
    → is_taken q (map (put_priority id p) rs) ≡ false
is_taken-put id p q [] h k = refl
is_taken-put id p q (r ∷ rs) h k = ground (arith, is_taken-put id p q rs)

same_int_sym : (p q : ℤ) → same_int p q ≡ same_int q p
unfolding same_int
same_int_sym (pos a) (pos b) = ground arith
same_int_sym (pos a) (negsuc b) = refl
same_int_sym (negsuc a) (pos b) = refl
same_int_sym (negsuc a) (negsuc b) = ground arith

IsFree-put :
    (id : ℕ) (p : ℤ) (todo : Assignments) (rs : List PricingRule)
    → IsFree todo rs
    → assigns_priority p todo ≡ false
    → IsFree todo (map (put_priority id p) rs)
IsFree-put id p [] rs h k = tt
IsFree-put id p ((i, q) ∷ todo) rs (free, single, own, rest) k = (
  is_taken-put id p q rs free (ground (arith, same_int_sym p q)),
  single,
  own,
  IsFree-put id p todo rs rest (ground arith),
)

map-put_none :
    (id : ℕ) (p : ℤ) (rs : List PricingRule)
    → find_rule id rs ≡ none
    → map (put_priority id p) rs ≡ rs
map-put_none id p [] h = refl
map-put_none id p (r ∷ rs) h = ground (arith, map-put_none id p rs)

set_priority_free :
    (id : ℕ) (p : ℤ) (rs : List PricingRule)
    → is_taken p rs ≡ false
    → set_priority id p rs ≡ ok (map (put_priority id p) rs)
unfolding set_priority
set_priority_free id p rs h = elim (Option-cases (find_rule id rs)) [
  | inl absent ↦ rw (absent, set_priority) (rw (map-put_none id p rs absent) refl)
  | inr (r, found) ↦ rw (found, set_priority) (rw (clashes-is_taken r p rs h) refl)
]

-- A rule that is not among the assigned ones has the priority.
abbrev pub is_left : ℤ → Assignments → List PricingRule → Bool
is_left p todo [] = false
is_left p todo (r ∷ rs) = (not (assigns_id r.id todo) && same_int r.priority p) || is_left p todo rs

is_left-put :
    (p q : ℤ) (id : ℕ) (todo : Assignments) (rs : List PricingRule)
    → is_left p ((id, q) ∷ todo) rs ≡ false
    → same_int q p ≡ false
    → is_left p todo (map (put_priority id q) rs) ≡ false
is_left-put p q id todo [] h k = refl
is_left-put p q id todo (r ∷ rs) h k = ground (arith, is_left-put p q id todo rs)

ids_of-put :
    (id : ℕ) (p : ℤ) (rs : List PricingRule) → ids_of (map (put_priority id p) rs) ≡ ids_of rs
ids_of-put id p [] = refl
ids_of-put id p (r ∷ rs) = ap (λ (is : List ℕ). r.id ∷ is) (ids_of-put id p rs)

is_left-nothing : (p : ℤ) (rs : List PricingRule) → is_left p [] rs ≡ is_taken p rs
is_left-nothing p [] = refl
is_left-nothing p (r ∷ rs) = ground (arith, is_left-nothing p rs)

priority_of-put :
    (id other : ℕ) (p : ℤ) (rs : List PricingRule)
    → (other == id) ≡ false
    → priority_of other (map (put_priority id p) rs) ≡ priority_of other rs
priority_of-put id other p [] h = refl
priority_of-put id other p (r ∷ rs) h = ground (arith, priority_of-put id other p rs)

priority_of-own :
    (id : ℕ) (p : ℤ) (rs : List PricingRule)
    → has_id id (ids_of rs) ≡ true
    → priority_of id (map (put_priority id p) rs) ≡ some p
priority_of-own id p [] h = cc
priority_of-own id p (r ∷ rs) h = ground (arith, priority_of-own id p rs)

-- Every rule of the table that an assignment names has its priority.
abbrev pub AreSet : Assignments → List PricingRule → Type 0
AreSet [] rs = Unit
AreSet ((id, p) ∷ todo) rs =
    (has_id id (ids_of rs) ≡ true → priority_of id rs ≡ some p) × AreSet todo rs

-- The table after the assignments.
pub record IsAssigned (todo : Assignments) (rs qs : List PricingRule) : Type 0 where
  pub same_rules : ids_of qs ≡ ids_of rs
  pub others : (id : ℕ) → assigns_id id todo ≡ false → priority_of id qs ≡ priority_of id rs
  pub are_set : AreSet todo qs
  pub taken :
      (p : ℤ) → is_left p todo rs ≡ false → assigns_priority p todo ≡ false → is_taken p qs ≡ false

-- Assignments of free and distinct priorities to distinct rules never break the constraint.
pub assign-IsAssigned :
    (todo : Assignments) (rs : List PricingRule)
    → IsFree todo rs
    → (qs : List PricingRule) × (assign todo rs ≡ ok qs) × IsAssigned todo rs qs
unfolding assign
assign-IsAssigned [] rs h = (
  rs,
  refl,
  record {
    same_rules = refl;
    others = λ id k. refl;
    are_set = tt;
    taken = λ p k l. ground (arith, is_left-nothing p rs);
  },
)
assign-IsAssigned ((id, p) ∷ todo) rs (free, single, own, rest) =
    let ps : List PricingRule = map (put_priority id p) rs in
    let (qs, e, h) = assign-IsAssigned todo ps (IsFree-put id p todo rs rest single) in
    (
      qs,
      rw (set_priority_free id p rs free) e,
      record {
        same_rules = h.same_rules ∙ ids_of-put id p rs;
        others = λ i k. h.others i (ground arith) ∙ priority_of-put id i p rs (ground arith);
        are_set = (
          (λ k.
              h.others id own
              ∙ priority_of-own id p rs (rw (h.same_rules, ids_of-put id p rs) at k)),
          h.are_set,
        );
        taken = λ q k l. h.taken q (is_left-put q p id todo rs k (ground arith)) (ground arith);
      },
    )
