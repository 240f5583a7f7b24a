-- ===== src/Pricing/Reorder.antt =====
-- The two phases of `reorder_pricing_order`, where the lowest priority is at most the number of rules.
use token_board.Base.{
  ℕ, suc, ◌+◌, ◌<◌, ◌≡◌, refl, sym, ap, ◌∙◌, Bool, true, false, ◌||◌, some, List, [], ◌∷◌, length,
  ◌==◌, ok, Bool-cases, arith, inl, inr, ◌⊎◌,
}
use token_board.Pricing.{
  ℤ, pos, negsuc, subtract, less, same_int, PricingRule, has_id, has_duplicate, is_subset, same_ids,
  ids_of, insert_rule, by_priority, minimum, temporary, numbered, renumber, Assignments, ids,
  reorder_pricing_order,
}
use token_board.Pricing.Assign.{
  is_taken, priority_of, assigns_id, assigns_priority, IsFree, is_left, AreSet, assign-IsAssigned,
}

less_distinct : (p q : ℤ) → less p q ≡ true → same_int q p ≡ false
unfolding less same_int
less_distinct (pos a) (pos b) h = ground arith
less_distinct (pos a) (negsuc b) h = cc
less_distinct (negsuc a) (pos b) h = refl
less_distinct (negsuc a) (negsuc b) h = ground arith

less_trans : (p q r : ℤ) → less p q ≡ true → less q r ≡ true → less p r ≡ true
unfolding less
less_trans (pos a) (pos b) (pos c) h k = ground arith
less_trans (pos a) (pos b) (negsuc c) h k = cc
less_trans (pos a) (negsuc b) r h k = cc
less_trans (negsuc a) (pos b) (pos c) h k = refl
less_trans (negsuc a) (pos b) (negsuc c) h k = cc
less_trans (negsuc a) (negsuc b) (pos c) h k = refl
less_trans (negsuc a) (negsuc b) (negsuc c) h k = ground arith

less_or_less : (p q r : ℤ) → less p q ≡ true → less r q ≡ false → less p r ≡ true
unfolding less
less_or_less (pos a) (pos b) (pos c) h k = ground arith
less_or_less (pos a) (pos b) (negsuc c) h k = cc
less_or_less (pos a) (negsuc b) r h k = cc
less_or_less (negsuc a) q (pos c) h k = refl
less_or_less (negsuc a) (pos b) (negsuc c) h k = cc
less_or_less (negsuc a) (negsuc b) (negsuc c) h k = ground arith

is_taken-less : (p : ℤ) (rs : List PricingRule) → less p (minimum rs) ≡ true → is_taken p rs ≡ false
unfolding minimum
is_taken-less p [] h = refl
is_taken-less p (r ∷ []) h = ground (arith, less_distinct p r.priority h)
is_taken-less p (r ∷ q ∷ rs) h = elim (Bool-cases (less r.priority (minimum (q ∷ rs)))) [
  | inl first ↦
      let below : less p r.priority ≡ true = rw (first, minimum) at h in
      let rest =
        is_taken-less p (q ∷ rs) (less_trans p r.priority (minimum (q ∷ rs)) below first) in
      ground (arith, less_distinct p r.priority below)
  | inr later ↦
      let below : less p (minimum (q ∷ rs)) ≡ true = rw (later, minimum) at h in
      let rest = is_taken-less p (q ∷ rs) below in
      ground (
        arith,
        less_distinct p r.priority (less_or_less p (minimum (q ∷ rs)) r.priority below later),
      )
]

subtract_twice : (m : ℤ) (n o : ℕ) → less (subtract (subtract m (n + 1)) o) m ≡ true
unfolding less subtract
subtract_twice (pos m) n o = ground arith
subtract_twice (negsuc m) n o = ground arith

subtract_distinct : (m : ℤ) (a b : ℕ) → a < b → same_int (subtract m b) (subtract m a) ≡ false
unfolding same_int subtract
subtract_distinct (pos m) a b h = ground arith
subtract_distinct (negsuc m) a b h = ground arith

temporary_single :
    (m : ℤ) (a b : ℕ) (rs : List PricingRule)
    → a < b
    → assigns_priority (subtract m a) (temporary m b rs) ≡ false
unfolding temporary
temporary_single m a b [] h = refl
temporary_single m a b (r ∷ rs) h =
    let rest = temporary_single m a (suc b) rs (omega arith) in
    ground (arith, subtract_distinct m a b h)

assigns_id-temporary :
    (m : ℤ) (b id : ℕ) (rs : List PricingRule)
    → assigns_id id (temporary m b rs) ≡ has_id id (ids_of rs)
unfolding temporary
assigns_id-temporary m b id [] = refl
assigns_id-temporary m b id (r ∷ rs) = ground (arith, assigns_id-temporary m (suc b) id rs)

temporary-IsFree :
    (all rs : List PricingRule) (n o : ℕ)
    → has_duplicate (ids_of rs) ≡ false
    → IsFree (temporary (subtract (minimum all) (n + 1)) o rs) all
unfolding temporary
temporary-IsFree all [] n o h = tt
temporary-IsFree all (r ∷ rs) n o h =
    let base : ℤ = subtract (minimum all) (n + 1) in
    (
      is_taken-less (subtract base o) all (subtract_twice (minimum all) n o),
      temporary_single base o (suc o) rs (omega arith),
      assigns_id-temporary base (suc o) r.id rs ∙ ground arith,
      temporary-IsFree all rs n (suc o) (ground arith),
    )

-- All rules of the table are assigned.
is_left-has_id :
    (p : ℤ) (todo : Assignments) (rs : List PricingRule)
    → ((id : ℕ) → has_id id (ids_of rs) ≡ true → assigns_id id todo ≡ true)
    → is_left p todo rs ≡ false
is_left-has_id p todo [] h = refl
is_left-has_id p todo (r ∷ rs) h =
    let own : assigns_id r.id todo ≡ true = h r.id (ground arith) in
    let rest = is_left-has_id p todo rs (λ id k. h id (ground arith)) in rw own rest

-- The temporary range is below zero.
temporary_below :
    (m : ℤ) (n o k : ℕ) (rs : List PricingRule)
    → less m (pos (suc n)) ≡ true
    → assigns_priority (pos k) (temporary (subtract m (n + 1)) o rs) ≡ false
unfolding temporary subtract less same_int
temporary_below m n o k [] h = refl
temporary_below (pos m) n o k (r ∷ rs) h = ground (arith, temporary_below (pos m) n (suc o) k rs h)
temporary_below (negsuc m) n o k (r ∷ rs) h =
    ground (arith, temporary_below (negsuc m) n (suc o) k rs h)

assigns_id-numbered : (n id : ℕ) (is : List ℕ) → assigns_id id (numbered n is) ≡ has_id id is
unfolding numbered
assigns_id-numbered n id [] = refl
assigns_id-numbered n id (i ∷ is) = ground (arith, assigns_id-numbered (suc n) id is)

numbered_single : (a b : ℕ) (is : List ℕ) → a < b → assigns_priority (pos a) (numbered b is) ≡ false
unfolding numbered same_int
numbered_single a b [] h = refl
numbered_single a b (i ∷ is) h = ground (arith, numbered_single a (suc b) is)

numbered-IsFree :
    (n : ℕ) (is : List ℕ) (rs : List PricingRule)
    → has_duplicate is ≡ false
    → ((k : ℕ) → is_taken (pos k) rs ≡ false)
    → IsFree (numbered n is) rs
unfolding numbered
numbered-IsFree n [] rs h free = tt
numbered-IsFree n (i ∷ is) rs h free = (
  free n,
  numbered_single n (suc n) is (omega arith),
  assigns_id-numbered (suc n) i is ∙ ground arith,
  numbered-IsFree (suc n) is rs (ground arith) free,
)

has_id-insert :
    (id : ℕ) (r : PricingRule) (rs : List PricingRule)
    → has_id id (ids_of (insert_rule r rs)) ≡ ((r.id == id) || has_id id (ids_of rs))
unfolding insert_rule
has_id-insert id r [] = refl
has_id-insert id r (q ∷ qs) = ground (arith, has_id-insert id r qs)

has_id-by_priority :
    (id : ℕ) (rs : List PricingRule) → has_id id (ids_of (by_priority rs)) ≡ has_id id (ids_of rs)
unfolding by_priority
has_id-by_priority id [] = refl
has_id-by_priority id (r ∷ rs) =
    has_id-insert id r (by_priority rs)
    ∙ ap (λ (b : Bool). (r.id == id) || b) (has_id-by_priority id rs)

-- The rules of the list have the priorities `n`, `n + 1`, ...
abbrev pub IsNumbered : ℕ → List ℕ → List PricingRule → Type 0
IsNumbered n [] rs = Unit
IsNumbered n (id ∷ is) rs = (priority_of id rs ≡ some (pos n)) × IsNumbered (suc n) is rs

AreSet-IsNumbered :
    (n : ℕ) (is : List ℕ) (rs qs : List PricingRule)
    → AreSet (numbered n is) qs
    → ids_of qs ≡ ids_of rs
    → is_subset is (ids_of (by_priority rs)) ≡ true
    → IsNumbered n is qs
unfolding numbered
AreSet-IsNumbered n [] rs qs h same sub = tt
AreSet-IsNumbered n (id ∷ is) rs qs (own, rest) same sub = (
  own (rw same (sym (has_id-by_priority id rs) ∙ ground arith)),
  AreSet-IsNumbered (suc n) is rs qs rest same (ground arith),
)

renumber-IsNumbered :
    (is : List ℕ) (rs : List PricingRule)
    → has_duplicate (ids_of rs) ≡ false
    → less (minimum rs) (pos (suc (length rs))) ≡ true
    → has_duplicate is ≡ false
    → is_subset is (ids_of (by_priority rs)) ≡ true
    → (qs : List PricingRule) × (renumber is rs ≡ ok qs)
      × (ids_of qs ≡ ids_of rs)
      × IsNumbered 0 is qs
unfolding renumber
renumber-IsNumbered is rs unique low distinct sub =
    let base : ℤ = subtract (minimum rs) (length rs + 1) in
    let (ps, e, first) =
      assign-IsAssigned (temporary base 0 rs) rs (temporary-IsFree rs rs (length rs) 0 unique) in
    let all_left = λ (k : ℕ).
      is_left-has_id (pos k) (temporary base 0 rs) rs
        (λ id h. assigns_id-temporary base 0 id rs ∙ h) in
    let (qs, e', second) = assign-IsAssigned (numbered 0 is) ps (
      numbered-IsFree 0 is ps distinct (λ k.
        first.taken (pos k) (all_left k) (temporary_below (minimum rs) (length rs) 0 k rs low))) in
    let same : ids_of qs ≡ ids_of rs = second.same_rules ∙ first.same_rules in
    (qs, rw e e', same, AreSet-IsNumbered 0 is rs qs second.are_set same sub)

-- If the ids of the table are unique and its lowest priority is at most the number of its rules, a list
-- that names each rule once is never refused: either the rules stand in that order already, and the
-- table stays, or the same rules get the priorities 0, 1, ... in the order of the list.
pub reorder_pricing_order_numbers :
    (is : List ℕ) (rs : List PricingRule)
    → has_duplicate (ids_of rs) ≡ false
    → less (minimum rs) (pos (suc (length rs))) ≡ true
    → has_duplicate is ≡ false
    → is_subset is (ids_of (by_priority rs)) ≡ true
    → is_subset (ids_of (by_priority rs)) is ≡ true
    → (qs : List PricingRule) × (reorder_pricing_order (ids is) rs ≡ ok qs)
      × (ids_of qs ≡ ids_of rs)
      × (((qs ≡ rs) × (same_ids is (ids_of (by_priority rs)) ≡ true)) ⊎ IsNumbered 0 is qs)
unfolding reorder_pricing_order
reorder_pricing_order_numbers is rs unique low distinct sub sup =
    elim (Bool-cases (same_ids is (ids_of (by_priority rs)))) [
      | inl ordered ↦ (rs, rw (distinct, sub, sup, ordered) refl, refl, inl (refl, ordered))
      | inr other ↦
          let (qs, e, same, numbers) = renumber-IsNumbered is rs unique low distinct sub in
          (qs, rw (distinct, sub, sup, other) e, same, inr numbers)
    ]
