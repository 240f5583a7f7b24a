-- ===== src/Pricing.antt =====
-- app/db/proxy/pricing.py: the order of the pricing rules. A table is the list of its rows by id; a
-- priority is an integer, and no two rules of one pattern have the same one, which SQLite checks at
-- each update. `Tiers` has `_validate_length_tiers`, and `Timeouts` has `update_timeout_config`.
pub mod Assign
pub mod Reorder
pub mod Tiers
pub mod Timeouts
use token_board.Base.{
  ℕ, zero, suc, ◌+◌, ◌-◌, Bool, true, false, ◌&&◌, ◌||◌, not, Option, none, some, List, [], ◌∷◌,
  map, length, ltb, ◌==◌, if◌then◌else◌, Result, ok, err, type_error, value_error, integrity_error,
  ◌>>=◌,
}

-- An integer: `pos n`, or `negsuc n` for -(n + 1).
pub data ℤ : Type 0 where
  pos negsuc : ℕ → ℤ

unfoldable pub subtract : ℤ → ℕ → ℤ
subtract (pos m) n = if ltb m n then negsuc (n - m - 1) else pos (m - n)
subtract (negsuc m) n = negsuc (m + n)

unfoldable pub less : ℤ → ℤ → Bool
less (pos a) (pos b) = ltb a b
less (pos a) (negsuc b) = false
less (negsuc a) (pos b) = true
less (negsuc a) (negsuc b) = ltb b a

unfoldable pub same_int : ℤ → ℤ → Bool
same_int (pos a) (pos b) = a == b
same_int (pos a) (negsuc b) = false
same_int (negsuc a) (pos b) = false
same_int (negsuc a) (negsuc b) = a == b

-- A row of `pricing_rules`, less its prices.
pub record PricingRule : Type 0 where
  pub id : ℕ
  pub model_pattern : ℕ
  pub priority : ℤ

abbrev pub has_id : ℕ → List ℕ → Bool
has_id id [] = false
has_id id (i ∷ is) = (i == id) || has_id id is

-- `len(set(ids)) != len(ids)`.
abbrev pub has_duplicate : List ℕ → Bool
has_duplicate [] = false
has_duplicate (i ∷ is) = has_id i is || has_duplicate is

abbrev pub is_subset : List ℕ → List ℕ → Bool
is_subset [] js = true
is_subset (i ∷ is) js = has_id i js && is_subset is js

abbrev pub same_ids : List ℕ → List ℕ → Bool
same_ids [] [] = true
same_ids [] (j ∷ js) = false
same_ids (i ∷ is) [] = false
same_ids (i ∷ is) (j ∷ js) = (i == j) && same_ids is js

abbrev pub ids_of : List PricingRule → List ℕ
ids_of [] = []
ids_of (r ∷ rs) = r.id ∷ ids_of rs

-- ORDER BY priority, id, from the order by id.
unfoldable pub insert_rule : PricingRule → List PricingRule → List PricingRule
unfolding less
insert_rule r [] = r ∷ []
insert_rule r (q ∷ qs) =
    let rest = insert_rule r qs in if less q.priority r.priority then q ∷ rest else r ∷ q ∷ qs

unfoldable pub by_priority : List PricingRule → List PricingRule
unfolding insert_rule
by_priority [] = []
by_priority (r ∷ rs) = insert_rule r (by_priority rs)

-- The UNIQUE constraint at the update of one rule.
unfoldable pub clashes : PricingRule → ℤ → List PricingRule → Bool
unfolding same_int
clashes r p [] = false
clashes r p (q ∷ qs) =
    (not (q.id == r.id) && (q.model_pattern == r.model_pattern) && same_int q.priority p)
    || clashes r p qs

abbrev pub find_rule : ℕ → List PricingRule → Option PricingRule
find_rule id [] = none
find_rule id (r ∷ rs) = if r.id == id then some r else find_rule id rs

abbrev pub put_priority : ℕ → ℤ → PricingRule → PricingRule
put_priority id p r = record r { priority = if r.id == id then p else r.priority }

-- `UPDATE pricing_rules SET priority=? WHERE id=?`.
unfoldable pub set_priority : ℕ → ℤ → List PricingRule → Result (List PricingRule)
unfolding clashes
set_priority id p rs = elim (find_rule id rs) [
  | none ↦ ok rs
  | some r ↦ if clashes r p rs then err integrity_error else ok (map (put_priority id p) rs)
]

abbrev pub Assignments : Type 0
Assignments = List (ℕ × ℤ)

unfoldable pub assign : Assignments → List PricingRule → Result (List PricingRule)
unfolding set_priority
assign [] rs = ok rs
assign ((id, p) ∷ rest) rs = set_priority id p rs >>= λ rs'. assign rest rs'

-- `COALESCE(MIN(priority),0)`.
unfoldable pub minimum : List PricingRule → ℤ
unfolding less
minimum [] = pos 0
minimum (r ∷ []) = r.priority
minimum (r ∷ q ∷ rs) = let m = minimum (q ∷ rs) in if less r.priority m then r.priority else m

-- The first phase: the rule at `offset` in the order of ids moves to the temporary range.
unfoldable pub temporary : ℤ → ℕ → List PricingRule → Assignments
unfolding subtract
temporary base offset [] = []
temporary base offset (r ∷ rs) = (r.id, subtract base offset) ∷ temporary base (suc offset) rs

-- The second phase: the rules are numbered.
unfoldable pub numbered : ℕ → List ℕ → Assignments
numbered n [] = []
numbered n (id ∷ is) = (id, pos n) ∷ numbered (suc n) is

unfoldable pub renumber : List ℕ → List PricingRule → Result (List PricingRule)
unfolding assign temporary numbered minimum
renumber ids rs = assign (temporary (subtract (minimum rs) (length rs + 1)) 0 rs) rs >>= λ rs'.
    assign (numbered 0 ids) rs'

-- The argument: not an array, an array with something else than integers, integers.
pub data IdList : Type 0 where
  no_array other_items : IdList
  ids : List ℕ → IdList

-- `reorder_pricing_order`; an exception leaves the table, since nothing is committed.
unfoldable pub reorder_pricing_order : IdList → List PricingRule → Result (List PricingRule)
unfolding renumber by_priority
reorder_pricing_order no_array rs = err type_error
reorder_pricing_order other_items rs = err type_error
reorder_pricing_order (ids is) rs =
    let current : List ℕ = ids_of (by_priority rs) in
    if has_duplicate is
    then err value_error
    else if not (is_subset is current && is_subset current is)
    then err value_error
    else if same_ids is current
    then ok rs
    else renumber is rs
