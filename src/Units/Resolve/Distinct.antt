-- ===== src/Units/Resolve/Distinct.antt =====
-- Which rows the resolver turns into units.
use token_board.Base.{
  ℕ, ◌≡◌, refl, true, false, not, ◌||◌, none, some, List, [], ◌∷◌, arith, Bool-cases, Option-cases,
  inl, inr, Result, ok, ok-injective, All-map, err, ◌>>=◌, All,
}
use mathlib.Core.Path.{subst, sym, ◌∙◌}
use mathlib.Core.Option.{some-injective}
use token_board.Units.{BillingUnit, masked}
use token_board.Units.Resolve.{
  Contract, Credential, start_date, credential_unit, credential_units, selects, contains, Binding,
  binds, is_later, later_of, live_binding,
}

-- No masked key stands twice in the units, and none of them has been seen before.
abbrev pub AreDistinct : List ℕ → List BillingUnit → Type 0
AreDistinct seen [] = Unit
AreDistinct seen (u ∷ us) =
    (k : ℕ) × (u.key_masked ≡ masked k) × (contains seen k ≡ false) × AreDistinct (k ∷ seen) us

-- One round that opens a unit.
taken_AreDistinct :
    (c : Contract) (seen : List ℕ) (k : Credential) (r : Result ℕ)
    (rest : Result (List BillingUnit)) {us : List BillingUnit}
    → (r >>= λ v. rest >>= λ units. ok (credential_unit c k v ∷ units)) ≡ ok us
    → contains seen k.key_masked ≡ false
    → ((units : List BillingUnit) → rest ≡ ok units → AreDistinct (k.key_masked ∷ seen) units)
    → AreDistinct seen us
unfolding credential_unit
taken_AreDistinct c seen k (err e) rest h new later = cc
taken_AreDistinct c seen k (ok v) (err e) h new later = cc
taken_AreDistinct c seen k (ok v) (ok units) h new later =
    subst (AreDistinct seen) {x = credential_unit c k v ∷ units} (ok-injective h)
      (k.key_masked, refl, new, later units refl)

-- The units that a loop over the credentials of one contract returns have masked keys that are
-- distinct and not among those seen before: a second copy of a key opens no second unit.
pub credential_units-AreDistinct :
    (c : Contract) (now : ℕ) (seen : List ℕ) (ks : List Credential) {us : List BillingUnit}
    → credential_units c now seen ks ≡ ok us
    → AreDistinct seen us
unfolding credential_units credential_unit
credential_units-AreDistinct c now seen [] h =
    let e = ok-injective h in subst (AreDistinct seen) e tt
credential_units-AreDistinct c now seen (k ∷ ks) h =
    elim (Bool-cases (not (selects c now k) || contains seen k.key_masked)) [
      | inl skipped ↦ credential_units-AreDistinct c now seen ks (rw skipped at h)
      | inr taken ↦
          taken_AreDistinct c seen k (start_date k.valid_from k.created_at)
            (credential_units c now (k.key_masked ∷ seen) ks) (rw taken at h) (ground arith)
            (λ units. credential_units-AreDistinct c now (k.key_masked ∷ seen) ks {us = units})
    ]

-- `is_later` is a strict lexicographic order.
is_later_asym : (a b : Binding) → is_later a b ≡ true → is_later b a ≡ false
is_later_asym a b h = ground arith

is_later_irrefl : (a : Binding) → is_later a a ≡ false
is_later_irrefl a = ground arith

is_later_trans :
    (a b c : Binding) → is_later a b ≡ false → is_later b c ≡ false → is_later a c ≡ false
is_later_trans a b c h k = ground arith

abbrev IsLatest : ℕ → ℕ → List Binding → Binding → Type 0
IsLatest subscription today bs b =
    All (λ c. binds subscription today c ≡ true → is_later c b ≡ false) bs

-- With none in effect there is no unit.
pub live_binding-none :
    (bs : List Binding) (subscription today : ℕ)
    → live_binding bs subscription today ≡ none
    → All (λ c. binds subscription today c ≡ false) bs
unfolding live_binding
live_binding-none [] subscription today h = tt
live_binding-none (x ∷ bs) subscription today h =
    ground (arith, live_binding-none bs subscription today)

abbrev Wins : ℕ → ℕ → List Binding → Binding → Type 0
Wins subscription today bs b =
    (binds subscription today b ≡ true) × IsLatest subscription today bs b

-- A binding in effect before the others: the later of it and the latest of the others.
newest :
    (x : Binding) (bs : List Binding) (subscription today : ℕ) {b : Binding}
    → binds subscription today x ≡ true
    → some (later_of x (live_binding bs subscription today)) ≡ some b
    → ((y : Binding)
        → live_binding bs subscription today ≡ some y
        → (binds subscription today y ≡ true) × IsLatest subscription today bs y)
    → (binds subscription today b ≡ true) × IsLatest subscription today (x ∷ bs) b
unfolding later_of
newest x bs subscription today effective h ih =
    elim (Option-cases (live_binding bs subscription today)) [
      | inl e ↦
          let alone = some-injective _ _ (rw e at h) in
          subst (Wins subscription today (x ∷ bs)) {x = x} alone (
            effective,
            (
              (λ _. is_later_irrefl x),
              All-map (λ c k l. cc) bs (live_binding-none bs subscription today e),
            ),
          )
      | inr (y, e) ↦
          let (live, latest) = ih y e in
          let chosen = some-injective _ _ (rw e at h) in
          elim (Bool-cases (is_later y x)) [
            | inl after ↦
                let pick : later_of x (some y) ≡ y = rw after in
                subst (Wins subscription today (x ∷ bs)) {x = y} (sym pick ∙ chosen)
                  (live, ((λ _. is_later_asym y x after), latest))
            | inr before ↦
                let pick : later_of x (some y) ≡ x = rw before in
                subst (Wins subscription today (x ∷ bs)) {x = x} (sym pick ∙ chosen) (
                  effective,
                  (
                    (λ _. is_later_irrefl x),
                    All-map (λ c k l. is_later_trans c y x (k l) before) bs latest,
                  ),
                )
          ]
    ]

-- The binding that is found is in effect for the subscription today, and no binding in effect started
-- later, or on the same day with a greater id.
pub live_binding-latest :
    (bs : List Binding) (subscription today : ℕ) {b : Binding}
    → live_binding bs subscription today ≡ some b
    → (binds subscription today b ≡ true)
      × All (λ c. binds subscription today c ≡ true → is_later c b ≡ false) bs
unfolding live_binding
live_binding-latest [] subscription today h = cc
live_binding-latest (x ∷ bs) subscription today h = elim (Bool-cases (binds subscription today x)) [
  | inr idle ↦
      let (effective, latest) = live_binding-latest bs subscription today (rw idle at h) in
      (effective, ((λ e. cc), latest))
  | inl effective ↦
      newest x bs subscription today effective (rw effective at h)
        (λ y. live_binding-latest bs subscription today {b = y})
]
