-- ===== src/Pricing/Tiers/Valid.antt =====
-- The tiers that the validation returns.
use token_board.Base.{
  ℕ, ◌≡◌, refl, sym, ap, ◌∙◌, Bool, true, false, ◌&&◌, ◌||◌, not, Option, none, some, List, [], ◌∷◌,
  ltb, ◌==◌, ok, ok-injective, >>=-returns, Bool-cases, Option-cases, inl, inr, arith,
}
use token_board.Pricing.Tiers.{
  PriceField, absent, boolean, unreadable, too_large, price, RawTier, TierEntry, no_object,
  raw_tier, TierList, no_list, entries, Tier, has_threshold, has_override, insert_tier, sort_tiers,
  read_price, read_prices, validate_tier, validate_tiers, validate_length_tiers,
}
use token_board.Pricing.{has_id}

module _ {F : Type 0} (is_price : F → Bool) where
  abbrev pub is_price_or_none : Option F → Bool
  is_price_or_none none = true
  is_price_or_none (some x) = is_price x

  -- A positive threshold, prices that are floats of the right kind, and at least one of them.
  abbrev pub is_tier : Tier F → Bool
  is_tier t =
      ltb 0 t.threshold_tokens
      && (is_price_or_none t.input_price
          && is_price_or_none t.cache_read_price
          && is_price_or_none t.output_price)
      && has_override t

  abbrev pub all_above : ℕ → List (Tier F) → Bool
  all_above n [] = true
  all_above n (t ∷ ts) = ltb n t.threshold_tokens && all_above n ts

  -- Good tiers with ascending thresholds.
  abbrev pub are_tiers : List (Tier F) → Bool
  are_tiers [] = true
  are_tiers (t ∷ ts) = is_tier t && all_above t.threshold_tokens ts && are_tiers ts

  read_price-is_price :
      (f : PriceField F) {o : Option F} → read_price is_price f ≡ ok o → is_price_or_none o ≡ true
  unfolding read_price
  read_price-is_price absent e = ap is_price_or_none (sym (ok-injective e))
  read_price-is_price boolean e = cc
  read_price-is_price unreadable e = cc
  read_price-is_price too_large e = cc
  read_price-is_price (price x) e = elim (Bool-cases (is_price x)) [
    | inl good ↦ let same = ok-injective (rw good at e) in rw (← same) good
    | inr bad ↦ let wrong = rw bad at e in cc
  ]

  read_prices-is_tier :
      (n : ℕ) (r : RawTier F) {t : Tier F}
      → ltb 0 n ≡ true
      → read_prices is_price n r ≡ ok t
      → (is_tier t ≡ true) × (t.threshold_tokens ≡ n)
  unfolding read_prices
  read_prices-is_tier n r {t} positive e =
      let (input, e1, k1) = >>=-returns (read_price is_price r.input_price) _ e in
      let (cached, e2, k2) = >>=-returns (read_price is_price r.cache_read_price) _ k1 in
      let (output, e3, k3) = >>=-returns (read_price is_price r.output_price) _ k2 in
      let u : Tier F = record {
        threshold_tokens = n;
        input_price = input;
        cache_read_price = cached;
        output_price = output;
      } in
      elim (Bool-cases (has_override u)) [
        | inl some_price ↦
            let same : u ≡ t = ok-injective (rw some_price at k3) in
            rw (← same) (
              ground (
                arith,
                positive,
                some_price,
                read_price-is_price r.input_price e1,
                read_price-is_price r.cache_read_price e2,
                read_price-is_price r.output_price e3,
              ),
              refl,
            )
        | inr no_price ↦ let wrong = rw no_price at k3 in cc
      ]

  validate_tier-is_tier :
      (seen : List ℕ) (entry : TierEntry F) {t : Tier F}
      → validate_tier is_price seen entry ≡ ok t
      → (is_tier t ≡ true) × (has_id t.threshold_tokens seen ≡ false)
  unfolding validate_tier
  validate_tier-is_tier seen no_object e = cc
  validate_tier-is_tier seen (raw_tier r) {t} e = elim (Option-cases r.threshold_tokens) [
    | inl no_number ↦ let wrong = rw (no_number, validate_tier) at e in cc
    | inr (n, number) ↦
        let e1 = rw (number, validate_tier) at e in
        elim (Bool-cases (ltb 0 n)) [
          | inr low ↦ let wrong = rw low at e1 in cc
          | inl positive ↦
              let e2 = rw positive at e1 in
              elim (Bool-cases (has_id n seen)) [
                | inl twice ↦ let wrong = rw twice at e2 in cc
                | inr new ↦
                    let (good, same) = read_prices-is_tier n r positive (rw new at e2) in
                    (good, rw same new)
              ]
        ]
  ]

  -- The thresholds are distinct and none of them was seen.
  abbrev pub are_new : List ℕ → List (Tier F) → Bool
  are_new seen [] = true
  are_new seen (t ∷ ts) =
      is_tier t && not (has_id t.threshold_tokens seen) && are_new (t.threshold_tokens ∷ seen) ts

  validate_tiers-are_new :
      (seen : List ℕ) (es : List (TierEntry F)) {ts : List (Tier F)}
      → validate_tiers is_price seen es ≡ ok ts
      → are_new seen ts ≡ true
  unfolding validate_tiers
  validate_tiers-are_new seen [] e = ap (are_new seen) (sym (ok-injective e))
  validate_tiers-are_new seen (x ∷ es) {ts} e =
      let (t, e1, k1) = >>=-returns (validate_tier is_price seen x) _ e in
      let (us, e2, k2) =
        >>=-returns (validate_tiers is_price (t.threshold_tokens ∷ seen) es) _ k1 in
      let (good, new) = validate_tier-is_tier seen x e1 in
      let rest = validate_tiers-are_new (t.threshold_tokens ∷ seen) es e2 in
      rw (← ok-injective k2) (ground (arith, good, new, rest))

  all_above-insert :
      (n : ℕ) (t : Tier F) (ts : List (Tier F))
      → all_above n (insert_tier t ts) ≡ (ltb n t.threshold_tokens && all_above n ts)
  unfolding insert_tier
  all_above-insert n t [] = refl
  all_above-insert n t (u ∷ us) = ground (arith, all_above-insert n t us)

  all_above-lower :
      (m n : ℕ) (ts : List (Tier F))
      → ltb m n ≡ true
      → all_above n ts ≡ true
      → all_above m ts ≡ true
  all_above-lower m n [] h k = refl
  all_above-lower m n (t ∷ ts) h k = ground (arith, all_above-lower m n ts)

  are_tiers-insert :
      (t : Tier F) (ts : List (Tier F))
      → is_tier t ≡ true
      → are_tiers ts ≡ true
      → has_threshold t.threshold_tokens ts ≡ false
      → are_tiers (insert_tier t ts) ≡ true
  unfolding insert_tier
  are_tiers-insert t [] good h new = ground arith
  are_tiers-insert t (u ∷ us) good h new = ground (
    arith,
    are_tiers-insert t us,
    all_above-insert u.threshold_tokens t us,
    all_above-lower t.threshold_tokens u.threshold_tokens us,
  )

  has_threshold-insert :
      (n : ℕ) (t : Tier F) (ts : List (Tier F))
      → has_threshold n (insert_tier t ts) ≡ ((t.threshold_tokens == n) || has_threshold n ts)
  unfolding insert_tier
  has_threshold-insert n t [] = refl
  has_threshold-insert n t (u ∷ us) = ground (arith, has_threshold-insert n t us)

  has_threshold-sort :
      (n : ℕ) (ts : List (Tier F)) → has_threshold n (sort_tiers ts) ≡ has_threshold n ts
  unfolding sort_tiers
  has_threshold-sort n [] = refl
  has_threshold-sort n (t ∷ ts) =
      has_threshold-insert n t (sort_tiers ts)
      ∙ ap (λ (b : Bool). (t.threshold_tokens == n) || b) (has_threshold-sort n ts)

  are_new-has_threshold :
      (n : ℕ) (seen : List ℕ) (ts : List (Tier F))
      → are_new seen ts ≡ true
      → has_id n seen ≡ true
      → has_threshold n ts ≡ false
  are_new-has_threshold n seen [] h k = refl
  are_new-has_threshold n seen (t ∷ ts) h k =
      let rest =
        are_new-has_threshold n (t.threshold_tokens ∷ seen) ts (ground arith) (ground arith) in
      elim (Bool-cases (t.threshold_tokens == n)) [
        | inl same ↦
            let e : t.threshold_tokens ≡ n = ground arith in let h' = rw e at h in ground arith
        | inr other ↦ ground arith
      ]

  sort-are_tiers :
      (seen : List ℕ) (ts : List (Tier F))
      → are_new seen ts ≡ true
      → are_tiers (sort_tiers ts) ≡ true
  unfolding sort_tiers
  sort-are_tiers seen [] h = refl
  sort-are_tiers seen (t ∷ ts) h =
      let rest : are_new (t.threshold_tokens ∷ seen) ts ≡ true = ground arith in
      are_tiers-insert t (sort_tiers ts) (ground arith)
        (sort-are_tiers (t.threshold_tokens ∷ seen) ts rest)
        (has_threshold-sort t.threshold_tokens ts
          ∙ are_new-has_threshold t.threshold_tokens (t.threshold_tokens ∷ seen) ts rest
              (ground arith))

  -- What the validation returns is a list of good tiers in ascending order of their thresholds.
  pub validate_length_tiers-are_tiers :
      (raw : TierList F) {ts : List (Tier F)}
      → validate_length_tiers is_price raw ≡ ok ts
      → are_tiers ts ≡ true
  unfolding validate_length_tiers
  validate_length_tiers-are_tiers no_list e = cc
  validate_length_tiers-are_tiers (entries es) e =
      let (us, e1, k) = >>=-returns (validate_tiers is_price [] es) _ e in
      rw (← ok-injective k) (sort-are_tiers [] us (validate_tiers-are_new [] es e1))
