-- ===== src/Pricing/Tiers/Again.antt =====
-- The validation of its own result.
use token_board.Base.{
  ℕ, ◌≡◌, refl, Bool, true, false, Option, none, some, List, [], ◌∷◌, map, ltb, ◌==◌, ok,
  Bool-cases, inl, inr, arith,
}
use token_board.Pricing.Tiers.{
  PriceField, absent, price, TierEntry, raw_tier, TierList, entries, Tier, has_override,
  insert_tier, sort_tiers, read_price, read_prices, validate_tier, validate_tiers,
  validate_length_tiers,
}
use token_board.Pricing.{has_id}
use token_board.Pricing.Tiers.Valid.{
  is_price_or_none, is_tier, all_above, are_new, are_tiers, validate_length_tiers-are_tiers,
}

module _ {F : Type 0} (is_price : F → Bool) where
  -- A stored tier as an entry of a list again.
  abbrev stored_price : Option F → PriceField F
  stored_price none = absent
  stored_price (some x) = price x

  abbrev pub stored_tier : Tier F → TierEntry F
  stored_tier t = raw_tier (record {
    threshold_tokens = some t.threshold_tokens;
    input_price = stored_price t.input_price;
    cache_read_price = stored_price t.cache_read_price;
    output_price = stored_price t.output_price;
  })

  read_stored :
      (o : Option F)
      → is_price_or_none is_price o ≡ true
      → read_price is_price (stored_price o) ≡ ok o
  unfolding read_price
  read_stored none h = refl
  read_stored (some x) h = rw h refl

  validate_stored :
      (seen : List ℕ) (t : Tier F)
      → is_tier is_price t ≡ true
      → has_id t.threshold_tokens seen ≡ false
      → validate_tier is_price seen (stored_tier t) ≡ ok t
  unfolding validate_tier read_prices
  validate_stored seen t good new =
      let positive : ltb 0 t.threshold_tokens ≡ true = ground arith in
      let some_price : has_override t ≡ true = ground arith in
      rw
        (
          positive,
          new,
          read_stored t.input_price (ground arith),
          read_stored t.cache_read_price (ground arith),
          read_stored t.output_price (ground arith),
          some_price,
        )
        refl

  validate_all_stored :
      (seen : List ℕ) (ts : List (Tier F))
      → are_new is_price seen ts ≡ true
      → validate_tiers is_price seen (map stored_tier ts) ≡ ok ts
  unfolding validate_tiers
  validate_all_stored seen [] h = refl
  validate_all_stored seen (t ∷ ts) h =
      rw (validate_stored seen t (ground arith) (ground arith))
        (rw (validate_all_stored (t.threshold_tokens ∷ seen) ts (ground arith)) refl)

  are_tiers-are_new :
      (seen : List ℕ) (ts : List (Tier F))
      → are_tiers is_price ts ≡ true
      → ((n : ℕ) → has_id n seen ≡ true → all_above is_price n ts ≡ true)
      → are_new is_price seen ts ≡ true
  are_tiers-are_new seen [] h above = refl
  are_tiers-are_new seen (t ∷ ts) h above =
      let own : all_above is_price t.threshold_tokens ts ≡ true = ground arith in
      let rest = are_tiers-are_new (t.threshold_tokens ∷ seen) ts (ground arith) (λ n k.
        elim (Bool-cases (t.threshold_tokens == n)) [
          | inl same ↦ let e : t.threshold_tokens ≡ n = ground arith in rw (← e) own
          | inr other ↦ let lower = above n (ground arith) in ground (arith, lower)
        ]) in
      elim (Bool-cases (has_id t.threshold_tokens seen)) [
        | inl twice ↦ let wrong = above t.threshold_tokens twice in ground (arith, wrong)
        | inr new ↦ ground (arith, rest, new)
      ]

  sort_sorted : (ts : List (Tier F)) → are_tiers is_price ts ≡ true → sort_tiers ts ≡ ts
  unfolding sort_tiers insert_tier
  sort_sorted [] h = refl
  sort_sorted (t ∷ []) h = refl
  sort_sorted (t ∷ u ∷ us) h = rw (sort_sorted (u ∷ us) (ground arith)) (ground arith)

  -- Stored tiers are accepted again, and unchanged: what the validation returns is what it returns for
  -- its own result as an input.
  pub validate_length_tiers_again :
      (raw : TierList F) {ts : List (Tier F)}
      → validate_length_tiers is_price raw ≡ ok ts
      → validate_length_tiers is_price (entries (map stored_tier ts)) ≡ ok ts
  unfolding validate_length_tiers
  validate_length_tiers_again raw {ts} e =
      let good = validate_length_tiers-are_tiers is_price raw e in
      rw (validate_all_stored [] ts (are_tiers-are_new [] ts good (λ n k. cc)))
        (rw (sort_sorted ts good) refl)
