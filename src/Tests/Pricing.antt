-- ===== src/Tests/Pricing.antt =====
-- Two rules of one pattern that change places, a list of two length tiers, and one group of timeouts.
use token_board.Base.{
  ℕ, ◌≡◌, ◌⊎◌, refl, Bool, true, none, some, List, [], ◌∷◌, map, ltb, if◌then◌else◌, err, ok,
  integrity_error,
}
use token_board.Pricing.{
  pos, less, PricingRule, ids_of, same_ids, insert_rule, by_priority, minimum, ids,
  reorder_pricing_order,
}
use token_board.Pricing.Reorder.{IsNumbered, reorder_pricing_order_numbers}
use token_board.Pricing.Tiers.{entries, Tier, TierList, validate_length_tiers}
use token_board.Pricing.Tiers.Valid.{are_tiers, validate_length_tiers-are_tiers}
use token_board.Pricing.Tiers.Again.{stored_tier, validate_length_tiers_again}
use token_board.Pricing.Timeouts.{
  EndpointKind, messages, responses, seconds, TimeoutData, Timeouts, TimeoutTable, read_timeouts,
  timeouts_of, same_endpoint, update_timeout_config, are_in_range, update_timeout_config_ranges,
}

abbrev two_rules : ℕ → ℕ → List PricingRule
two_rules first second =
    record { id = 1; model_pattern = 7; priority = pos first }
    ∷ record { id = 2; model_pattern = 7; priority = pos second }
    ∷ []

reorder_pricing_order_numbers_example :
    (qs : List PricingRule) × (reorder_pricing_order (ids (2 ∷ 1 ∷ [])) (two_rules 1 2) ≡ ok qs)
    × (ids_of qs ≡ 1 ∷ 2 ∷ [])
    × (((qs ≡ two_rules 1 2)
          × (same_ids (2 ∷ 1 ∷ []) (ids_of (by_priority (two_rules 1 2))) ≡ true))
        ⊎ IsNumbered 0 (2 ∷ 1 ∷ []) qs)
unfolding minimum less by_priority insert_rule
reorder_pricing_order_numbers_example =
    reorder_pricing_order_numbers (2 ∷ 1 ∷ []) (two_rules 1 2) refl refl refl refl refl

-- With the priorities 3 and 4, which the deletion of earlier rules leaves, the temporary range meets the
-- final one: the first rule waits at 0 when the second is put there.
reorder_clash : reorder_pricing_order (ids (2 ∷ 1 ∷ [])) (two_rules 3 4) ≡ err integrity_error
unfolding reorder_pricing_order
reorder_clash = refl

-- A price below a thousand is finite and not negative.
abbrev is_price : ℕ → Bool
is_price x = ltb x 1000

abbrev tier : ℕ → ℕ → Tier ℕ
tier threshold input = record {
  threshold_tokens = threshold;
  input_price = some input;
  cache_read_price = none;
  output_price = none;
}

abbrev unsorted : TierList ℕ
unsorted = entries (stored_tier is_price (tier 200 9) ∷ stored_tier is_price (tier 100 0) ∷ [])

abbrev sorted : List (Tier ℕ)
sorted = tier 100 0 ∷ tier 200 9 ∷ []

unsorted_validated : validate_length_tiers is_price unsorted ≡ ok sorted
unfolding validate_length_tiers
unsorted_validated = refl

validate_length_tiers-are_tiers_example : are_tiers is_price sorted ≡ true
validate_length_tiers-are_tiers_example =
    validate_length_tiers-are_tiers is_price unsorted unsorted_validated

validate_length_tiers_again_example :
    validate_length_tiers is_price (entries (map (stored_tier is_price) sorted)) ≡ ok sorted
validate_length_tiers_again_example =
    validate_length_tiers_again is_price unsorted unsorted_validated

abbrev new_data : TimeoutData
new_data = record {
  streaming_first_byte_timeout = seconds 30;
  streaming_idle_timeout = seconds 0;
  non_streaming_timeout = seconds 600;
}

abbrev timeouts : ℕ → Timeouts
timeouts first = record {
  streaming_first_byte_timeout = first;
  streaming_idle_timeout = 0;
  non_streaming_timeout = 600;
}

abbrev table : ℕ → TimeoutTable
table first = (messages, timeouts first) ∷ (responses, timeouts 60) ∷ []

updated : update_timeout_config (some messages) new_data (table 60) ≡ ok (table 30)
unfolding update_timeout_config
updated = refl

update_timeout_config_ranges_example :
    (are_in_range (table 30) ≡ true)
    × (t : Timeouts) × (read_timeouts new_data ≡ ok t)
    × ((j : EndpointKind)
        → timeouts_of j (table 30)
          ≡ (if same_endpoint messages j then some t else timeouts_of j (table 60)))
update_timeout_config_ranges_example =
    update_timeout_config_ranges messages new_data (table 60) updated refl
