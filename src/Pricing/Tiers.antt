-- ===== src/Pricing/Tiers.antt =====
-- `_validate_length_tiers`: the price overrides by input length. A price is a float of type `F`; which
-- floats are finite and not negative is a parameter.
pub mod Valid
pub mod Again
use token_board.Base.{
  ℕ, zero, suc, Bool, true, false, ◌&&◌, ◌||◌, not, Option, none, some, List, [], ◌∷◌, map, ltb,
  ◌==◌, if◌then◌else◌, Result, ok, err, type_error, value_error, overflow_error, ◌>>=◌,
}
use token_board.Pricing.{has_id}

-- A price field: missing or null, a Boolean, what `float` refuses, an integer too large for it, a number.
pub data PriceField (F : Type 0) : Type 0 where
  absent boolean unreadable too_large : PriceField F
  price : F → PriceField F

-- An entry of the list; a threshold that is no positive integer is `none`.
pub record RawTier (F : Type 0) : Type 0 where
  pub threshold_tokens : Option ℕ
  pub input_price : PriceField F
  pub cache_read_price : PriceField F
  pub output_price : PriceField F

pub data TierEntry (F : Type 0) : Type 0 where
  no_object : TierEntry F
  raw_tier : RawTier F → TierEntry F

-- The argument: a list, or something else.
pub data TierList (F : Type 0) : Type 0 where
  no_list : TierList F
  entries : List (TierEntry F) → TierList F

-- A null price is inherited.
pub record Tier (F : Type 0) : Type 0 where
  pub threshold_tokens : ℕ
  pub input_price : Option F
  pub cache_read_price : Option F
  pub output_price : Option F

module _ {F : Type 0} where
  abbrev pub has_threshold : ℕ → List (Tier F) → Bool
  has_threshold n [] = false
  has_threshold n (t ∷ ts) = (t.threshold_tokens == n) || has_threshold n ts

  abbrev pub is_override : Option F → Bool
  is_override none = false
  is_override (some x) = true

  abbrev pub has_override : Tier F → Bool
  has_override t =
      is_override t.input_price || is_override t.cache_read_price || is_override t.output_price

  -- `sorted` by threshold.
  unfoldable pub insert_tier : Tier F → List (Tier F) → List (Tier F)
  insert_tier t [] = t ∷ []
  insert_tier t (u ∷ us) =
      let rest = insert_tier t us in
      if ltb u.threshold_tokens t.threshold_tokens then u ∷ rest else t ∷ u ∷ us

  unfoldable pub sort_tiers : List (Tier F) → List (Tier F)
  unfolding insert_tier
  sort_tiers [] = []
  sort_tiers (t ∷ ts) = insert_tier t (sort_tiers ts)

module _ {F : Type 0} (is_price : F → Bool) where
  unfoldable pub read_price : PriceField F → Result (Option F)
  read_price absent = ok none
  read_price boolean = err type_error
  read_price unreadable = err value_error
  read_price too_large = err overflow_error
  read_price (price x) = if is_price x then ok (some x) else err value_error

  unfoldable pub read_prices : ℕ → RawTier F → Result (Tier F)
  unfolding read_price
  read_prices threshold r = read_price r.input_price >>= λ input.
      read_price r.cache_read_price >>= λ cached. read_price r.output_price >>= λ output.
      let t : Tier F = record {
        threshold_tokens = threshold;
        input_price = input;
        cache_read_price = cached;
        output_price = output;
      } in
      if has_override t then ok t else err value_error

  -- The body of the loop.
  unfoldable pub validate_tier : List ℕ → TierEntry F → Result (Tier F)
  unfolding read_prices
  validate_tier seen no_object = err type_error
  validate_tier seen (raw_tier r) = elim r.threshold_tokens [
    | none ↦ err value_error
    | some n ↦
        if not (ltb 0 n)
        then err value_error
        else if has_id n seen
        then err value_error
        else read_prices n r
  ]

  unfoldable pub validate_tiers : List ℕ → List (TierEntry F) → Result (List (Tier F))
  unfolding validate_tier
  validate_tiers seen [] = ok []
  validate_tiers seen (e ∷ es) = validate_tier seen e >>= λ t.
      validate_tiers (t.threshold_tokens ∷ seen) es >>= λ ts. ok (t ∷ ts)

  unfoldable pub validate_length_tiers : TierList F → Result (List (Tier F))
  unfolding validate_tiers sort_tiers
  validate_length_tiers no_list = err type_error
  validate_length_tiers (entries es) = validate_tiers [] es >>= λ ts. ok (sort_tiers ts)
