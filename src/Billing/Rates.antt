-- ===== src/Billing/Rates.antt =====
-- Prices and exchange rates: `_rate_from_table` and `_normalized_charge` of
-- app/db/proxy/billing.py, and `FxRateResolver.resolve` of app/services/fx.py.
use token_board.Base.{
  ℕ, Bool, true, false, ◌&&◌, ◌||◌, Option, none, some, List, [], ◌∷◌, leb, ltb, ◌==◌,
  if◌then◌else◌,
}
use token_board.Units.{Currency, cny, foreign}

-- A row of a rate event table; a date column holds the midnight of its day.
pub record RateEvent (F : Type 0) : Type 0 where
  pub id : ℕ
  pub owner : ℕ
  pub effective_at : ℕ
  pub recurring_price : F

-- A row of `fx_rates` with CNY as its quote.
pub record FxRate (F : Type 0) : Type 0 where
  pub base : ℕ
  pub date : ℕ
  pub rate : F

-- What `resolve` answers for a foreign currency; a pair that was never stored has no date.
pub record FxResolution (F : Type 0) : Type 0 where
  pub rate : F
  pub source_date : Option ℕ
  pub exact : Bool
  pub locked : Bool

module _ {F : Type 0} where
  abbrev pub is_effective : ℕ → ℕ → RateEvent F → Bool
  is_effective owner start e = (e.owner == owner) && leb e.effective_at start

  -- `ORDER BY effective_at DESC, id DESC`.
  abbrev pub is_later_event : RateEvent F → RateEvent F → Bool
  is_later_event a b =
      ltb b.effective_at a.effective_at || ((a.effective_at == b.effective_at) && ltb b.id a.id)

  unfoldable pub later_event : RateEvent F → Option (RateEvent F) → RateEvent F
  later_event e none = e
  later_event e (some d) = if is_later_event d e then d else e

  unfoldable pub latest_event : ℕ → ℕ → List (RateEvent F) → Option (RateEvent F)
  unfolding later_event
  latest_event owner start [] = none
  latest_event owner start (e ∷ es) =
      let rest = latest_event owner start es in
      if is_effective owner start e then some (later_event e rest) else rest

  unfoldable pub rate_from_table : F → List (RateEvent F) → ℕ → ℕ → F
  unfolding latest_event
  rate_from_table nought events owner start = elim (latest_event owner start events) [
    | none ↦ nought
    | some e ↦ e.recurring_price
  ]

  unfoldable pub exact_rate : ℕ → ℕ → List (FxRate F) → Option (FxRate F)
  exact_rate base date [] = none
  exact_rate base date (r ∷ rs) =
      if (r.base == base) && (r.date == date) then some r else exact_rate base date rs

  -- The latest of the rows up to the date.
  unfoldable pub last_rate : ℕ → ℕ → List (FxRate F) → Option (FxRate F)
  last_rate base date [] = none
  last_rate base date (r ∷ rs) =
      let rest = last_rate base date rs in
      if (r.base == base) && leb r.date date
      then some (elim rest [ none ↦ r | some s ↦ if ltb r.date s.date then s else r ])
      else rest

  -- The earliest row of all.
  unfoldable pub first_rate : ℕ → List (FxRate F) → Option (FxRate F)
  first_rate base [] = none
  first_rate base (r ∷ rs) =
      let rest = first_rate base rs in
      if r.base == base
      then some (elim rest [ none ↦ r | some s ↦ if ltb s.date r.date then s else r ])
      else rest

  abbrev pub locked_rate : FxRate F → FxResolution F
  locked_rate r = record { rate = r.rate; source_date = some r.date; exact = true; locked = true }

  abbrev pub provisional_rate : FxRate F → FxResolution F
  provisional_rate r = record {
    rate = r.rate;
    source_date = some r.date;
    exact = false;
    locked = false;
  }

  -- `one` is the float 1.0.
  unfoldable pub resolve_rate : F → List (FxRate F) → ℕ → ℕ → FxResolution F
  unfolding exact_rate last_rate first_rate
  resolve_rate one rates base date = elim (exact_rate base date rates) [
    | some r ↦ locked_rate r
    | none ↦ elim (last_rate base date rates) [
      | some r ↦ provisional_rate r
      | none ↦ elim (first_rate base rates) [
        | some r ↦ provisional_rate r
        | none ↦ record { rate = one; source_date = none; exact = false; locked = false }
      ]
    ]
  ]

-- The normalized cost, its rate's date, and whether the charge can be frozen.
pub record Normalized (F : Type 0) : Type 0 where
  pub cost : Option F
  pub fx_date : Option ℕ
  pub can_finalize : Bool

module _ {F : Type 0} (one : F) (times : F → F → F) where
  unfoldable pub converted : F → FxResolution F → Normalized F
  converted price r = elim r.source_date [
    | none ↦ record { cost = none; fx_date = none; can_finalize = false }
    | some date ↦ record {
      cost = some (times price r.rate);
      fx_date = some date;
      can_finalize = true;
    }
  ]

  unfoldable pub normalized_charge : List (FxRate F) → F → Currency → ℕ → Normalized F
  unfolding converted resolve_rate
  normalized_charge rates price cny date = record {
    cost = some price;
    fx_date = none;
    can_finalize = true;
  }
  normalized_charge rates price (foreign c) date = converted price (resolve_rate one rates c date)
