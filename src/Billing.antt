-- ===== src/Billing.antt =====
-- app/db/proxy/billing.py: the recurring-charge ledger. `Resolve` finds the period that a unit is
-- billed for, `Rates` the price and the exchange rate, `Stream` the rows of one unit, and `Run`
-- the billing run over all units. Prices and rates are floats: a type `F` with the source's
-- product and zero.
pub mod Resolve
pub mod Rates
pub mod Stream
pub mod Run
use token_board.Base.{
  ℕ, Bool, true, false, ◌&&◌, ◌||◌, Option, none, some, List, [], ◌∷◌, leb, ltb, ◌==◌,
  if◌then◌else◌,
}
use token_board.Units.{Currency}

-- A row of `billing_period_charges` or of `agent_subscription_period_charges`: the owner is the
-- contract or the subscription instance, and `finalized` the day or moment it was frozen at.
pub record Charge (F : Type 0) : Type 0 where
  pub id : ℕ
  pub owner : ℕ
  pub credential : Option ℕ
  pub subscription_id : Option ℕ
  pub software_id : Option ℕ
  pub period_start : ℕ
  pub period_end : ℕ
  pub recurring_charge : F
  pub currency : Currency
  pub normalized : Option F
  pub fx_rate_date : Option ℕ
  pub finalized : Option ℕ

-- `credential_uuid IS ?`: NULL is NULL.
abbrev pub same_option : Option ℕ → Option ℕ → Bool
same_option none none = true
same_option none (some b) = false
same_option (some a) none = false
same_option (some a) (some b) = a == b

module _ {F : Type 0} where
  -- The row that the unique key (owner, credential, period start) names.
  abbrev pub is_charge : ℕ → Option ℕ → ℕ → Charge F → Bool
  is_charge owner credential start c =
      (c.owner == owner) && same_option c.credential credential && (c.period_start == start)

  unfoldable pub find_charge : ℕ → Option ℕ → ℕ → List (Charge F) → Option (Charge F)
  find_charge owner credential start [] = none
  find_charge owner credential start (c ∷ cs) =
      if is_charge owner credential start c then some c else find_charge owner credential start cs

  -- The rows of one unit that started by the moment.
  abbrev pub has_started : ℕ → Option ℕ → ℕ → Charge F → Bool
  has_started owner credential moment c =
      (c.owner == owner) && same_option c.credential credential && leb c.period_start moment

  unfoldable pub later_charge : Charge F → Option (Charge F) → Charge F
  later_charge c none = c
  later_charge c (some d) = if ltb c.period_start d.period_start then d else c

  -- `ORDER BY period_start DESC LIMIT 1`.
  unfoldable pub latest_charge : ℕ → Option ℕ → ℕ → List (Charge F) → Option (Charge F)
  unfolding later_charge
  latest_charge owner credential moment [] = none
  latest_charge owner credential moment (c ∷ cs) =
      let rest = latest_charge owner credential moment cs in
      if has_started owner credential moment c then some (later_charge c rest) else rest
