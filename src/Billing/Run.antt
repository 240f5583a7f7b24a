-- ===== src/Billing/Run.antt =====
-- The billing runs: `materialize_period_charges_conn` over the proxy units and
-- `materialize_agent_subscription_charges_conn` over the agent units, up to the export events, which
-- `Events` adds.
pub mod Events
pub mod Safe
pub mod Whole
pub mod Agents
use token_board.Base.{
  ℕ, ◌+◌, ◌/◌, Bool, true, false, ◌&&◌, ◌||◌, not, Option, none, some, List, [], ◌∷◌, map, ◌==◌,
  if◌then◌else◌, Result, ok, err, ◌>>=◌,
}
use token_board.Time.{us_per_day, BillingPeriod, billing_period, whole_second, month_count}
use token_board.Units.{Currency, cny, foreign, BillingUnit, anchor_day}
use token_board.Units.Resolve.{
  Contract, Credential, Instance, Binding, proxy_units, agent_units, contains,
}
use token_board.Billing.{Charge, find_charge, same_option}
use token_board.Billing.Resolve.{resolve_unit_period}
use token_board.Billing.Stream.{Pricing, Stream, Progress, bill_resolved, bill_chain}

abbrev pub proxy_stream : BillingUnit → Stream
proxy_stream u = record {
  owner = u.owner_id;
  credential = u.credential_uuid;
  subscription_id = none;
  software_id = none;
  ends_at = u.ends_at;
  ends_on = none;
}

abbrev pub agent_stream : BillingUnit → Stream
agent_stream u = record {
  owner = u.owner_id;
  credential = none;
  subscription_id = u.subscription_id;
  software_id = some u.account_id;
  ends_at = none;
  ends_on = u.ends_on;
}

-- The table, the period starts met and the count, between two units.
pub record Tally (F : Type 0) : Type 0 where
  pub charges : List (Charge F)
  pub starts : List ℕ
  pub changed : ℕ

abbrev pub is_cny : Currency → Bool
is_cny cny = true
is_cny (foreign _) = false

abbrev pub is_set {ℓ} : {A : Type ℓ} → Option A → Bool
is_set none = false
is_set (some _) = true

module _ {F : Type 0} where
  abbrev pub progress_of : Tally F → Currency → Progress F
  progress_of t currency = record { charges = t.charges; currency = currency; changed = t.changed }

  unfoldable pub bill_proxy_period :
      Pricing F → BillingUnit → ℕ → Option (ℕ × ℕ) → Tally F → Tally F
  unfolding bill_resolved
  bill_proxy_period p u moment none t = t
  bill_proxy_period p u moment (some period) t =
      let st = bill_resolved p (proxy_stream u) moment moment period (progress_of t u.currency) in
      record {
        charges = st.charges;
        starts = whole_second period.0 ∷ t.starts;
        changed = st.changed;
      }

  -- One round of the proxy loop: the unit reads the rows of the units before it.
  unfoldable pub bill_proxy_unit : Pricing F → ℕ → BillingUnit → Tally F → Result (Tally F)
  unfolding bill_proxy_period resolve_unit_period
  bill_proxy_unit p moment u t = resolve_unit_period t.charges u moment >>= λ period.
      ok (bill_proxy_period p u moment period t)

  unfoldable pub bill_proxy_units : Pricing F → ℕ → List BillingUnit → Tally F → Result (Tally F)
  unfolding bill_proxy_unit
  bill_proxy_units p moment [] t = ok t
  bill_proxy_units p moment (u ∷ us) t =
      bill_proxy_unit p moment u t >>= λ t'. bill_proxy_units p moment us t'

  -- The WHERE clause of `_finalize_period_stream`.
  abbrev pub can_freeze : List ℕ → Charge F → Bool
  can_freeze starts c =
      not (is_set c.finalized)
      && is_set c.normalized
      && (is_cny c.currency || is_set c.fx_rate_date)
      && contains starts c.period_start

  abbrev pub freeze : ℕ → List ℕ → Charge F → Charge F
  freeze now starts c = if can_freeze starts c then record c { finalized = some now } else c

  unfoldable pub finalize_charges : ℕ → List ℕ → List (Charge F) → List (Charge F)
  finalize_charges now starts = map (freeze now starts)

  unfoldable pub count_frozen : List ℕ → List (Charge F) → ℕ
  count_frozen starts [] = 0
  count_frozen starts (c ∷ cs) = (if can_freeze starts c then 1 else 0) + count_frozen starts cs

  unfoldable pub finalize_period_stream : ℕ → Tally F → List (Charge F) × ℕ
  unfolding finalize_charges count_frozen
  finalize_period_stream now t =
      (finalize_charges now t.starts t.charges, t.changed + count_frozen t.starts t.charges)

  abbrev pub start_tally : List (Charge F) → Tally F
  start_tally charges = record { charges = charges; starts = []; changed = 0 }

  -- `materialize_period_charges_conn` before its last call.
  unfoldable pub bill_proxy_ledger :
      Pricing F
      → List Contract
      → List Credential
      → ℕ
      → List (Charge F)
      → Result (List (Charge F) × ℕ)
  unfolding bill_proxy_units finalize_period_stream proxy_units
  bill_proxy_ledger p contracts credentials at charges = do
    let moment = whole_second at
    units ← proxy_units contracts credentials moment
    t ← bill_proxy_units p moment units (start_tally charges)
    ok (finalize_period_stream moment t)

  -- `_attach_agent_charge_owner`: an unowned charge of the current period takes the bound software,
  -- unless an old allocation (a list of charge ids) owns it.
  abbrev pub is_unowned : List ℕ → ℕ → ℕ → Charge F → Bool
  is_unowned allocated owner start c =
      (c.owner == owner)
      && (c.period_start == start)
      && not (is_set c.software_id)
      && not (contains allocated c.id)

  abbrev pub attach : List ℕ → ℕ → ℕ → ℕ → Charge F → Charge F
  attach allocated owner software start c =
      if is_unowned allocated owner start c then record c { software_id = some software } else c

  unfoldable pub attach_owner : List ℕ → ℕ → ℕ → ℕ → List (Charge F) → List (Charge F)
  attach_owner allocated owner software start = map (attach allocated owner software start)

  unfoldable pub count_unowned : List ℕ → ℕ → ℕ → List (Charge F) → ℕ
  count_unowned allocated owner start [] = 0
  count_unowned allocated owner start (c ∷ cs) =
      (if is_unowned allocated owner start c then 1 else 0) + count_unowned allocated owner start cs

  unfoldable pub attached : List ℕ → BillingUnit → ℕ → Tally F → Tally F
  unfolding attach_owner count_unowned
  attached allocated u start t = record {
    charges = attach_owner allocated u.owner_id u.account_id start t.charges;
    starts = start ∷ t.starts;
    changed = t.changed + count_unowned allocated u.owner_id start t.charges;
  }

  unfoldable pub tally_of : List ℕ → Progress F → Tally F
  tally_of starts st = record { charges = st.charges; starts = starts; changed = st.changed }

  -- One round of the agent loop. The rounds of `bill_chain` are the months of the calendar, and
  -- one more, at most; `none` means that they did not do.
  unfoldable pub bill_agent_period :
      Pricing F → List ℕ → ℕ → BillingUnit → BillingPeriod → Tally F → Option (Result (Tally F))
  unfolding tally_of
  bill_agent_period p allocated moment u period t =
      let owned = attached allocated u (whole_second period.start) t in
      let billed =
        bill_chain month_count p (agent_stream u) (anchor_day u) moment (moment / us_per_day)
          (period.start, period.end) (progress_of owned u.currency) in
      elim billed [
        | none ↦ none
        | some (err e) ↦ some (err e)
        | some (ok st) ↦ some (ok (tally_of owned.starts st))
      ]

  unfoldable pub bill_agent_units :
      Pricing F → List ℕ → ℕ → List BillingUnit → Tally F → Option (Result (Tally F))
  unfolding bill_agent_period
  bill_agent_units p allocated moment [] t = some (ok t)
  bill_agent_units p allocated moment (u ∷ us) t = elim (billing_period moment (anchor_day u)) [
    | err e ↦ some (err e)
    | ok period ↦ elim (bill_agent_period p allocated moment u period t) [
      | none ↦ none
      | some (err e) ↦ some (err e)
      | some (ok t') ↦ bill_agent_units p allocated moment us t'
    ]
  ]

  -- `materialize_agent_subscription_charges_conn` before its last call.
  unfoldable pub bill_agent_ledger :
      Pricing F
      → List ℕ
      → List Instance
      → List Binding
      → Bool
      → ℕ
      → List (Charge F)
      → Option (Result (List (Charge F) × ℕ))
  unfolding bill_agent_units finalize_period_stream agent_units
  bill_agent_ledger p allocated instances bindings include_ended at charges =
      let moment = whole_second at in
      elim (bill_agent_units p allocated moment
        (agent_units instances bindings include_ended moment) (start_tally charges)) [
          | none ↦ none
          | some (err e) ↦ some (err e)
          | some (ok t) ↦ some (ok (finalize_period_stream (moment / us_per_day) t))
        ]

  -- `proxy_billing_ready`: every unit of the account with a period to bill has its row.
  unfoldable pub has_row : List (Charge F) → BillingUnit → Option (ℕ × ℕ) → Bool
  unfolding find_charge
  has_row charges u none = true
  has_row charges u (some period) = elim u.contract_id [
    | none ↦ false
    | some contract ↦
        is_set (find_charge contract u.credential_uuid (whole_second period.0) charges)
  ]

  unfoldable pub units_ready : List (Charge F) → ℕ → ℕ → List BillingUnit → Result Bool
  unfolding has_row resolve_unit_period
  units_ready charges account moment [] = ok true
  units_ready charges account moment (u ∷ us) =
      let rest = units_ready charges account moment us in
      if u.account_id == account
      then (resolve_unit_period charges u moment >>= λ period.
          if has_row charges u period then rest else ok false)
      else rest

  unfoldable pub proxy_billing_ready :
      List Contract → List Credential → List (Charge F) → ℕ → ℕ → Result Bool
  unfolding units_ready proxy_units
  proxy_billing_ready contracts credentials charges account at = do
    let moment = whole_second at
    units ← proxy_units contracts credentials moment
    units_ready charges account moment units

  -- `agent_billing_ready`: every instance of the subscription has the row of its current period.
  unfoldable pub instances_ready : List (Charge F) → ℕ → ℕ → List BillingUnit → Result Bool
  unfolding find_charge
  instances_ready charges subscription moment [] = ok true
  instances_ready charges subscription moment (u ∷ us) =
      let rest = instances_ready charges subscription moment us in
      if same_option u.subscription_id (some subscription)
      then (billing_period moment (anchor_day u) >>= λ p.
          if is_set (find_charge u.owner_id none (whole_second p.start) charges)
          then rest
          else ok false)
      else rest

  unfoldable pub agent_billing_ready :
      List Instance → List Binding → List (Charge F) → ℕ → ℕ → Result Bool
  unfolding instances_ready agent_units
  agent_billing_ready instances bindings charges subscription at =
      let moment = whole_second at in
      instances_ready charges subscription moment (agent_units instances bindings false moment)
