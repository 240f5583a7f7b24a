-- ===== src/Units.antt =====
-- app/services/billing_units.py: what the stored snapshots and configuration rows say of each
-- recurring charge unit. A calendar date is its day number, counted from 0001-01-01.
pub mod Snapshots
pub mod Resolve
pub mod Cancel
use token_board.Base.{
  ℕ, suc, ◌+◌, ◌-◌, ◌*◌, ◌/◌, Bool, true, false, not, Option, none, some, leb, if◌then◌else◌,
}
use token_board.Time.{us_per_second, us_per_day, month_start, month_of}
use token_board.Time.Stamps.{TimeField, optional_timestamp}
use token_board.Usage.{Snapshot, Stored, payload, Subscription, Month}

abbrev pub observed_period_max_age : ℕ
observed_period_max_age = 48 * 3600 * us_per_second

-- `abs(a - b)`.
abbrev pub distance : ℕ → ℕ → ℕ
distance a b = (a - b) + (b - a)

pub record ObservedPeriod : Type 0 where
  pub start : ℕ
  pub end : ℕ
  pub checked_at : ℕ

unfoldable pub is_fresh : ObservedPeriod → ℕ → Bool
is_fresh p moment = leb (distance moment p.checked_at) observed_period_max_age

pub record SubscriptionState : Type 0 where
  pub inactive : Bool
  pub error_at : Option ℕ
  pub resumed_at : Option ℕ

abbrev pub no_verdict : SubscriptionState
no_verdict = record { inactive = false; error_at = none; resumed_at = none }

-- The period of three timestamps that are all there.
unfoldable pub observed_of : Option ℕ → Option ℕ → Option ℕ → Option ObservedPeriod
observed_of none start end = none
observed_of (some checked) none end = none
observed_of (some checked) (some start) none = none
observed_of (some checked) (some start) (some end) =
    some (record { start = start; end = end; checked_at = checked })

unfoldable pub monthly_of : TimeField → Option Month → Option ObservedPeriod
unfolding observed_of optional_timestamp
monthly_of checked_at none = none
monthly_of checked_at (some m) =
    observed_of (optional_timestamp checked_at) (optional_timestamp m.start)
      (optional_timestamp m.end)

unfoldable pub period_of_snapshot : Snapshot → Option ObservedPeriod
unfolding monthly_of
period_of_snapshot s = elim s.error [
  | some _ ↦ none
  | none ↦ monthly_of s.checked_at s.monthly_period
]

unfoldable pub parse_observed_period : Stored → Option ObservedPeriod
unfolding period_of_snapshot payload
parse_observed_period raw = elim (payload raw) [ none ↦ none | some s ↦ period_of_snapshot s ]

abbrev pub is_inactive : Subscription → Bool
is_inactive Subscription.inactive = true
is_inactive _ = false

unfoldable pub state_of_snapshot : Snapshot → SubscriptionState
unfolding optional_timestamp
state_of_snapshot s = record {
  inactive = is_inactive s.subscription;
  error_at = optional_timestamp s.error_at;
  resumed_at = optional_timestamp s.resumed_at;
}

unfoldable pub parse_subscription_state : Stored → SubscriptionState
unfolding state_of_snapshot payload
parse_subscription_state raw = elim (payload raw) [
  | none ↦ no_verdict
  | some s ↦ state_of_snapshot s
]

-- `observed_period_end`.
unfoldable pub fresh_end : Option ObservedPeriod → ℕ → Option ℕ
unfolding is_fresh
fresh_end none moment = none
fresh_end (some p) moment = if is_fresh p moment then some p.end else none

unfoldable pub observed_period_end : Stored → ℕ → Option ℕ
unfolding fresh_end parse_observed_period
observed_period_end raw moment = fresh_end (parse_observed_period raw) moment

pub data Currency : Type 0 where
  cny : Currency
  foreign : ℕ → Currency

pub data UnitId : Type 0 where
  credential contract instance_of : ℕ → UnitId

pub data OwnerKind : Type 0 where
  proxy agent : OwnerKind

pub data ChargeDomain : Type 0 where
  proxy_credential proxy_subscription agent_subscription : ChargeDomain

pub data KeyMasked : Type 0 where
  none_masked subscription_key : KeyMasked
  masked : ℕ → KeyMasked

-- Names, uuids and masked keys are compared only, so they are numbers.
pub record BillingUnit : Type 0 where
  pub billing_unit_id : UnitId
  pub owner_id : ℕ
  pub account_id : ℕ
  pub owner_kind : OwnerKind
  pub charge_domain : ChargeDomain
  pub valid_from : ℕ
  pub ends_at : Option ℕ
  pub currency : Currency
  pub ends_on : Option ℕ
  pub credential_uuid : Option ℕ
  pub credential_runtime_id : Option ℕ
  pub key_masked : KeyMasked
  pub contract_id : Option ℕ
  pub subscription_id : Option ℕ
  pub observed_period : Option ObservedPeriod
  pub subscription : SubscriptionState
  pub usage_tracked : Bool
  pub usage_present : Bool
  pub created_at : Option ℕ

-- `date.day`.
unfoldable pub day_of_month : ℕ → ℕ
day_of_month day = suc (day - month_start (month_of day))

unfoldable pub anchor_day : BillingUnit → ℕ
unfolding day_of_month
anchor_day u = day_of_month u.valid_from

-- `as_utc(unit.valid_from)`: midnight of the date.
abbrev pub midnight : ℕ → ℕ
midnight day = day * us_per_day

unfoldable pub observed_fresh : Option ObservedPeriod → ℕ → Bool
unfolding is_fresh
observed_fresh none moment = false
observed_fresh (some p) moment = is_fresh p moment

unfoldable pub lapse_verdict : SubscriptionState → ℕ → Bool
lapse_verdict state moment = elim state.error_at [
  | none ↦ false
  | some evidence ↦
      if not state.inactive then false else leb (distance moment evidence) observed_period_max_age
]

unfoldable pub lapse_verdict_fresh : BillingUnit → ℕ → Bool
unfolding lapse_verdict
lapse_verdict_fresh u moment = lapse_verdict u.subscription moment
