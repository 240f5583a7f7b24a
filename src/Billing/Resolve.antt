-- ===== src/Billing/Resolve.antt =====
-- `resolve_unit_period`: the ledger wins while a recorded charge covers the moment; otherwise a
-- unit rolls on from the end of its latest charge, unless a verdict suspends it.
pub mod Cases
pub mod Suspended
use token_board.Base.{
  ℕ, ◌+◌, ◌*◌, Bool, false, not, ◌&&◌, Option, none, some, List, leb, ltb, if◌then◌else◌, Result,
  ok, ◌>>=◌,
}
use token_board.Time.{us_per_second, BillingPeriod, billing_period, whole_second}
use token_board.Units.{
  ObservedPeriod, BillingUnit, anchor_day, midnight, lapse_verdict_fresh, is_fresh,
}
use token_board.Billing.{Charge, latest_charge}

abbrev pub observation_grace : ℕ
observation_grace = 15 * 60 * us_per_second

-- A new usage-tracked key without a snapshot waits for its first observation.
unfoldable pub awaits_observation : BillingUnit → ℕ → Bool
awaits_observation u moment = elim u.created_at [
  | none ↦ false
  | some created ↦
      u.usage_tracked && not u.usage_present && ltb moment (created + observation_grace)
]

-- `start = resumed_at` where that is later.
unfoldable pub raise_to : Option ℕ → ℕ → ℕ
raise_to none start = start
raise_to (some floor) start = if ltb start floor then floor else start

abbrev pub or_else : Option ℕ → ℕ → ℕ
or_else none b = b
or_else (some a) b = a

-- The anchor calendar.
unfoldable pub anchored : BillingUnit → Option ℕ → BillingPeriod → ℕ × ℕ
unfolding raise_to
anchored u previous_end anchor =
    (raise_to u.subscription.resumed_at (or_else previous_end anchor.start), anchor.end)

-- The start that an observed period gives: not before the resume, nor before the unit's validity.
unfoldable pub observed_start : BillingUnit → Option ℕ → ObservedPeriod → ℕ
unfolding raise_to
observed_start u previous_end observed =
    raise_to (some (midnight u.valid_from))
      (raise_to u.subscription.resumed_at (or_else previous_end observed.start))

-- The observed end, or the calendar's where that is not after the start.
unfoldable pub observed_range : BillingUnit → ℕ → ℕ → Result (ℕ × ℕ)
observed_range u start end =
    if leb end start
    then (billing_period start (anchor_day u) >>= λ p. ok (start, p.end))
    else ok (start, end)

unfoldable pub rolled :
    BillingUnit → ℕ → Option ℕ → BillingPeriod → Option ObservedPeriod → Result (ℕ × ℕ)
unfolding anchored observed_start observed_range is_fresh
rolled u moment previous_end anchor none = ok (anchored u previous_end anchor)
rolled u moment previous_end anchor (some observed) =
    if is_fresh observed moment
    then observed_range u (observed_start u previous_end observed) observed.end
    else ok (anchored u previous_end anchor)

unfoldable pub open_period : BillingUnit → ℕ → Option ℕ → Result (Option (ℕ × ℕ))
unfolding rolled
open_period u moment previous_end = do
  anchor ← billing_period moment (anchor_day u)
  period ← rolled u moment previous_end anchor u.observed_period
  ok (some period)

unfoldable pub roll : BillingUnit → ℕ → Option ℕ → Result (Option (ℕ × ℕ))
unfolding open_period awaits_observation
roll u moment previous_end =
    if lapse_verdict_fresh u moment
    then ok none
    else if awaits_observation u moment
    then ok none
    else open_period u moment previous_end

module _ {F : Type 0} where
  -- `WHERE contract_id=? AND credential_uuid IS ? AND period_start<=?`: NULL equals no contract.
  unfoldable pub latest_of_unit : BillingUnit → ℕ → List (Charge F) → Option (Charge F)
  unfolding latest_charge
  latest_of_unit u moment charges = elim u.contract_id [
    | none ↦ none
    | some contract ↦ latest_charge contract u.credential_uuid moment charges
  ]

  unfoldable pub resolve_from : BillingUnit → ℕ → Option (Charge F) → Result (Option (ℕ × ℕ))
  unfolding roll
  resolve_from u moment none = roll u moment none
  resolve_from u moment (some row) =
      if ltb moment row.period_end
      then ok (some (row.period_start, row.period_end))
      else roll u moment (some row.period_end)

  unfoldable pub resolve_unit_period : List (Charge F) → BillingUnit → ℕ → Result (Option (ℕ × ℕ))
  unfolding resolve_from latest_of_unit
  resolve_unit_period charges u at =
      let moment = whole_second at in
      if ltb moment (midnight u.valid_from)
      then ok none
      else resolve_from u moment (latest_of_unit u moment charges)
