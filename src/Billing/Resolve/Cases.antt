-- ===== src/Billing/Resolve/Cases.antt =====
-- What a resolved period is: one on record, or a new one that overlaps none of the unit's past.
use mathlib.Core.Path.{subst}
use mathlib.Core.Option.{some-injective}
use token_board.Base.{
  ℕ, ◌≤◌, ◌<◌, ◌≡◌, refl, sym, ◌⊎◌, inl, inr, Option, none, some, List, arith, leb, ltb, ltb→lt,
  Bool-cases, ok, ok-injective, >>=-returns, ◌>>=◌,
}
use token_board.Time.{BillingPeriod, billing_period, whole_second}
use token_board.Time.Period.{billing_period-bounds}
use token_board.Units.{
  ObservedPeriod, BillingUnit, anchor_day, midnight, is_fresh, lapse_verdict_fresh,
}
use token_board.Billing.{Charge}
use token_board.Billing.Resolve.{
  awaits_observation, raise_to, anchored, observed_start, observed_range, rolled, open_period, roll,
  resolve_from, resolve_unit_period, latest_of_unit,
}

-- The unit's resume stamp, if it has one, is not in the future.
abbrev pub ResumedBy : Option ℕ → ℕ → Type 0
ResumedBy none moment = Unit
ResumedBy (some r) moment = r ≤ moment

-- A period that begins at or after the end of the latest charge, and is not empty.
abbrev pub Opens : Option ℕ → ℕ × ℕ → Type 0
Opens none (a, b) = a < b
Opens (some previous) (a, b) = (previous ≤ a) × (a < b)

raise_to-ge : (floor : Option ℕ) (start : ℕ) → start ≤ raise_to floor start
unfolding raise_to
raise_to-ge none start = omega arith
raise_to-ge (some floor) start = ground arith

raise_to-le :
    (floor : Option ℕ) (start moment : ℕ)
    → ResumedBy floor moment
    → start ≤ moment
    → raise_to floor start ≤ moment
unfolding raise_to
raise_to-le none start moment h k = k
raise_to-le (some floor) start moment h k = ground arith

abbrev ReachedBy : Option ℕ → ℕ → Type 0
ReachedBy = ResumedBy

anchored-Opens :
    (u : BillingUnit) (moment : ℕ) (previous : Option ℕ) (p : BillingPeriod)
    → (p.start ≤ moment) × (moment < p.end)
    → ResumedBy u.subscription.resumed_at moment
    → ReachedBy previous moment
    → Opens previous (anchored u previous p)
unfolding anchored
anchored-Opens u moment none p (from, to) resumed reached =
    omega (arith, raise_to-le u.subscription.resumed_at p.start moment resumed from)
anchored-Opens u moment (some previous) p (from, to) resumed reached = omega (
  arith,
  raise_to-le u.subscription.resumed_at previous moment resumed reached,
  raise_to-ge u.subscription.resumed_at previous,
)

-- A period from a start on that is not before the previous end.
abbrev StartsAt : ℕ → ℕ × ℕ → Type 0
StartsAt start period = (period.0 ≡ start) × (start < period.1)

observed_range-StartsAt :
    (u : BillingUnit) (start end : ℕ) {period : ℕ × ℕ}
    → observed_range u start end ≡ ok period
    → StartsAt start period
unfolding observed_range
observed_range-StartsAt u start end h = elim (Bool-cases (leb end start)) [
  | inl past ↦
      let (p, e, h1) =
        >>=-returns (billing_period start (anchor_day u)) (λ p. ok (start, p.end)) (rw past at h) in
      let (_, to) = billing_period-bounds start (anchor_day u) e in
      subst (StartsAt start) {x = (start, p.end)} (ok-injective h1) (refl, to)
  | inr ahead ↦
      subst (StartsAt start) {x = (start, end)} (ok-injective (rw ahead at h)) (refl, ground arith)
]

Opens-of_start :
    (u : BillingUnit) (previous : Option ℕ) (o : ObservedPeriod) (period : ℕ × ℕ)
    → StartsAt (observed_start u previous o) period
    → Opens previous period
unfolding observed_start
Opens-of_start u none o period (e, lt) = rw (← e) at lt
Opens-of_start u (some previous) o period (e, lt) = (
  omega (
    arith,
    raise_to-ge u.subscription.resumed_at previous,
    raise_to-ge (some (midnight u.valid_from)) (raise_to u.subscription.resumed_at previous),
  ),
  omega arith,
)

rolled-Opens :
    (u : BillingUnit) (moment : ℕ) (previous : Option ℕ) (p : BillingPeriod)
    (o : Option ObservedPeriod) {period : ℕ × ℕ}
    → (p.start ≤ moment) × (moment < p.end)
    → ResumedBy u.subscription.resumed_at moment
    → ReachedBy previous moment
    → rolled u moment previous p o ≡ ok period
    → Opens previous period
unfolding rolled
rolled-Opens u moment previous p none within resumed reached h =
    subst (Opens previous) (ok-injective h)
      (anchored-Opens u moment previous p within resumed reached)
rolled-Opens u moment previous p (some o) {period} within resumed reached h =
    elim (Bool-cases (is_fresh o moment)) [
      | inl fresh ↦
          Opens-of_start u previous o period
            (observed_range-StartsAt u (observed_start u previous o) o.end (rw fresh at h))
      | inr stale ↦
          subst (Opens previous) (ok-injective (rw stale at h))
            (anchored-Opens u moment previous p within resumed reached)
    ]

open_period-Opens :
    (u : BillingUnit) (moment : ℕ) (previous : Option ℕ) {period : ℕ × ℕ}
    → ResumedBy u.subscription.resumed_at moment
    → ReachedBy previous moment
    → open_period u moment previous ≡ ok (some period)
    → Opens previous period
unfolding open_period
open_period-Opens u moment previous resumed reached h =
    let (anchor, e, h1) =
      >>=-returns (billing_period moment (anchor_day u))
        (λ anchor. rolled u moment previous anchor u.observed_period >>= λ p. ok (some p)) h in
    let (period', e2, h2) =
      >>=-returns (rolled u moment previous anchor u.observed_period) (λ p. ok (some p)) h1 in
    subst (Opens previous) (some-injective _ _ (ok-injective h2)) (
      rolled-Opens u moment previous anchor u.observed_period
        (billing_period-bounds moment (anchor_day u) e) resumed reached e2)

roll-Opens :
    (u : BillingUnit) (moment : ℕ) (previous : Option ℕ) {period : ℕ × ℕ}
    → ResumedBy u.subscription.resumed_at moment
    → ReachedBy previous moment
    → roll u moment previous ≡ ok (some period)
    → Opens previous period
unfolding roll
roll-Opens u moment previous resumed reached h = elim (Bool-cases (lapse_verdict_fresh u moment)) [
  | inl lapsed ↦ let h' = rw lapsed at h in cc
  | inr billed ↦ elim (Bool-cases (awaits_observation u moment)) [
    | inl waiting ↦ let h' = rw (billed, waiting) at h in cc
    | inr seen ↦ open_period-Opens u moment previous resumed reached (rw (billed, seen) at h)
  ]
]

module _ {F : Type 0} where
  -- The row that covers the moment, with its period unchanged.
  abbrev pub Covers : ℕ → Option (Charge F) → ℕ × ℕ → Type 0
  Covers moment none period = ⊥
  Covers moment (some row) period =
      (moment < row.period_end) × (period ≡ (row.period_start, row.period_end))

  abbrev pub end_of : Option (Charge F) → Option ℕ
  end_of none = none
  end_of (some row) = some row.period_end

  resolve_from_cases :
      (u : BillingUnit) (moment : ℕ) (latest : Option (Charge F)) {period : ℕ × ℕ}
      → ResumedBy u.subscription.resumed_at moment
      → resolve_from u moment latest ≡ ok (some period)
      → Covers moment latest period ⊎ Opens (end_of latest) period
  unfolding resolve_from
  resolve_from_cases u moment none resumed h = inr (roll-Opens u moment none resumed tt h)
  resolve_from_cases u moment (some row) resumed h = elim (Bool-cases (ltb moment row.period_end)) [
    | inl covered ↦
        let h' = rw covered at h in
        inl (ltb→lt _ _ covered, sym (some-injective _ _ (ok-injective h')))
    | inr past ↦
        inr (roll-Opens u moment (some row.period_end) resumed (ground arith) (rw past at h))
  ]

  -- A period that is resolved at a moment (with a resume stamp that is not in the future) is either
  -- that of the latest charge on record, which covers the moment, or a non-empty period that
  -- starts at or after the latest charge's end: no stretch of time is charged twice.
  pub resolve_unit_period_cases :
      (charges : List (Charge F)) (u : BillingUnit) (at : ℕ) {period : ℕ × ℕ}
      → ResumedBy u.subscription.resumed_at (whole_second at)
      → resolve_unit_period charges u at ≡ ok (some period)
      → (midnight u.valid_from ≤ whole_second at)
        × (Covers (whole_second at) (latest_of_unit u (whole_second at) charges) period
            ⊎ Opens (end_of (latest_of_unit u (whole_second at) charges)) period)
  unfolding resolve_unit_period
  resolve_unit_period_cases charges u at resumed h =
      elim (Bool-cases (ltb (whole_second at) (midnight u.valid_from))) [
        | inl early ↦ let h' = rw early at h in cc
        | inr valid ↦ (
          ground arith,
          resolve_from_cases u (whole_second at) (latest_of_unit u (whole_second at) charges)
              resumed (rw valid at h),
        )
      ]
