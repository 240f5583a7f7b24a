-- ===== src/Billing/Resolve/Suspended.antt =====
-- When a unit opens no new period, and that the resolver never raises on dates of the calendar.
use token_board.Base.{
  ℕ, ◌*◌, ◌≤◌, ◌<◌, ◌≡◌, refl, ◌⊎◌, inl, inr, true, Option, none, some, List, arith, leb, ltb,
  Bool-cases, Result, ok,
}
use token_board.Time.{
  us_per_day, month_start, month_of, BillingPeriod, billing_period, whole_second,
}
use token_board.Time.Months.{month_of_lem, month_start-suc, days_in_month_bounds}
use token_board.Time.Period.{billing_period_contains}
use token_board.Units.{
  ObservedPeriod, BillingUnit, anchor_day, midnight, is_fresh, lapse_verdict_fresh,
}
use token_board.Usage.{Snapshot, Stored, RawUsage}
use token_board.Usage.Poll.{answered, json, query_usage}
use token_board.Units.{parse_subscription_state, distance, observed_period_max_age}
use token_board.Units.Snapshots.{lapse_verdict_after_refusal}
use token_board.Billing.{Charge}
use token_board.Billing.Resolve.{
  awaits_observation, raise_to, anchored, observed_start, observed_range, rolled, open_period, roll,
  resolve_from, resolve_unit_period, latest_of_unit,
}
use token_board.Billing.Resolve.Cases.{Covers, end_of}

module _ {F : Type 0} where
  abbrev pub IsHeld : ℕ → Option (Charge F) → Result (Option (ℕ × ℕ)) → Type 0
  IsHeld moment latest r =
      (r ≡ ok none) ⊎ ((period : ℕ × ℕ) × (r ≡ ok (some period)) × Covers moment latest period)

  IsHeld-from :
      (u : BillingUnit) (moment : ℕ) (latest : Option (Charge F))
      → (lapse_verdict_fresh u moment ≡ true) ⊎ (awaits_observation u moment ≡ true)
      → IsHeld moment latest (resolve_from u moment latest)
  unfolding resolve_from roll
  IsHeld-from u moment none h = inl (ground arith)
  IsHeld-from u moment (some row) h = elim (Bool-cases (ltb moment row.period_end)) [
    | inl covered ↦ inr ((row.period_start, row.period_end), rw covered, (ground arith, refl))
    | inr past ↦ inl (ground arith)
  ]

  resolve_unit_period-IsHeld :
      (charges : List (Charge F)) (u : BillingUnit) (at : ℕ)
      → (lapse_verdict_fresh u (whole_second at) ≡ true)
        ⊎ (awaits_observation u (whole_second at) ≡ true)
      → IsHeld
          (whole_second at)
          (latest_of_unit u (whole_second at) charges)
          (resolve_unit_period charges u at)
  unfolding resolve_unit_period
  resolve_unit_period-IsHeld charges u at h =
      elim (Bool-cases (ltb (whole_second at) (midnight u.valid_from))) [
        | inl early ↦ inl (rw early)
        | inr valid ↦
            rw valid
              (IsHeld-from u (whole_second at) (latest_of_unit u (whole_second at) charges) h)
      ]

module _ {F : Type 0} where
  -- A query that the upstream refuses with the structured 403 suspends the unit's billing: read back
  -- by billing within 48 hours of the refusal, whatever was stored before it, the snapshot that the
  -- query leaves opens no period, so only a recorded charge that covers the moment is returned.
  pub refusal_holds_billing :
      (charges : List (Charge F)) (u : BillingUnit) (at observed : ℕ) (prior : Option Snapshot)
      (usage : Option RawUsage)
      → u.subscription
        ≡ parse_subscription_state
            (Stored.object (query_usage prior observed (answered 403 (json true usage))))
      → distance (whole_second at) (whole_second observed) ≤ observed_period_max_age
      → IsHeld
          (whole_second at)
          (latest_of_unit u (whole_second at) charges)
          (resolve_unit_period charges u at)
  unfolding lapse_verdict_fresh
  refusal_holds_billing charges u at observed prior usage e near =
      resolve_unit_period-IsHeld charges u at
        (inl (rw e (lapse_verdict_after_refusal prior observed (whole_second at) usage near)))

-- A moment from February of year 1 to October of year 9999.
abbrev pub InRange : ℕ → Type 0
InRange t = (month_start 1 * us_per_day ≤ t) × (t < month_start 119_986 * us_per_day)

abbrev pub AllInRange : Option ℕ → Type 0
AllInRange none = Unit
AllInRange (some t) = InRange t

anchor_day_bounds : (u : BillingUnit) → (1 ≤ anchor_day u) × (anchor_day u ≤ 31)
unfolding anchor_day
anchor_day_bounds u = omega (
  arith,
  month_of_lem u.valid_from,
  month_start-suc (month_of u.valid_from),
  days_in_month_bounds (month_of u.valid_from),
)

pub calendar_answers :
    (u : BillingUnit) (t : ℕ)
    → InRange t
    → (p : BillingPeriod) × (billing_period t (anchor_day u) ≡ ok p)
calendar_answers u t (from, to) =
    let (lo, hi) = anchor_day_bounds u in
    let (p, e, _) = billing_period_contains t (anchor_day u) lo hi from to in (p, e)

raise_to-InRange :
    (floor : Option ℕ) (start : ℕ)
    → AllInRange floor
    → InRange start
    → InRange (raise_to floor start)
unfolding raise_to
raise_to-InRange none start h k = k
raise_to-InRange (some floor) start h k = ground arith

abbrev StartInRange : Option ObservedPeriod → Type 0
StartInRange none = Unit
StartInRange (some o) = InRange o.start

-- The dates that a unit's rolling reads.
abbrev pub DatesInRange : BillingUnit → Option ℕ → Type 0
DatesInRange u previous =
    InRange (midnight u.valid_from)
    × AllInRange u.subscription.resumed_at
    × AllInRange previous
    × StartInRange u.observed_period

abbrev pub Answers : {A : Type 0} → Result A → Type 0
Answers {A} r = (a : A) × (r ≡ ok a)

observed_range-Answers :
    (u : BillingUnit) (start end : ℕ) → InRange start → Answers (observed_range u start end)
unfolding observed_range
observed_range-Answers u start end h = elim (Bool-cases (leb end start)) [
  | inl past ↦ let (p, e) = calendar_answers u start h in rw (past, e) ((start, p.end), refl)
  | inr ahead ↦ rw ahead ((start, end), refl)
]

observed_start-InRange :
    (u : BillingUnit) (previous : Option ℕ) (o : ObservedPeriod)
    → InRange (midnight u.valid_from)
    → AllInRange u.subscription.resumed_at
    → AllInRange previous
    → InRange o.start
    → InRange (observed_start u previous o)
unfolding observed_start
observed_start-InRange u none o v r p s =
    raise_to-InRange (some (midnight u.valid_from)) (raise_to u.subscription.resumed_at o.start) v
      (raise_to-InRange u.subscription.resumed_at o.start r s)
observed_start-InRange u (some previous) o v r p s =
    raise_to-InRange (some (midnight u.valid_from)) (raise_to u.subscription.resumed_at previous) v
      (raise_to-InRange u.subscription.resumed_at previous r p)

rolled-Answers :
    (u : BillingUnit) (moment : ℕ) (previous : Option ℕ) (p : BillingPeriod)
    (o : Option ObservedPeriod)
    → InRange (midnight u.valid_from)
    → AllInRange u.subscription.resumed_at
    → AllInRange previous
    → StartInRange o
    → Answers (rolled u moment previous p o)
unfolding rolled
rolled-Answers u moment previous p none v r q s = (anchored u previous p, refl)
rolled-Answers u moment previous p (some o) v r q s = elim (Bool-cases (is_fresh o moment)) [
  | inl fresh ↦ rw fresh (
      observed_range-Answers u (observed_start u previous o) o.end
        (observed_start-InRange u previous o v r q s))
  | inr stale ↦ rw stale (anchored u previous p, refl)
]

roll-Answers :
    (u : BillingUnit) (moment : ℕ) (previous : Option ℕ)
    → InRange moment
    → DatesInRange u previous
    → Answers (roll u moment previous)
unfolding roll open_period
roll-Answers u moment previous m (v, r, q, s) = elim (Bool-cases (lapse_verdict_fresh u moment)) [
  | inl lapsed ↦ rw lapsed (none, refl)
  | inr billed ↦ elim (Bool-cases (awaits_observation u moment)) [
    | inl waiting ↦ rw (billed, waiting) (none, refl)
    | inr seen ↦
        let (p, e) = calendar_answers u moment m in
        let (period, e') = rolled-Answers u moment previous p u.observed_period v r q s in
        rw (billed, seen, e, e') (some period, refl)
  ]
]

module _ {F : Type 0} where
  resolve_from-Answers :
      (u : BillingUnit) (moment : ℕ) (latest : Option (Charge F))
      → InRange moment
      → DatesInRange u (end_of latest)
      → Answers (resolve_from u moment latest)
  unfolding resolve_from
  resolve_from-Answers u moment none m d = roll-Answers u moment none m d
  resolve_from-Answers u moment (some row) m d = elim (Bool-cases (ltb moment row.period_end)) [
    | inl covered ↦ rw covered (some (row.period_start, row.period_end), refl)
    | inr past ↦ rw past (roll-Answers u moment (some row.period_end) m d)
  ]

  -- With every date from February of year 1 to October of year 9999 the resolver always answers:
  -- no calendar call in it raises.
  pub resolve_unit_period_total :
      (charges : List (Charge F)) (u : BillingUnit) (at : ℕ)
      → InRange (whole_second at)
      → DatesInRange u (end_of (latest_of_unit u (whole_second at) charges))
      → Answers (resolve_unit_period charges u at)
  unfolding resolve_unit_period
  resolve_unit_period_total charges u at m d =
      elim (Bool-cases (ltb (whole_second at) (midnight u.valid_from))) [
        | inl early ↦ rw early (none, refl)
        | inr valid ↦ rw valid (
            resolve_from-Answers u (whole_second at) (latest_of_unit u (whole_second at) charges) m
              d)
      ]
