-- ===== src/Time/Chain.antt =====
-- `next_billing_period`: the periods of one anchor follow one another without gap or overlap.
use token_board.Base.{
  ℕ, suc, ◌+◌, ◌*◌, ◌≤◌, ◌<◌, ◌≡◌, refl, sym, ap, arith, ok, ltb, ltb→lt, lt→ltb, Bool-cases, inl,
  inr,
}
use token_board.Time.{
  us_per_day, month_count, moment_end, days_before_year, days_before_month, month_start,
  BillingPeriod, billing_period, next_billing_period,
}
use token_board.Time.Months.{days_in_month_bounds, month_start-suc, month_start_mono}
use token_board.Time.Period.{
  boundary, boundary_within, period_from, billing_period-eq, billing_period-inv,
}

-- Thirty-two days after one boundary lie between the next one and the one after that.
shift_between :
    (anchor s : ℕ)
    → 1 ≤ anchor
    → anchor ≤ 31
    → (boundary anchor (suc s) ≤ boundary anchor s + 32 * us_per_day)
      × (boundary anchor s + 32 * us_per_day < boundary anchor (suc (suc s)))
shift_between anchor s lo hi = omega (
  arith,
  month_start-suc s,
  month_start-suc (suc s),
  days_in_month_bounds s,
  days_in_month_bounds (suc s),
  days_in_month_bounds (suc (suc s)),
)

calendar_end : month_start month_count * us_per_day ≡ moment_end
unfolding month_start days_before_year days_before_month
calendar_end = refl

-- A month that starts before month `n` is before it.
month-lt : (m n : ℕ) → month_start m < month_start n → m < n
month-lt m n h = elim (Bool-cases (ltb m n)) [
  | inl below ↦ ltb→lt m n below
  | inr above ↦ absurd (omega (arith, month_start_mono n m (ground arith)))
]

next_period :
    (anchor s : ℕ)
    → 1 ≤ anchor
    → anchor ≤ 31
    → suc (suc s) < month_count
    → next_billing_period (boundary anchor s) anchor ≡ ok (period_from anchor (suc s))
unfolding next_billing_period
next_period anchor s lo hi range =
    let (from, to) = shift_between anchor s lo hi in
    let inside : boundary anchor s + 32 * us_per_day < moment_end = omega (
      arith,
      calendar_end,
      boundary_within anchor (suc (suc s)),
      month_start_mono (suc (suc (suc s))) month_count range,
    ) in
    rw (lt→ltb _ _ inside)
      (billing_period-eq (boundary anchor s + 32 * us_per_day) anchor (suc s) lo hi range from to)

-- The period after a returned one starts exactly where that one ends, with the same anchor: the
-- chain of periods neither skips nor bills twice a moment. It exists before November of year 9999.
pub next_billing_period_contiguous :
    (t anchor : ℕ) {p : BillingPeriod}
    → billing_period t anchor ≡ ok p
    → p.end < month_start 119_986 * us_per_day
    → (q : BillingPeriod) × (next_billing_period p.start anchor ≡ ok q)
      × (q.start ≡ p.end)
      × (q.anchor_day ≡ p.anchor_day)
      × (p.end < q.end)
next_billing_period_contiguous t anchor h below =
    let (lo, hi, (s, range, e, _, _)) = billing_period-inv t anchor h in
    let end_month : suc s < 119_986 =
      month-lt (suc s) 119_986 (omega (arith, rw e at below, boundary_within anchor (suc s))) in
    (
      period_from anchor (suc s),
      rw e (next_period anchor s lo hi (omega arith)),
      ap (λ (r : BillingPeriod). r.end) (sym e),
      ap (λ (r : BillingPeriod). r.anchor_day) (sym e),
      rw e (omega (arith, boundary_within anchor (suc s), boundary_within anchor (suc (suc s)))),
    )
