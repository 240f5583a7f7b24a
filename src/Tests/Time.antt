-- ===== src/Tests/Time.antt =====
-- Billing periods of the year 2026.
use token_board.Base.{◌<◌, ◌≡◌, refl, arith, ok}
use token_board.Time.{
  month_start, month_of, search_month, days_in_month, is_leap, days_before_year, month_length,
  days_before_month, month_anchor, month_before, BillingPeriod, anchored_period, billing_period,
  next_billing_period,
}
use token_board.Time.Period.{billing_period_contains, billing_period_stable, Returns}
use token_board.Time.Chain.{next_billing_period_contiguous}
use token_board.Tests.Data.{january_end, mid_february, february_end, second_month, last_november}

-- The anchor day 31 falls on the last day of February.
abbrev short_february : BillingPeriod
short_february = record { start = january_end; end = february_end; anchor_day = 31 }

billing_period_short : billing_period mid_february 31 ≡ ok short_february
unfolding billing_period anchored_period month_anchor month_before month_of search_month month_start
    days_in_month days_before_year days_before_month month_length is_leap
billing_period_short = refl

billing_period_contains_example :
    (p : BillingPeriod) × (billing_period mid_february 31 ≡ ok p) × Returns mid_february 31 p
billing_period_contains_example =
    billing_period_contains mid_february 31 (omega arith) (omega arith)
      (omega (arith, second_month)) (omega (arith, last_november))

billing_period_stable_example : billing_period january_end 31 ≡ ok short_february
billing_period_stable_example =
    billing_period_stable mid_february january_end 31 billing_period_short (omega arith)
      (omega arith)

next_billing_period_contiguous_example :
    (q : BillingPeriod) × (next_billing_period january_end 31 ≡ ok q)
    × (q.start ≡ february_end)
    × (q.anchor_day ≡ 31)
    × (february_end < q.end)
next_billing_period_contiguous_example =
    next_billing_period_contiguous mid_february 31 billing_period_short
      (omega (arith, last_november))
