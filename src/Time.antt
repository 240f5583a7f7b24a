-- ===== src/Time.antt =====
-- app/core/time.py: moments, the civil calendar and the billing period that contains a moment.
-- A moment is an aware UTC datetime, as microseconds since 0001-01-01T00:00:00Z, so `as_utc` is
-- the identity. A month is its index from January of year 1. `datetime` and `calendar` are
-- Python's: year 0 and year 10000 do not exist, and building a date there raises.
pub mod Months
pub mod Period
pub mod Chain
pub mod Stamps
use token_board.Base.{
  ℕ, zero, suc, ◌+◌, ◌-◌, ◌*◌, ◌/◌, ◌%◌, Bool, true, false, ◌&&◌, ◌||◌, not, min, ltb, leb, ◌==◌,
  if◌then◌else◌, Result, ok, err, value_error, overflow_error, ◌>>=◌,
}

abbrev pub us_per_second : ℕ
us_per_second = 1_000_000

abbrev pub us_per_day : ℕ
us_per_day = 86_400_000_000

-- The months of the years 1 to 9999.
abbrev pub month_count : ℕ
month_count = 119_988

-- The moments of those years.
abbrev pub moment_end : ℕ
moment_end = 3_652_059 * 86_400_000_000

-- `y` complete years have passed, so the year is `y + 1`.
unfoldable pub is_leap : ℕ → Bool
is_leap y = ((y + 1) % 4 == 0) && (not ((y + 1) % 100 == 0) || ((y + 1) % 400 == 0))

unfoldable pub days_before_year : ℕ → ℕ
days_before_year y = 365 * y + y / 4 + y / 400 - y / 100

-- `calendar.monthrange(year, month)[1]`; `k` is the month's number less 1.
unfoldable pub month_length : ℕ → ℕ → ℕ
month_length y k =
    if k == 1
    then (if is_leap y then 29 else 28)
    else if (k == 3) || (k == 5) || (k == 8) || (k == 10)
    then 30
    else 31

unfoldable pub days_before_month : ℕ → ℕ → ℕ
days_before_month y zero = 0
days_before_month y (suc k) = days_before_month y k + month_length y k

unfoldable pub days_in_month : ℕ → ℕ
days_in_month m = month_length (m / 12) (m % 12)

-- The days before the first day of a month.
unfoldable pub month_start : ℕ → ℕ
month_start m = days_before_year (m / 12) + days_before_month (m / 12) (m % 12)

unfoldable pub search_month : ℕ → ℕ → ℕ → ℕ
search_month zero day m = m
search_month (suc fuel) day m = elim (leb (month_start (suc m)) day) [
  | true ↦ search_month fuel day (suc m)
  | false ↦ m
]

-- The month that a day lies in: a year has 366 days at most, so the search begins early enough.
unfoldable pub month_of : ℕ → ℕ
month_of day = search_month (suc day) day (12 * (day / 366))

-- `moment.year` and `moment.month`.
abbrev pub month_at : ℕ → ℕ
month_at t = month_of (t / us_per_day)

-- `datetime(year, month, min(anchor, days), tzinfo=UTC)`.
unfoldable pub month_anchor : ℕ → ℕ → Result ℕ
month_anchor anchor m =
    if ltb m month_count
    then ok ((month_start m + (min anchor (days_in_month m) - 1)) * us_per_day)
    else err value_error

-- The month before January of year 1 is in year 0.
unfoldable pub month_before : ℕ → Result ℕ
month_before zero = err value_error
month_before (suc m) = ok m

pub record BillingPeriod : Type 0 where
  pub start : ℕ
  pub end : ℕ
  pub anchor_day : ℕ

unfoldable pub anchored_period : ℕ → ℕ → Result BillingPeriod
unfolding month_anchor month_before
anchored_period t anchor = do
  let m = month_at t
  here ← month_anchor anchor m
  s ← (if ltb t here then month_before m else ok m)
  start ← month_anchor anchor s
  end ← month_anchor anchor (suc s)
  ok (record { start = start; end = end; anchor_day = anchor })

unfoldable pub billing_period : ℕ → ℕ → Result BillingPeriod
unfolding anchored_period
billing_period t anchor =
    if leb 1 anchor && leb anchor 31 then anchored_period t anchor else err value_error

-- `start + timedelta(days=32)` past year 9999 raises.
unfoldable pub next_billing_period : ℕ → ℕ → Result BillingPeriod
unfolding billing_period
next_billing_period start anchor =
    let later = start + 32 * us_per_day in
    if ltb later moment_end then billing_period later anchor else err overflow_error

-- `replace(microsecond=0)`.
abbrev pub whole_second : ℕ → ℕ
whole_second t = t / us_per_second * us_per_second
