-- ===== src/Time/Months.antt =====
-- The calendar's laws: months follow one another without a gap, and every day lies in one month.
use token_board.Base.{
  ℕ, zero, suc, ◌+◌, ◌*◌, ◌/◌, ◌%◌, ◌≤◌, ◌<◌, ◌≡◌, refl, arith, leb, Bool-cases, inl, inr, leb→le,
  tests,
}
use native.Mathlib.Numerals.{add-one}
use token_board.Time.{
  is_leap, days_before_year, month_length, days_before_month, days_in_month, month_start,
  search_month, month_of,
}

days_before_year-suc :
    (y : ℕ) → days_before_year (suc y) ≡ days_before_year y + days_before_month y 12
unfolding days_before_year days_before_month month_length is_leap
days_before_year-suc y = ground arith

pub month_length_bounds : (y k : ℕ) → (28 ≤ month_length y k) × (month_length y k ≤ 31)
unfolding month_length
month_length_bounds y k = ground arith

pub days_in_month_bounds : (m : ℕ) → (28 ≤ days_in_month m) × (days_in_month m ≤ 31)
unfolding days_in_month
days_in_month_bounds m = month_length_bounds (m / 12) (m % 12)

-- Within a year the next month follows; after December the next year does.
next_in_year :
    (y k : ℕ) → k < 11 → days_before_month y (k + 1) ≡ days_before_month y k + month_length y k
unfolding days_before_month
next_in_year y k h = rw add-one

december_end : (y : ℕ) → days_before_month y 12 ≡ days_before_month y 11 + month_length y 11
unfolding days_before_month
december_end y = refl

january : (y : ℕ) → days_before_month y 0 ≡ 0
unfolding days_before_month
january y = refl

pub month_start-suc : (m : ℕ) → month_start (suc m) ≡ month_start m + days_in_month m
unfolding month_start days_in_month
month_start-suc m = elim (Bool-cases (leb 11 (m % 12))) [
  | inl december ↦
      let k : m % 12 ≡ 11 = omega tests in
      let k' : suc m % 12 ≡ 0 = omega arith in
      let y' : suc m / 12 ≡ suc (m / 12) = omega arith in
      rw (k, k', y')
        (omega
          (arith, days_before_year-suc (m / 12), december_end (m / 12), january (suc (m / 12))))
  | inr within ↦
      let h : m % 12 < 11 = ground arith in
      let k' : suc m % 12 ≡ m % 12 + 1 = omega arith in
      let y' : suc m / 12 ≡ m / 12 = omega arith in
      rw (k', y') (omega (arith, next_in_year (m / 12) (m % 12) h))
]

pub month_start_mono : (m n : ℕ) → m ≤ n → month_start m ≤ month_start n
month_start_mono m zero h = let e : m ≡ 0 = omega arith in rw e (omega arith)
month_start_mono m (suc n) h = elim (Bool-cases (leb m n)) [
  | inl below ↦ omega (arith, month_start_mono m n (leb→le m n below), month_start-suc n)
  | inr above ↦ let e : m ≡ suc n = ground arith in rw e (omega arith)
]

-- The start of a month of the year `y0` on: at most 366 days for each year passed.
year_start-le : (y : ℕ) → month_start (12 * y) ≤ 366 * y
unfolding month_start days_before_year days_before_month
year_start-le y =
    let k : (12 * y) % 12 ≡ 0 = omega arith in
    let e : (12 * y) / 12 ≡ y = omega arith in rw (k, e) (omega arith)

month_start-ge : (m : ℕ) → 28 * m ≤ month_start m
month_start-ge zero = omega arith
month_start-ge (suc m) = omega (arith, month_start-ge m, month_start-suc m, days_in_month_bounds m)

search_month_lem :
    (fuel day m : ℕ)
    → month_start m ≤ day
    → day < m + fuel
    → (month_start (search_month fuel day m) ≤ day)
      × (day < month_start (suc (search_month fuel day m)))
unfolding search_month
search_month_lem zero day m h f = absurd (omega (arith, month_start-ge m))
search_month_lem (suc fuel) day m h f =
    ground (arith, search_month_lem fuel day (suc m), month_start-ge m)

-- Every day lies in the month that the search finds.
pub month_of_lem :
    (day : ℕ) → (month_start (month_of day) ≤ day) × (day < month_start (suc (month_of day)))
unfolding month_of
month_of_lem day =
    search_month_lem (suc day) day (12 * (day / 366)) (omega (arith, year_start-le (day / 366)))
      (omega arith)

-- It lies in no other.
pub month_of_unique :
    (day m : ℕ) → month_start m ≤ day → day < month_start (suc m) → month_of day ≡ m
month_of_unique day m h k = grind (
  arith,
  month_of_lem day,
  month_start_mono (suc m) (month_of day),
  month_start_mono (suc (month_of day)) m,
)
