-- ===== src/Tests/Data.antt =====
-- Concrete moments that the tests share.
use token_board.Base.{ℕ, ◌*◌, ◌≡◌, refl}
use token_board.Time.{
  us_per_day, is_leap, days_before_year, month_length, days_before_month, month_start,
}

-- Midnight of 2026-01-01, 2026-01-31, 2026-02-15 and 2026-02-28.
abbrev pub new_year : ℕ
new_year = 739_616 * us_per_day

abbrev pub january_end : ℕ
january_end = 739_646 * us_per_day

abbrev pub mid_february : ℕ
mid_february = 739_661 * us_per_day

abbrev pub february_end : ℕ
february_end = 739_674 * us_per_day

pub second_month : month_start 1 ≡ 31
unfolding month_start days_before_year days_before_month month_length is_leap
second_month = refl

pub last_october : month_start 119_985 ≡ 3_651_967
unfolding month_start days_before_year days_before_month month_length is_leap
last_october = refl

pub last_november : month_start 119_986 ≡ 3_651_998
unfolding month_start days_before_year days_before_month month_length is_leap
last_november = refl
