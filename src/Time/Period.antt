-- ===== src/Time/Period.antt =====
-- `billing_period`: it contains its moment, and it is the only anchored period that does.
use token_board.Base.{
  ℕ, zero, suc, ◌+◌, ◌-◌, ◌*◌, ◌/◌, ◌≤◌, ◌<◌, ◌≡◌, refl, true, ◌&&◌, arith, min, ltb, leb,
  Bool-cases, inl, inr, ok, err, value_error, ◌⊎◌, le→leb, ltb→lt,
}
use mathlib.Core.Path.{sym, subst}
use token_board.Time.{
  us_per_day, month_count, days_in_month, month_start, month_at, month_anchor, BillingPeriod,
  anchored_period, billing_period,
}
use token_board.Time.Months.{
  days_in_month_bounds, month_start-suc, month_start_mono, month_of_lem, month_of_unique,
}

-- The first moment of the anchor's day in a month: the last day of the month, if that is shorter.
abbrev pub boundary : ℕ → ℕ → ℕ
boundary anchor m = (month_start m + (min anchor (days_in_month m) - 1)) * us_per_day

pub boundary_within :
    (anchor m : ℕ)
    → (month_start m * us_per_day ≤ boundary anchor m)
      × (boundary anchor m < month_start (suc m) * us_per_day)
boundary_within anchor m = omega (arith, month_start-suc m, days_in_month_bounds m)

pub month_at_lem :
    (t : ℕ)
    → (month_start (month_at t) * us_per_day ≤ t)
      × (t < month_start (suc (month_at t)) * us_per_day)
month_at_lem t = omega (arith, month_of_lem (t / us_per_day))

pub month_at_unique :
    (t m : ℕ)
    → month_start m * us_per_day ≤ t
    → t < month_start (suc m) * us_per_day
    → month_at t ≡ m
month_at_unique t m h k = month_of_unique (t / us_per_day) m (omega arith) (omega arith)

-- The period that starts in month `s`.
abbrev pub period_from : ℕ → ℕ → BillingPeriod
period_from anchor s = record {
  start = boundary anchor s;
  end = boundary anchor (suc s);
  anchor_day = anchor;
}

pub month_anchor-ok :
    (anchor m : ℕ) → m < month_count → month_anchor anchor m ≡ ok (boundary anchor m)
unfolding month_anchor
month_anchor-ok anchor m h = ground arith

-- The steps of `anchored_period` once the month of the moment is known.
period_same :
    (t anchor m : ℕ)
    → month_at t ≡ m
    → suc m < month_count
    → boundary anchor m ≤ t
    → anchored_period t anchor ≡ ok (period_from anchor m)
unfolding anchored_period
period_same t anchor m e range from = rw e (ground arith)

period_previous :
    (t anchor m : ℕ)
    → month_at t ≡ suc m
    → suc m < month_count
    → t < boundary anchor (suc m)
    → anchored_period t anchor ≡ ok (period_from anchor m)
unfolding anchored_period
period_previous t anchor m e range to = rw e (ground arith)

-- A period that starts in a month of the calendar and contains the moment is the result.
pub billing_period-eq :
    (t anchor s : ℕ)
    → 1 ≤ anchor
    → anchor ≤ 31
    → suc s < month_count
    → boundary anchor s ≤ t
    → t < boundary anchor (suc s)
    → billing_period t anchor ≡ ok (period_from anchor s)
unfolding billing_period
billing_period-eq t anchor s lo hi range from to =
    rw (le→leb 1 anchor lo, le→leb anchor 31 hi)
      elim (Bool-cases (ltb t (month_start (suc s) * us_per_day))) [
        | inl same ↦
            period_same t anchor s
              (month_at_unique t s (omega (arith, boundary_within anchor s)) (ltb→lt _ _ same))
              range from
        | inr later ↦
            period_previous t anchor s
              (month_at_unique t (suc s) (ground arith)
                (omega (arith, boundary_within anchor (suc s))))
              range to
      ]

-- What a successful call returns: the anchored period, between two months, around the moment.
abbrev pub Returns : ℕ → ℕ → BillingPeriod → Type 0
Returns t anchor p =
    (s : ℕ) × (suc s < month_count)
    × (p ≡ period_from anchor s)
    × (boundary anchor s ≤ t)
    × (t < boundary anchor (suc s))

-- The month of the moment, as the bounds that it sets.
in_month :
    (t m : ℕ)
    → month_at t ≡ m
    → (month_start m * us_per_day ≤ t) × (t < month_start (suc m) * us_per_day)
in_month t m e = let h = month_at_lem t in rw e at h

inv_previous :
    (t anchor m : ℕ) {p : BillingPeriod}
    → month_at t ≡ m
    → anchored_period t anchor ≡ ok p
    → ltb t (boundary anchor m) ≡ true
    → Returns t anchor p
unfolding anchored_period
inv_previous t anchor zero e h before = let h' = rw e at h in absurd (ground arith)
inv_previous t anchor (suc m) e h before =
    let h' = rw e at h in
    (
      m,
      ground arith,
      ground arith,
      omega (arith, in_month t (suc m) e, boundary_within anchor m),
      ltb→lt _ _ before,
    )

anchored_period-inv :
    (t anchor m : ℕ) {p : BillingPeriod}
    → month_at t ≡ m
    → anchored_period t anchor ≡ ok p
    → Returns t anchor p
unfolding anchored_period
anchored_period-inv t anchor m e h = elim (Bool-cases (ltb t (boundary anchor m))) [
  | inl previous ↦ inv_previous t anchor m e h previous
  | inr same ↦
      let h' = rw e at h in
      (
        m,
        ground arith,
        ground arith,
        ground arith,
        omega (arith, in_month t m e, boundary_within anchor (suc m)),
      )
]

-- It succeeds only with an anchor day of 1 to 31, and returns the period around the moment.
pub billing_period-inv :
    (t anchor : ℕ) {p : BillingPeriod}
    → billing_period t anchor ≡ ok p
    → (1 ≤ anchor) × (anchor ≤ 31) × Returns t anchor p
unfolding billing_period
billing_period-inv t anchor h = elim (Bool-cases (leb 1 anchor && leb anchor 31)) [
  | inl valid ↦
      let h' = rw valid at h in
      (ground arith, ground arith, anchored_period-inv t anchor (month_at t) refl h')
  | inr invalid ↦ absurd (ground arith)
]

month_at-below : (t n : ℕ) → t < month_start n * us_per_day → month_at t < n
month_at-below t n h = elim (Bool-cases (ltb (month_at t) n)) [
  | inl below ↦ ltb→lt _ _ below
  | inr above ↦
      let k : n ≤ month_at t = ground arith in
      absurd (omega (arith, month_at_lem t, month_start_mono n (month_at t) k))
]

start_month-lt : (m n : ℕ) → month_start m * us_per_day < month_start n * us_per_day → m < n
start_month-lt m n h = elim (Bool-cases (ltb m n)) [
  | inl below ↦ ltb→lt _ _ below
  | inr above ↦ let k : n ≤ m = ground arith in absurd (omega (arith, month_start_mono n m k))
]

-- Some month's period contains any moment that is not before the first boundary.
period_month :
    (t anchor : ℕ)
    → month_start 1 * us_per_day ≤ t
    → (s : ℕ) × (boundary anchor s ≤ t) × (t < boundary anchor (suc s)) × (s ≤ month_at t)
period_month t anchor h = go (month_at t) refl
  where
    go :
        (m : ℕ)
        → month_at t ≡ m
        → (s : ℕ) × (boundary anchor s ≤ t) × (t < boundary anchor (suc s)) × (s ≤ month_at t)
    go zero e = absurd (omega (arith, in_month t 0 e))
    go (suc m) e = elim (Bool-cases (ltb t (boundary anchor (suc m)))) [
      | inl before ↦ (
        m,
        omega (arith, in_month t (suc m) e, boundary_within anchor m),
        ltb→lt _ _ before,
        omega arith,
      )
      | inr from ↦ (
        suc m,
        ground arith,
        omega (arith, in_month t (suc m) e, boundary_within anchor (suc (suc m))),
        omega arith,
      )
    ]

-- For an anchor day of 1 to 31 and a moment from February of year 1 to October of year 9999,
-- `billing_period` returns a period that contains the moment (its start included, its end not),
-- and whose two ends are the anchor's day, or the last day where that is shorter, of two
-- consecutive months.
pub billing_period_contains :
    (t anchor : ℕ)
    → 1 ≤ anchor
    → anchor ≤ 31
    → month_start 1 * us_per_day ≤ t
    → t < month_start 119_986 * us_per_day
    → (p : BillingPeriod) × (billing_period t anchor ≡ ok p) × Returns t anchor p
billing_period_contains t anchor lo hi from to =
    let (s, a, b, c) = period_month t anchor from in
    let range : suc s < month_count = omega (arith, month_at-below t 119_986 to) in
    (period_from anchor s, billing_period-eq t anchor s lo hi range a b, (s, range, refl, a, b))

-- Every moment within a returned period gets that period again.
pub billing_period_stable :
    (t u anchor : ℕ) {p : BillingPeriod}
    → billing_period t anchor ≡ ok p
    → p.start ≤ u
    → u < p.end
    → billing_period u anchor ≡ ok p
billing_period_stable t u anchor h from to =
    let (lo, hi, (s, range, e, _, _)) = billing_period-inv t anchor h in
    rw e (billing_period-eq u anchor s lo hi range (rw e at from) (rw e at to))

-- An anchor day outside 1 to 31 raises `ValueError`, whatever the moment.
pub billing_period_invalid :
    (t anchor : ℕ) → (anchor < 1) ⊎ (31 < anchor) → billing_period t anchor ≡ err value_error
unfolding billing_period
billing_period_invalid t anchor h = ground arith

-- The period of a successful call contains its moment.
pub billing_period-bounds :
    (t anchor : ℕ) {p : BillingPeriod}
    → billing_period t anchor ≡ ok p
    → (p.start ≤ t) × (t < p.end)
billing_period-bounds t anchor h =
    let (_, _, (s, _, e, from, to)) = billing_period-inv t anchor h in
    subst (λ (q : BillingPeriod). (q.start ≤ t) × (t < q.end)) (sym e) (from, to)

-- The end of a period lies in the month after that of its moment, at the latest.
pub period_end_below :
    (t anchor n : ℕ) {p : BillingPeriod}
    → billing_period t anchor ≡ ok p
    → t < month_start n * us_per_day
    → p.end < month_start (suc n) * us_per_day
period_end_below t anchor n h below =
    let (_, _, (s, _, e, from, to)) = billing_period-inv t anchor h in
    let m : s < n = start_month-lt s n (omega (arith, boundary_within anchor s)) in
    subst (λ (q : BillingPeriod). q.end < month_start (suc n) * us_per_day) (sym e)
      (omega (
        arith,
        boundary_within anchor (suc s),
        month_start_mono (suc (suc s)) (suc n) (omega arith),
      ))
