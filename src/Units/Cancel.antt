-- ===== src/Units/Cancel.antt =====
-- app/db/proxy/common.py: the administrative billing month, and the end that a cancellation gives to
-- a subscription unit.
use token_board.Base.{
  ℕ, suc, ◌+◌, ◌-◌, ◌*◌, ◌/◌, ◌≤◌, ◌<◌, ◌≡◌, refl, sym, ◌∙◌, Bool, true, false, ◌||◌, Option, none,
  some, leb, ltb, Bool-cases, inl, inr, ltb→lt, if◌then◌else◌, arith, Result, ok, err,
  overflow_error, ◌>>=◌, ok-injective,
}
use mathlib.Core.Path.{subst}
use token_board.Time.{
  us_per_second, us_per_day, month_count, month_start, month_at, month_anchor, BillingPeriod,
  billing_period,
}
use token_board.Time.Period.{
  boundary, boundary_within, month_at_unique, month_anchor-ok, billing_period-inv,
  billing_period-bounds,
}
use token_board.Usage.{Stored}
use token_board.Units.{observed_period_end}

-- The account types of `ACCOUNT_TYPES`; any other name counts as "api".
pub data AccountType : Type 0 where
  api plan unknown_type : AccountType

pub data CancellationMode : Type 0 where
  immediate at_period_end : CancellationMode

-- `deletion_policy(account_type) == "immediate"`.
unfoldable pub deletes_immediately : AccountType → Bool
deletes_immediately plan = false
deletes_immediately api = true
deletes_immediately unknown_type = true

-- The month's text as the number of months from 0000-12 on, the text before 0001-01, which no date
-- has; `_next_month` of the n-th is the month n of the calendar. `_period_start(month, anchor)` is
-- `month_anchor`; the day of the moment decides the month.
unfoldable pub billing_period_month : ℕ → ℕ → Result ℕ
unfolding month_anchor
billing_period_month t anchor =
    let m = month_at t in
    month_anchor anchor m >>= λ here.
    if leb (here / us_per_day) (t / us_per_day) then ok (suc m) else ok m

abbrev pub is_immediate : CancellationMode → Bool
is_immediate immediate = true
is_immediate at_period_end = false

-- The calendar's boundary, one second before the next period.
unfoldable pub calendar_end : ℕ → ℕ → Result ℕ
unfolding billing_period_month month_anchor
calendar_end now anchor = billing_period_month now anchor >>= λ current.
    month_anchor anchor current >>= λ end. ok (end - us_per_second)

-- `observed - timedelta(seconds=1)` before year 1 raises.
unfoldable pub scheduled_end : ℕ → ℕ → Option ℕ → Result ℕ
unfolding calendar_end
scheduled_end now anchor none = calendar_end now anchor
scheduled_end now anchor (some observed) =
    if ltb observed us_per_second
    then err overflow_error
    else if ltb now (observed - us_per_second)
    then ok (observed - us_per_second)
    else calendar_end now anchor

unfoldable pub cancellation_end : CancellationMode → ℕ → ℕ → AccountType → Stored → Result ℕ
unfolding scheduled_end deletes_immediately
cancellation_end mode now anchor account_type usage =
    if deletes_immediately account_type || is_immediate mode
    then ok now
    else scheduled_end now anchor (observed_period_end usage now)

month_same :
    (t anchor m : ℕ)
    → month_at t ≡ m
    → m < month_count
    → boundary anchor m ≤ t
    → billing_period_month t anchor ≡ ok (suc m)
unfolding billing_period_month
month_same t anchor m e range from = rw e (ground arith)

month_previous :
    (t anchor m : ℕ)
    → month_at t ≡ suc m
    → suc m < month_count
    → t < boundary anchor (suc m)
    → billing_period_month t anchor ≡ ok (suc m)
unfolding billing_period_month
month_previous t anchor m e range to = rw e (ground arith)

-- The month in which the anchored period of a moment starts, counted from 0000-12.
billing_period_month_lem :
    (t anchor s : ℕ)
    → suc s < month_count
    → boundary anchor s ≤ t
    → t < boundary anchor (suc s)
    → billing_period_month t anchor ≡ ok (suc s)
billing_period_month_lem t anchor s range from to =
    elim (Bool-cases (ltb t (month_start (suc s) * us_per_day))) [
      | inl same ↦
          month_same t anchor s
            (month_at_unique t s (omega (arith, boundary_within anchor s)) (ltb→lt _ _ same))
            (omega arith) from
      | inr later ↦
          month_previous t anchor s
            (month_at_unique t (suc s) (ground arith)
              (omega (arith, boundary_within anchor (suc s))))
            range to
    ]

calendar_end-eq :
    (now anchor : ℕ) {p : BillingPeriod}
    → billing_period now anchor ≡ ok p
    → calendar_end now anchor ≡ ok (p.end - us_per_second)
unfolding calendar_end
calendar_end-eq now anchor h =
    let (_, _, (s, range, e, from, to)) = billing_period-inv now anchor h in
    subst (λ (q : BillingPeriod). calendar_end now anchor ≡ ok (q.end - us_per_second)) (sym e)
      (rw
        (
          billing_period_month_lem now anchor s range from to,
          calendar_end,
          month_anchor-ok anchor (suc s) range,
        )
        refl)

-- A scheduled cancellation of a plan without a fresh observed end, at a moment whose billing period
-- exists, ends the unit one second before the end of exactly that period.
pub cancellation_end-calendar :
    (now anchor : ℕ) (usage : Stored) {p : BillingPeriod}
    → observed_period_end usage now ≡ none
    → billing_period now anchor ≡ ok p
    → cancellation_end at_period_end now anchor plan usage ≡ ok (p.end - us_per_second)
unfolding cancellation_end scheduled_end
cancellation_end-calendar now anchor usage unseen h = rw unseen (calendar_end-eq now anchor h)

calendar_end_bound :
    (now anchor : ℕ) {p : BillingPeriod} {e : ℕ}
    → billing_period now anchor ≡ ok p
    → now < p.end
    → calendar_end now anchor ≡ ok e
    → now < e + us_per_second
calendar_end_bound now anchor h later k =
    let e = ok-injective (sym (calendar_end-eq now anchor h) ∙ k) in omega arith

scheduled_end_bound :
    (now anchor : ℕ) (observed : Option ℕ) {p : BillingPeriod} {e : ℕ}
    → billing_period now anchor ≡ ok p
    → now < p.end
    → scheduled_end now anchor observed ≡ ok e
    → now < e + us_per_second
unfolding scheduled_end
scheduled_end_bound now anchor none h later k = calendar_end_bound now anchor h later k
scheduled_end_bound now anchor (some t) h later k = elim (Bool-cases (ltb t us_per_second)) [
  | inl early ↦ let k' = rw early at k in cc
  | inr seen ↦ elim (Bool-cases (ltb now (t - us_per_second))) [
    | inl future ↦ ground arith
    | inr past ↦ calendar_end_bound now anchor h later (rw (seen, past) at k)
  ]
]

-- At a moment whose billing period exists, no cancellation that returns ends a unit a whole second or
-- more before the moment, whatever the mode, the account type and the snapshot are.
pub cancellation_end_bound :
    (mode : CancellationMode) (now anchor : ℕ) (account_type : AccountType) (usage : Stored)
    {p : BillingPeriod} {e : ℕ}
    → billing_period now anchor ≡ ok p
    → cancellation_end mode now anchor account_type usage ≡ ok e
    → now < e + us_per_second
unfolding cancellation_end
cancellation_end_bound mode now anchor account_type usage h k =
    elim (Bool-cases (deletes_immediately account_type || is_immediate mode)) [
      | inl at_once ↦ let e = ok-injective (rw at_once at k) in omega arith
      | inr scheduled ↦
          scheduled_end_bound now anchor (observed_period_end usage now) h
            (billing_period-bounds now anchor h).1 (rw scheduled at k)
    ]
