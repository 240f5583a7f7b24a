-- ===== src/Units/Snapshots.antt =====
-- What billing reads back from the snapshots that the poller writes.
use token_board.Base.{ℕ, ◌≤◌, ◌≡◌, ◌≢◌, true, Option, none, some, refl, ap, ◌∙◌, arith}
use token_board.Time.{whole_second}
use token_board.Time.Stamps.{format_utc}
use token_board.Usage.{Snapshot, Stored, RawUsage, Windows}
use token_board.Usage.Poll.{answered, json, query_usage, success, advance_monthly_period}
use token_board.Usage.Poll.Chain.{month, IsMonth, Follows, advance_monthly_period_chain}
use token_board.Units.{
  observed_period_max_age, distance, parse_observed_period, parse_subscription_state, lapse_verdict,
}

-- The structured 403 suspends billing: from the refused query on, for 48 hours either way of its
-- whole second, the snapshot it leaves is a fresh verdict, whatever was stored before.
pub lapse_verdict_after_refusal :
    (prior : Option Snapshot) (observed moment : ℕ) (usage : Option RawUsage)
    → distance moment (whole_second observed) ≤ observed_period_max_age
    → lapse_verdict
        (parse_subscription_state
          (Stored.object (query_usage prior observed (answered 403 (json true usage)))))
        moment
      ≡ true
unfolding lapse_verdict parse_subscription_state query_usage format_utc
lapse_verdict_after_refusal prior observed moment usage h = ground arith

-- An errored snapshot gives no observed period, whatever else it carries.
pub observed_period_of_error :
    (s : Snapshot) → s.error ≢ none → parse_observed_period (Stored.object s) ≡ none
unfolding parse_observed_period
observed_period_of_error s h = ground arith

-- A snapshot with a well-formed month and no error is read back as exactly that period.
pub observed_period_of_month :
    (s : Snapshot) (a b t : ℕ)
    → s.error ≡ none
    → s.checked_at ≡ format_utc t
    → s.monthly_period ≡ some (month a b)
    → parse_observed_period (Stored.object s)
      ≡ some (record { start = a; end = b; checked_at = whole_second t })
unfolding parse_observed_period format_utc
observed_period_of_month s a b t clean checked monthly = rw (clean, checked, monthly)

-- What a complete observation writes is what billing reads: after a successful query of a key with
-- a well-formed month, the observed period is the advanced month, checked at the query's second,
-- and it follows the old month without overlap or gap.
pub observed_period_of_success :
    (prior : Snapshot) (a b observed : ℕ) (windows : Windows) (resets : Option ℕ)
    → prior.monthly_period ≡ some (month a b)
    → IsMonth a b
    → (a' : ℕ) × (b' : ℕ) × (parse_observed_period
          (Stored.object (success (some prior) observed windows resets))
        ≡ some (record { start = a'; end = b'; checked_at = whole_second observed }))
      × (a' ≤ b')
      × Follows a b observed a'
unfolding success
observed_period_of_success prior a b observed windows resets m h =
    let (a', b', e, (le, _, _), f) = advance_monthly_period_chain a b observed resets h in
    (
      a',
      b',
      observed_period_of_month (success (some prior) observed windows resets) a' b' observed refl
          refl (ap (λ p. advance_monthly_period p observed resets) m ∙ e),
      le,
      f,
    )
