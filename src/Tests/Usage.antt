-- ===== src/Tests/Usage.antt =====
-- Polls of one key: an observation, a refusal, and the observation after it.
use token_board.Base.{ℕ, ◌≡◌, ◌≢◌, ◌⊎◌, refl, true, false, none, some, [], ◌∷◌, arith}
use token_board.Time.Stamps.{instant, format_utc, absent}
use token_board.Usage.{
  RawWindow, RawUsage, whole, Snapshot, Stored, Subscription, http, window_at, parse_window,
  percent_of, parse_usage_body,
}
use token_board.Usage.Poll.{
  advance_monthly_period, success, observe, read_body, is_complete, entitlement_lapse, query_usage,
  poll, prior_subscription, verdict_of, legacy_verdict, Reply, answered, unreachable, json, blank,
}
use token_board.Usage.Poll.Failure.{Succeeded, Failed, query_usage_cases, bare_refusal_lapses}
use token_board.Usage.Poll.Resume.{poll_after_lapse}
use token_board.Usage.Poll.Chain.{month, IsMonth, Follows, advance_monthly_period_chain}
use token_board.Tests.Data.{new_year, january_end, mid_february, february_end}

abbrev raw : ℕ → RawWindow
raw percent = record { percent = whole percent; resets_at = absent }

abbrev usage : RawUsage
usage = record { rolling = some (raw 3); weekly = some (raw 50); monthly = some (raw 120) }

abbrev good : Reply
good = answered 200 (json true (some usage))

abbrev refusal : Reply
refusal = answered 403 (json true none)

-- The snapshot of a key that the upstream has refused.
abbrev lapsed : Snapshot
lapsed = record blank {
  error = some (http 403);
  error_at = instant january_end;
  subscription = Subscription.inactive;
}

abbrev active_key : Snapshot
active_key = record blank { subscription = Subscription.active; resumed_at = instant january_end }

query_usage_cases_example :
    Succeeded (some active_key) mid_february (query_usage (some active_key) mid_february refusal)
    ⊎ Failed
        (some active_key)
        mid_february
        refusal
        (query_usage (some active_key) mid_february refusal)
query_usage_cases_example = query_usage_cases (some active_key) mid_february refusal

-- A 403 whose body is no structured refusal.
abbrev bare : Reply
bare = answered 403 (json false none)

bare_refusal_lapses_example :
    ((query_usage none january_end bare).subscription ≡ Subscription.missing)
    × ((((query_usage (some (query_usage none january_end bare)) mid_february unreachable).error
            ≢ none)
          × ((query_usage
                (some (query_usage none january_end bare))
                mid_february
                unreachable).subscription
              ≡ Subscription.inactive))
        ⊎ (((query_usage (some (query_usage none january_end bare)) mid_february unreachable).error
              ≡ none)
            × ((query_usage
                  (some (query_usage none january_end bare))
                  mid_february
                  unreachable).resumed_at
                ≡ format_utc mid_february)))
unfolding prior_subscription verdict_of legacy_verdict entitlement_lapse
bare_refusal_lapses_example =
    bare_refusal_lapses none january_end mid_february (json false none) unreachable refl refl

clean : (query_usage (some lapsed) mid_february good).error ≡ none
unfolding query_usage read_body observe is_complete success parse_usage_body parse_window percent_of
    window_at
clean = refl

poll_after_lapse_example :
    (s' : Snapshot) × (poll
        (Stored.object lapsed)
        ((mid_february, good) ∷ (february_end, unreachable) ∷ [])
      ≡ Stored.object s')
    × (s'.subscription ≡ Subscription.active)
    × (s'.resumed_at ≡ format_utc mid_february)
unfolding entitlement_lapse
poll_after_lapse_example =
    poll_after_lapse lapsed mid_february good ((february_end, unreachable) ∷ []) refl clean
      ((λ h. h), tt)

advance_monthly_period_chain_example :
    (a' : ℕ) × (b' : ℕ) × (advance_monthly_period
        (some (month new_year january_end))
        mid_february
        (some february_end)
      ≡ some (month a' b'))
    × IsMonth a' b'
    × Follows new_year january_end mid_february a'
advance_monthly_period_chain_example =
    advance_monthly_period_chain new_year january_end mid_february (some february_end)
      (omega arith, refl, refl)
