-- ===== src/Tests/Units.antt =====
-- Units of a small configuration: two copies of one key, and two bindings of one subscription.
use token_board.Base.{
  ◌-◌, ◌+◌, ◌<◌, ℕ, ◌≤◌, ◌≡◌, refl, All, true, false, none, some, [], ◌∷◌, arith, ok,
}
use token_board.Time.{whole_second}
use token_board.Time.Stamps.{instant}
use token_board.Usage.{Snapshot, Stored}
use token_board.Usage.Poll.{success, blank, no_windows}
use token_board.Usage.Poll.Chain.{month, Follows}
use token_board.Units.{
  observed_period_end, parse_observed_period, foreign, proxy, parse_observed_period,
}
use token_board.Units.Snapshots.{observed_period_of_success}
use token_board.Units.Resolve.{
  Contract, Credential, DateField, per_credential, opencode_go, start_date, valid_date,
  parse_iso_date, credential_unit, credential_units, Binding, binds, is_later, later_of,
  live_binding,
}
use token_board.Units.Resolve.Distinct.{
  AreDistinct, credential_units-AreDistinct, live_binding-latest,
}
use token_board.Units.Cancel.{
  AccountType, immediate, at_period_end, cancellation_end, cancellation_end-calendar,
  cancellation_end_bound,
}
use token_board.Time.{
  us_per_second, is_leap, days_before_year, month_length, days_before_month, month_start, month_of,
  search_month, days_in_month, month_anchor, month_before, anchored_period, billing_period,
}
use token_board.Tests.Data.{new_year, january_end, mid_february, february_end}

abbrev seen_month : Snapshot
seen_month = record blank { monthly_period = some (month new_year january_end) }

observed_period_of_success_example :
    (a' : ℕ) × (b' : ℕ) × (parse_observed_period
        (Stored.object (success (some seen_month) mid_february no_windows (some february_end)))
      ≡ some (record { start = a'; end = b'; checked_at = whole_second mid_february }))
    × (a' ≤ b')
    × Follows new_year january_end mid_february a'
observed_period_of_success_example =
    observed_period_of_success seen_month new_year january_end mid_february no_windows
      (some february_end) refl (omega arith, refl, refl)

abbrev pub plan : Contract
plan = record {
  id = 4;
  uuid = 40;
  account_id = 2;
  account_kind = proxy;
  recurring = true;
  valid_from = new_year;
  scope = per_credential;
  currency = foreign 840;
  ends_at = none;
  account_valid_from = DateField.day 739_616;
  account_created_at = instant new_year;
}

abbrev pub key : ℕ → Credential
key uuid = record {
  account_id = 2;
  runtime_id = uuid;
  uuid = uuid;
  key_masked = 7;
  valid_from = DateField.day 739_616;
  created_at = instant new_year;
  ends_at = none;
  usage_json = Stored.unset;
  subtype = some opencode_go;
}

one_unit :
    credential_units plan mid_february [] (key 1 ∷ key 2 ∷ [])
    ≡ ok (credential_unit plan (key 1) 739_616 ∷ [])
unfolding credential_units start_date valid_date parse_iso_date
one_unit = refl

credential_units-AreDistinct_example : AreDistinct [] (credential_unit plan (key 1) 739_616 ∷ [])
credential_units-AreDistinct_example =
    credential_units-AreDistinct plan mid_february [] (key 1 ∷ key 2 ∷ []) one_unit

abbrev binding : ℕ → ℕ → Binding
binding id software = record {
  id = id;
  subscription_id = 5;
  software_id = software;
  valid_from = 739_616;
  ends_on = none;
  is_live = true;
}

later_wins : live_binding (binding 1 8 ∷ binding 2 9 ∷ []) 5 739_661 ≡ some (binding 2 9)
unfolding live_binding later_of
later_wins = refl

live_binding-latest_example :
    (binds 5 739_661 (binding 2 9) ≡ true)
    × All
        (λ c. binds 5 739_661 c ≡ true → is_later c (binding 2 9) ≡ false)
        (binding 1 8 ∷ binding 2 9 ∷ [])
live_binding-latest_example =
    live_binding-latest (binding 1 8 ∷ binding 2 9 ∷ []) 5 739_661 later_wins

-- A plan is cancelled in mid-February: it ends a second before the end of the month.
february_month :
    billing_period mid_february 31
    ≡ ok (record { start = january_end; end = february_end; anchor_day = 31 })
unfolding billing_period anchored_period month_anchor month_before month_of search_month month_start
    days_in_month days_before_year days_before_month month_length is_leap
february_month = refl

cancellation_end-calendar_example :
    cancellation_end at_period_end mid_february 31 AccountType.plan Stored.unset
    ≡ ok (february_end - us_per_second)
unfolding observed_period_end
cancellation_end-calendar_example =
    cancellation_end-calendar mid_february 31 Stored.unset refl february_month

at_once : cancellation_end immediate mid_february 31 AccountType.plan Stored.unset ≡ ok mid_february
unfolding cancellation_end
at_once = refl

cancellation_end_bound_example : mid_february < mid_february + us_per_second
cancellation_end_bound_example =
    cancellation_end_bound immediate mid_february 31 AccountType.plan Stored.unset february_month
      at_once
