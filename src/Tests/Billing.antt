-- ===== src/Tests/Billing.antt =====
-- A small ledger: one proxy key priced in dollars and one agent subscription, in February 2026.
use token_board.Base.{
  ℕ, ◌+◌, ◌*◌, ◌≤◌, ◌≡◌, ◌⊎◌, refl, true, false, Option, none, some, List, [], ◌∷◌, ◌==◌, arith, ok,
}
use token_board.Time.{
  us_per_day, month_start, month_of, search_month, days_in_month, is_leap, days_before_year,
  month_length, days_before_month, month_anchor, month_before, BillingPeriod, anchored_period,
  billing_period, whole_second,
}
use token_board.Time.Stamps.{optional_timestamp, parse_runtime_timestamp}
use token_board.Usage.{Stored, payload}
use token_board.Usage.Poll.{query_usage, answered, json}
use token_board.Units.{
  cny, foreign, OwnerKind, UnitId, BillingUnit, parse_observed_period, parse_subscription_state,
  proxy_credential, masked, anchor_day, day_of_month, midnight, lapse_verdict, lapse_verdict_fresh,
  no_verdict,
}
use token_board.Units.Resolve.{
  Instance, Binding, proxy_units, units_of_contract, start_date, valid_date, parse_iso_date,
  credential_unit, credential_units, earliest, has_usage_path,
}
use token_board.Billing.{Charge, find_charge, latest_charge, later_charge}
use token_board.Billing.Rates.{
  normalized_charge, rate_from_table, latest_event, later_event, converted, resolve_rate,
  exact_rate, last_rate,
}
use token_board.Billing.Resolve.{
  awaits_observation, raise_to, anchored, observed_start, observed_range, rolled, open_period, roll,
  resolve_from, resolve_unit_period, latest_of_unit,
}
use token_board.Billing.Resolve.Cases.{Covers, Opens, end_of, resolve_unit_period_cases}
use token_board.Billing.Resolve.Suspended.{
  IsHeld, Answers, refusal_holds_billing, resolve_unit_period_total,
}
use token_board.Billing.Stream.{
  Pricing, Stream, Progress, bill_period, bill_resolved, bill_chain, stops, cutoff_of,
  insert_charge, new_charge, next_id,
}
use token_board.Billing.Stream.Frozen.{AllKept}
use token_board.Billing.Stream.Unique.{IsTable}
use token_board.Billing.Stream.Again.{bill_period_again, bill_period-charges}
use token_board.Billing.Run.{
  bill_proxy_units, bill_proxy_unit, bill_proxy_period, finalize_period_stream, finalize_charges,
  count_frozen, bill_proxy_ledger,
}
use token_board.Billing.Run.Events.{
  AgentColumns, ProxyColumns, Joins, proxy_rows, agent_rows, allocation_rows, export_ledgers,
  materialize_period_charges, materialize_agent_subscription_charges,
}
use token_board.Export.{
  UnitLabel, Event, insert_events, insert_event, insert_by_key, find_source, find_key,
}
use token_board.Export.Ends.{Ends}
use token_board.Export.Rows.{
  proxy_events, direct_events, allocation_events, proxy_event_row, proxy_label,
  ensure_billing_export_events,
}
use token_board.Billing.Run.Whole.{materialize_period_charges-Safe}
use token_board.Billing.Run.Agents.{bill_chain_current, materialize_agent_subscription_charges-Safe}
use token_board.Tests.Data.{
  new_year, january_end, mid_february, february_end, second_month, last_october, last_november,
}
use token_board.Tests.Units.{plan, key}

-- Whole numbers stand for the floats here: a dollar is 7 yuan, and the plan costs 20 dollars.
abbrev pricing : Pricing ℕ
pricing = record {
  nought = 0;
  one = 1;
  times = λ a b. a * b;
  events = record { id = 1; owner = 4; effective_at = new_year; recurring_price = 20 } ∷ [];
  rates = record { base = 840; date = 739_600; rate = 7 } ∷ [];
}

-- The charge of January.
abbrev january : Charge ℕ
january = record {
  id = 1;
  owner = 4;
  credential = some 1;
  subscription_id = none;
  software_id = none;
  period_start = new_year;
  period_end = january_end;
  recurring_charge = 20;
  currency = foreign 840;
  normalized = some 140;
  fx_rate_date = some 739_600;
  finalized = some new_year;
}

abbrev unit : BillingUnit
unit = record {
  billing_unit_id = UnitId.credential 1;
  owner_id = 4;
  account_id = 2;
  owner_kind = OwnerKind.proxy;
  charge_domain = proxy_credential;
  valid_from = 739_616;
  ends_at = none;
  currency = foreign 840;
  ends_on = none;
  credential_uuid = some 1;
  credential_runtime_id = some 1;
  key_masked = masked 7;
  contract_id = some 4;
  subscription_id = none;
  observed_period =
      some (record { start = new_year; end = february_end; checked_at = mid_february });
  subscription = no_verdict;
  usage_tracked = true;
  usage_present = true;
  created_at = some new_year;
}

-- The unit goes on from the end of its January charge to the observed end.
resolved :
    resolve_unit_period (january ∷ []) unit mid_february ≡ ok (some (january_end, february_end))
unfolding resolve_unit_period latest_of_unit resolve_from roll lapse_verdict_fresh lapse_verdict
    awaits_observation open_period anchor_day day_of_month month_of search_month month_start
    days_in_month days_before_year days_before_month month_length is_leap billing_period
    anchored_period month_anchor month_before rolled observed_start observed_range raise_to
    latest_charge later_charge
resolved = refl

resolve_unit_period_cases_example :
    (midnight 739_616 ≤ whole_second mid_february)
    × (Covers
          (whole_second mid_february)
          (latest_of_unit unit (whole_second mid_february) (january ∷ []))
          (january_end, february_end)
        ⊎ Opens
            (end_of (latest_of_unit unit (whole_second mid_february) (january ∷ [])))
            (january_end, february_end))
resolve_unit_period_cases_example =
    resolve_unit_period_cases (january ∷ []) unit mid_february tt resolved

abbrev refused : BillingUnit
refused = record unit {
  subscription =
      parse_subscription_state
        (Stored.object (query_usage none mid_february (answered 403 (json true none))));
}

refusal_holds_billing_example :
    IsHeld
      (whole_second (mid_february + us_per_day))
      (latest_of_unit refused (whole_second (mid_february + us_per_day)) (january ∷ []))
      (resolve_unit_period (january ∷ []) refused (mid_february + us_per_day))
refusal_holds_billing_example =
    refusal_holds_billing (january ∷ []) refused (mid_february + us_per_day) mid_february none none
      refl (omega arith)

resolve_unit_period_total_example : Answers (resolve_unit_period (january ∷ []) unit mid_february)
unfolding latest_of_unit latest_charge later_charge
resolve_unit_period_total_example =
    resolve_unit_period_total (january ∷ []) unit mid_february
      (omega (arith, second_month), omega (arith, last_november))
      (
        (omega (arith, second_month), omega (arith, last_november)),
        tt,
        (omega (arith, second_month), omega (arith, last_november)),
        (omega (arith, second_month), omega (arith, last_november)),
      )

abbrev stream : Stream
stream = record {
  owner = 4;
  credential = some 1;
  subscription_id = none;
  software_id = none;
  ends_at = none;
  ends_on = none;
}

abbrev before : Progress ℕ
before = record { charges = january ∷ []; currency = foreign 840; changed = 0 }

bill_period_again_example :
    bill_period pricing stream mid_february
      (january_end, february_end)
      (bill_period pricing stream mid_february (january_end, february_end) before)
    ≡ bill_period pricing stream mid_february (january_end, february_end) before
bill_period_again_example =
    bill_period_again pricing stream mid_february (january_end, february_end) before

bill_period-charges_example :
    (row : Charge ℕ) × (find_charge 4
        (some 1)
        january_end
        (bill_period pricing stream mid_february (january_end, february_end) before).charges
      ≡ some row)
bill_period-charges_example =
    bill_period-charges pricing stream mid_february (january_end, february_end) before

-- From 2026-02-01 to 2026-03-01, the first day of the month being the anchor.
abbrev current : BillingPeriod
current = record { start = 739_647 * us_per_day; end = 739_675 * us_per_day; anchor_day = 1 }

now_current : billing_period mid_february 1 ≡ ok current
unfolding billing_period anchored_period month_anchor month_before month_of search_month month_start
    days_in_month days_before_year days_before_month month_length is_leap
now_current = refl

bill_chain_current_example :
    bill_chain 2 pricing stream 1 mid_february 739_661
      (739_647 * us_per_day, 739_675 * us_per_day)
      before
    ≡ some (
        ok (
          bill_resolved pricing stream mid_february 739_661
            (739_647 * us_per_day, 739_675 * us_per_day)
            before))
bill_chain_current_example =
    bill_chain_current 0 pricing stream 1 mid_february 739_661 before (omega (arith, last_october))
      now_current

unique_january : IsTable (january ∷ [])
unfolding find_charge
unique_january = record { ids = (tt, tt); keys = (refl, tt) }

-- The row that the run of mid-February adds.
abbrev february : Charge ℕ
february = record january {
  id = 2;
  period_start = january_end;
  period_end = 739_675 * us_per_day;
  finalized = some mid_february;
}

abbrev columns : Charge ℕ → Option ProxyColumns
columns c = some (record {
  identity = record { id = 2; uuid = some 20; name = 3; kind = OwnerKind.proxy };
  base_currency = some cny;
  billing_unit_id = some (UnitLabel.named 1);
  contract = none;
})

abbrev seat_columns : AgentColumns
seat_columns = record {
  identity = record { id = 8; uuid = some 80; name = 9; kind = OwnerKind.agent };
  base_currency = some cny;
  subscription_snapshot = some 50;
  subscription_identity = none;
  subscription_uuid = none;
  instance_snapshot = some 51;
  instance_identity = none;
  instance_uuid = none;
}

abbrev joins : Joins ℕ
joins = record {
  nought = 0;
  same = λ a b. a == b;
  proxy_columns = columns;
  agent_columns = λ _. some seat_columns;
  allocations = [];
}

abbrev two_charges : List (Event ℕ)
two_charges = proxy_events 0 (proxy_rows columns (january ∷ february ∷ []))

proxy_run :
    materialize_period_charges pricing joins
      (plan ∷ [])
      (key 1 ∷ key 2 ∷ [])
      mid_february
      (january ∷ [])
      []
      []
    ≡ ok (january ∷ february ∷ [], two_charges, 3)
unfolding materialize_period_charges bill_proxy_ledger export_ledgers proxy_rows agent_rows
    allocation_rows ensure_billing_export_events proxy_events direct_events allocation_events
    proxy_event_row proxy_label insert_events insert_event insert_by_key find_source find_key
    proxy_units units_of_contract credential_units credential_unit start_date valid_date
    parse_iso_date parse_observed_period parse_subscription_state payload optional_timestamp
    parse_runtime_timestamp earliest has_usage_path bill_proxy_units bill_proxy_unit
    bill_proxy_period finalize_period_stream finalize_charges count_frozen bill_resolved stops
    cutoff_of bill_period insert_charge new_charge next_id normalized_charge converted resolve_rate
    exact_rate last_rate rate_from_table latest_event later_event find_charge resolve_unit_period
    latest_of_unit resolve_from roll lapse_verdict_fresh lapse_verdict awaits_observation
    open_period anchor_day day_of_month month_of search_month month_start days_in_month
    days_before_year days_before_month month_length is_leap billing_period anchored_period
    month_anchor month_before rolled anchored raise_to latest_charge later_charge
proxy_run = refl

materialize_period_charges-Safe_example :
    AllKept (january ∷ []) (january ∷ february ∷ []) × IsTable (january ∷ february ∷ [])
materialize_period_charges-Safe_example =
    materialize_period_charges-Safe pricing joins (plan ∷ []) (key 1 ∷ key 2 ∷ []) mid_february
      (january ∷ []) [] [] unique_january proxy_run

abbrev seat : Instance
seat = record {
  id = 4;
  uuid = 50;
  subscription_id = 5;
  valid_from = 739_616;
  ends_on = none;
  currency = cny;
  subscription_ends_on = none;
}

abbrev bound : Binding
bound = record {
  id = 1;
  subscription_id = 5;
  software_id = 8;
  valid_from = 739_616;
  ends_on = none;
  is_live = true;
}

materialize_agent_subscription_charges-Safe_example :
    (charges : List (Charge ℕ)) × (changed : ℕ) × (materialize_agent_subscription_charges pricing
        joins []
        (seat ∷ [])
        (bound ∷ [])
        false
        mid_february
        []
        (january ∷ [])
        []
      ≡ some (export_ledgers joins (january ∷ []) charges [] (charges, changed)))
    × AllKept [] charges
    × IsTable charges
    × Ends (export_ledgers joins (january ∷ []) charges [] (charges, changed))
unfolding find_charge
materialize_agent_subscription_charges-Safe_example =
    materialize_agent_subscription_charges-Safe pricing joins [] (seat ∷ []) (bound ∷ []) false
      mid_february [] (january ∷ []) [] (omega (arith, second_month)) (omega (arith, last_october))
      (record { ids = tt; keys = tt })
