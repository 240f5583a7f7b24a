-- ===== src/Tests/Export.antt =====
-- One proxy charge that is exported in a table with an older event.
use token_board.Base.{
  ℕ, ◌≡◌, refl, Bool, true, none, some, List, [], ◌∷◌, ◌++◌, ◌==◌, arith, length, ok,
}
use token_board.Time.{
  month_of, search_month, month_start, days_before_year, days_before_month, month_length, is_leap,
}
use token_board.Units.{foreign, OwnerKind}
use token_board.Export.{UnitLabel, Event, insert_events}
use token_board.Export.Rows.{ProxyRow, proxy_event_row, proxy_events}
use token_board.Export.Again.{insert_events_again, insert_events-append}
use token_board.Tests.Data.{january_end, mid_february}

abbrev same : ℕ → ℕ → Bool
same a b = a == b

same_refl : (a : ℕ) → same a a ≡ true
same_refl a = ground arith

abbrev exported : ℕ → ProxyRow ℕ
exported id = record {
  id = id;
  cost = record {
    account_id = 2;
    account_uuid = some 20;
    account_name = 3;
    account_kind = OwnerKind.proxy;
    period_start = january_end;
    recurring_charge = some 20;
    normalized = some 140;
    currency = some (foreign 840);
    base_currency = none;
    fx_rate_date = some 739_600;
  };
  billing_unit_id = some (UnitLabel.named id);
  credential = some id;
  contract = none;
  finalized = some mid_february;
}

abbrev event : ℕ → Event ℕ
event id = proxy_event_row 0 (exported id) mid_february

one_event :
    insert_events same (proxy_events 0 (exported 1 ∷ exported 2 ∷ [])) (event 1 ∷ [])
    ≡ ok (event 1 ∷ event 2 ∷ [], 1)
unfolding insert_events proxy_events proxy_event_row month_of search_month month_start
    days_before_year days_before_month month_length is_leap
one_event = refl

insert_events_again_example :
    insert_events same (event 1 ∷ event 2 ∷ []) (event 1 ∷ event 2 ∷ [])
    ≡ ok (event 1 ∷ event 2 ∷ [], 0)
unfolding proxy_events proxy_event_row
insert_events_again_example =
    insert_events_again same same_refl (event 1 ∷ event 2 ∷ []) (event 1 ∷ [])
      ((refl, tt), (tt, tt)) one_event

insert_events-append_example :
    (new : List (Event ℕ)) × (event 1 ∷ event 2 ∷ [] ≡ (event 1 ∷ []) ++ new) × (1 ≡ length new)
insert_events-append_example =
    insert_events-append same same_refl (proxy_events 0 (exported 1 ∷ exported 2 ∷ []))
      (event 1 ∷ []) one_event
