-- ===== src/Billing/Stream/Again.antt =====
-- Billing a period twice: the second time changes nothing.
use token_board.Base.{
  ℕ, suc, ◌/◌, ◌≡◌, refl, sym, ap, ◌∙◌, inl, inr, false, Option, none, some, List, [], ◌∷◌, ◌++◌,
  arith, Bool-cases, Option-cases,
}
use token_board.Time.{us_per_day}
use token_board.Units.{Currency, cny, foreign}
use token_board.Billing.{Charge, find_charge}
use token_board.Billing.Rates.{normalized_charge, rate_from_table, FxRate}
use token_board.Billing.Stream.{
  Pricing, Stream, Progress, next_id, new_charge, frozen_at, fill_charge, update_charge, worth,
  insert_charge, complete_charge, bill_period,
}
use token_board.Billing.Stream.Rounds.{bill_period-absent, bill_period-open, bill_period-frozen}
use token_board.Billing.Stream.Unique.{find-append, find-fill, is_charge_self}

module _ {F : Type 0} where
  -- A charge that cannot be frozen has no normalized cost yet.
  pending_cost :
      (one : F) (times : F → F → F) (rates : List (FxRate F)) (price : F) (c : Currency) (date : ℕ)
      → (normalized_charge one times rates price c date).can_finalize ≡ false
      → (normalized_charge one times rates price c date).cost ≡ none
  unfolding normalized_charge
  pending_cost one times rates price cny date h = cc
  pending_cost one times rates price (foreign k) date h = ground arith

module _ {F : Type 0} (p : Pricing F) (s : Stream) (now : ℕ) (period : ℕ × ℕ) where
  abbrev lookup_in : Progress F → Option (Charge F)
  lookup_in st = find_charge s.owner s.credential period.0 st.charges

  abbrev date : ℕ
  date = period.0 / us_per_day

  -- A table whose open row for the period still waits for a rate.
  fixed_pending :
      (st : Progress F) (row : Charge F)
      → lookup_in st ≡ some row
      → row.finalized ≡ none
      → (worth p row date).can_finalize ≡ false
      → st.currency ≡ row.currency
      → bill_period p s now period st ≡ st
  unfolding complete_charge
  fixed_pending st row found open_row pending same =
      bill_period-open p s now period st row found open_row
      ∙ rw (pending, complete_charge) (ap (λ c. record st { currency = c }) (sym same))

  again_pending :
      (st : Progress F) (row : Charge F)
      → lookup_in st ≡ some row
      → row.finalized ≡ none
      → (worth p row date).can_finalize ≡ false
      → bill_period p s now period (record st { currency = row.currency })
        ≡ record st { currency = row.currency }
  again_pending st row found open_row pending =
      fixed_pending (record st { currency = row.currency }) row found open_row pending refl

  again_completed :
      (st : Progress F) (row : Charge F)
      → lookup_in st ≡ some row
      → bill_period p s now period (record {
        charges = update_charge row.id (fill_charge now (worth p row date)) st.charges;
        currency = row.currency;
        changed = suc st.changed;
      })
        ≡ record {
          charges = update_charge row.id (fill_charge now (worth p row date)) st.charges;
          currency = row.currency;
          changed = suc st.changed;
        }
  unfolding fill_charge
  again_completed st row found =
      bill_period-frozen p s now period _ (fill_charge now (worth p row date) row) now
        (find-fill s.owner s.credential period.0 now (worth p row date) row st.charges found) refl

  again_complete :
      (st : Progress F) (row : Charge F)
      → lookup_in st ≡ some row
      → row.finalized ≡ none
      → bill_period p s now period (complete_charge now row (worth p row date) st)
        ≡ complete_charge now row (worth p row date) st
  unfolding complete_charge
  again_complete st row found open_row = elim (Bool-cases (worth p row date).can_finalize) [
    | inl ready ↦ rw (ready, complete_charge) (again_completed st row found)
    | inr pending ↦ rw (pending, complete_charge) (again_pending st row found open_row pending)
  ]

  abbrev price : F
  price = rate_from_table p.nought p.events s.owner period.0

  -- The row that `insert_charge` adds.
  abbrev inserted : Progress F → Charge F
  inserted st =
      new_charge s (next_id st.charges) now period price st.currency
        (normalized_charge p.one p.times p.rates price st.currency date)

  find-inserted :
      (st : Progress F)
      → lookup_in st ≡ none
      → find_charge s.owner s.credential period.0 (st.charges ++ inserted st ∷ [])
        ≡ some (inserted st)
  unfolding new_charge
  find-inserted st absent =
      find-append s.owner s.credential period.0 st.charges (inserted st) absent
      ∙ rw (is_charge_self (inserted st))

  -- The row that waits for a rate waits for the same rate when it is read again.
  still_pending :
      (st : Progress F)
      → (normalized_charge p.one p.times p.rates price st.currency date).can_finalize ≡ false
      → (worth p (inserted st) date).can_finalize ≡ false
  unfolding worth new_charge
  still_pending st pending =
      rw (pending_cost p.one p.times p.rates price st.currency date pending, worth) pending

  again_inserted :
      (st : Progress F)
      → lookup_in st ≡ none
      → bill_period p s now period (insert_charge p s now period st)
        ≡ insert_charge p s now period st
  unfolding insert_charge new_charge
  again_inserted st absent =
      elim (Bool-cases
        (normalized_charge p.one p.times p.rates price st.currency date).can_finalize) [
          | inl ready ↦
              bill_period-frozen p s now period (insert_charge p s now period st) (inserted st) now
                (find-inserted st absent) (ap (λ b. frozen_at b now) ready)
          | inr pending ↦
              fixed_pending (insert_charge p s now period st) (inserted st)
                (find-inserted st absent) (ap (λ b. frozen_at b now) pending)
                (still_pending st pending) refl
        ]

  -- Billing the same period again, at the same moment, changes nothing: no row, no count. A period
  -- is charged once however often the worker runs.
  pub bill_period_again :
      (st : Progress F)
      → bill_period p s now period (bill_period p s now period st) ≡ bill_period p s now period st
  bill_period_again st = elim (Option-cases (lookup_in st)) [
    | inl absent ↦ rw (bill_period-absent p s now period st absent) (again_inserted st absent)
    | inr (row, found) ↦ elim (Option-cases row.finalized) [
      | inl open_row ↦
          rw (bill_period-open p s now period st row found open_row)
            (again_complete st row found open_row)
      | inr (frozen_date, frozen) ↦
          ap (bill_period p s now period)
            (bill_period-frozen p s now period st row frozen_date found frozen)
    ]
  ]

  find_inserted_charge :
      (st : Progress F)
      → lookup_in st ≡ none
      → lookup_in (insert_charge p s now period st) ≡ some (inserted st)
  unfolding insert_charge
  find_inserted_charge st absent = find-inserted st absent

  found_after_complete :
      (st : Progress F) (row : Charge F)
      → lookup_in st ≡ some row
      → (row' : Charge F) × (lookup_in (complete_charge now row (worth p row date) st) ≡ some row')
  unfolding complete_charge
  found_after_complete st row found = elim (Bool-cases (worth p row date).can_finalize) [
    | inl ready ↦ rw ready (
      fill_charge now (worth p row date) row,
      find-fill s.owner s.credential period.0 now (worth p row date) row st.charges found,
    )
    | inr pending ↦ rw pending (row, found)
  ]

  -- After one round the period has a row, and the row that a lookup finds is a charge of the
  -- stream for that period.
  pub bill_period-charges :
      (st : Progress F) → (row : Charge F) × (lookup_in (bill_period p s now period st) ≡ some row)
  bill_period-charges st = elim (Option-cases (lookup_in st)) [
    | inl absent ↦
        rw (bill_period-absent p s now period st absent)
          (inserted st, find_inserted_charge st absent)
    | inr (row, found) ↦ elim (Option-cases row.finalized) [
      | inl open_row ↦
          rw (bill_period-open p s now period st row found open_row)
            (found_after_complete st row found)
      | inr (frozen_date, frozen) ↦
          rw (bill_period-frozen p s now period st row frozen_date found frozen) (row, found)
    ]
  ]
