-- ===== src/Billing/Stream/Rounds.antt =====
-- One round of the billing loop, by what the table holds for its period.
use token_board.Base.{ℕ, ◌/◌, ◌≡◌, Option, none, some}
use token_board.Time.{us_per_day}
use token_board.Billing.{Charge, find_charge}
use token_board.Billing.Stream.{
  Pricing, Stream, Progress, worth, insert_charge, complete_charge, revisit_charge, bill_period,
}

module _ {F : Type 0} (p : Pricing F) (s : Stream) (now : ℕ) (period : ℕ × ℕ)
    (st : Progress F) where
  abbrev found : Option (Charge F)
  found = find_charge s.owner s.credential period.0 st.charges

  pub bill_period-absent :
      found ≡ none → bill_period p s now period st ≡ insert_charge p s now period st
  unfolding bill_period
  bill_period-absent h = rw (h, bill_period)

  pub bill_period-open :
      (row : Charge F)
      → found ≡ some row
      → row.finalized ≡ none
      → bill_period p s now period st
        ≡ complete_charge now row (worth p row (period.0 / us_per_day)) st
  unfolding bill_period
  bill_period-open row h f = rw (h, bill_period) (rw (f, revisit_charge))

  pub bill_period-frozen :
      (row : Charge F) (date : ℕ)
      → found ≡ some row
      → row.finalized ≡ some date
      → bill_period p s now period st ≡ st
  unfolding bill_period
  bill_period-frozen row date h f = rw (h, bill_period) (rw (f, revisit_charge))
