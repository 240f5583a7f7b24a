-- ===== src/Billing/Stream.antt =====
-- `_materialize_period_stream`: the charge rows of one unit, period by period.
pub mod Rounds
pub mod Frozen
pub mod Unique
pub mod Again
use token_board.Base.{
  ℕ, zero, suc, ◌+◌, ◌/◌, Bool, true, false, ◌||◌, Option, none, some, List, [], ◌∷◌, ◌++◌, min,
  max, leb, ltb, ◌==◌, if◌then◌else◌, Result, ok, err, ◌>>=◌,
}
use token_board.Time.{us_per_day, next_billing_period, whole_second}
use token_board.Units.{Currency}
use token_board.Billing.{Charge, find_charge}
use token_board.Billing.Rates.{RateEvent, FxRate, Normalized, rate_from_table, normalized_charge}

-- The floats 0.0 and 1.0 and their product, and the rows of one rate table and of `fx_rates`.
pub record Pricing (F : Type 0) : Type 0 where
  pub nought : F
  pub one : F
  pub times : F → F → F
  pub events : List (RateEvent F)
  pub rates : List (FxRate F)

-- The arguments that identify a stream and bound it.
pub record Stream : Type 0 where
  pub owner : ℕ
  pub credential : Option ℕ
  pub subscription_id : Option ℕ
  pub software_id : Option ℕ
  pub ends_at : Option ℕ
  pub ends_on : Option ℕ

-- The table, the local variable `currency`, which an old row replaces, and the count.
pub record Progress (F : Type 0) : Type 0 where
  pub charges : List (Charge F)
  pub currency : Currency
  pub changed : ℕ

-- `min(moment, ended) if ended else moment`.
unfoldable pub cutoff_of : ℕ → Option ℕ → ℕ
cutoff_of moment none = moment
cutoff_of moment (some ends_at) = min moment (whole_second ends_at)

abbrev pub is_over : Option ℕ → ℕ → Bool
is_over none start = false
is_over (some ends_on) start = leb ends_on (start / us_per_day)

-- The two tests that break the loop.
unfoldable pub stops : Stream → ℕ → ℕ → Bool
stops s moment start = ltb (cutoff_of moment s.ends_at) start || is_over s.ends_on start

abbrev pub frozen_at : Bool → ℕ → Option ℕ
frozen_at true now = some now
frozen_at false now = none

-- `format_utc` of both ends: the table holds whole seconds.
abbrev pub stamped : ℕ × ℕ → ℕ × ℕ
stamped (start, end) = (whole_second start, whole_second end)

module _ {F : Type 0} where
  unfoldable pub next_id : List (Charge F) → ℕ
  next_id [] = 1
  next_id (c ∷ cs) = max (suc c.id) (next_id cs)

  -- The INSERT.
  unfoldable pub new_charge : Stream → ℕ → ℕ → ℕ × ℕ → F → Currency → Normalized F → Charge F
  new_charge s id now (start, end) price currency n = record {
    id = id;
    owner = s.owner;
    credential = s.credential;
    subscription_id = s.subscription_id;
    software_id = s.software_id;
    period_start = start;
    period_end = end;
    recurring_charge = price;
    currency = currency;
    normalized = n.cost;
    fx_rate_date = n.fx_date;
    finalized = frozen_at n.can_finalize now;
  }

  -- The UPDATE of one open row, by its id.
  unfoldable pub fill_charge : ℕ → Normalized F → Charge F → Charge F
  fill_charge now n c = record c {
    normalized = n.cost;
    fx_rate_date = n.fx_date;
    finalized = some now;
  }

  unfoldable pub update_charge : ℕ → (Charge F → Charge F) → List (Charge F) → List (Charge F)
  update_charge id f [] = []
  update_charge id f (c ∷ cs) = (if c.id == id then f c else c) ∷ update_charge id f cs

  -- What an open row is worth: what it says, or its own price at the stored rate.
  unfoldable pub worth : Pricing F → Charge F → ℕ → Normalized F
  unfolding normalized_charge
  worth p row date = elim row.normalized [
    | some cost ↦ record { cost = some cost; fx_date = row.fx_rate_date; can_finalize = true }
    | none ↦ normalized_charge p.one p.times p.rates row.recurring_charge row.currency date
  ]

  unfoldable pub insert_charge : Pricing F → Stream → ℕ → ℕ × ℕ → Progress F → Progress F
  unfolding new_charge next_id normalized_charge rate_from_table
  insert_charge p s now period st =
      let price = rate_from_table p.nought p.events s.owner period.0 in
      let n = normalized_charge p.one p.times p.rates price st.currency (period.0 / us_per_day) in
      record st {
        charges =
            st.charges ++ new_charge s (next_id st.charges) now period price st.currency n ∷ [];
        changed = suc st.changed;
      }

  unfoldable pub complete_charge : ℕ → Charge F → Normalized F → Progress F → Progress F
  unfolding fill_charge update_charge
  complete_charge now row n st =
      if n.can_finalize
      then record {
        charges = update_charge row.id (fill_charge now n) st.charges;
        currency = row.currency;
        changed = suc st.changed;
      }
      else record st { currency = row.currency }

  unfoldable pub revisit_charge : Pricing F → ℕ → ℕ → Charge F → Progress F → Progress F
  unfolding complete_charge worth
  revisit_charge p now date row st = elim row.finalized [
    | some _ ↦ st
    | none ↦ complete_charge now row (worth p row date) st
  ]

  -- One round of the loop: a period without a row gets one, an open row is filled in if it can
  -- be, and a frozen row is left alone.
  unfoldable pub bill_period : Pricing F → Stream → ℕ → ℕ × ℕ → Progress F → Progress F
  unfolding insert_charge revisit_charge find_charge
  bill_period p s now period st = elim (find_charge s.owner s.credential period.0 st.charges) [
    | none ↦ insert_charge p s now period st
    | some row ↦ revisit_charge p now (period.0 / us_per_day) row st
  ]

  -- The path with one resolved period.
  unfoldable pub bill_resolved : Pricing F → Stream → ℕ → ℕ → ℕ × ℕ → Progress F → Progress F
  unfolding bill_period stops
  bill_resolved p s moment now period st =
      if stops s moment period.0 then st else bill_period p s now (stamped period) st

  -- The path along the anchor calendar, on fuel; `none` means that the fuel ran out.
  unfoldable pub bill_chain :
      ℕ → Pricing F → Stream → ℕ → ℕ → ℕ → ℕ × ℕ → Progress F → Option (Result (Progress F))
  unfolding bill_period stops next_billing_period
  bill_chain zero p s anchor moment now period st = none
  bill_chain (suc fuel) p s anchor moment now period st = elim (stops s moment period.0) [
    | true ↦ some (ok st)
    | false ↦ elim (next_billing_period period.0 anchor) [
      | err e ↦ some (err e)
      | ok q ↦
          bill_chain fuel p s anchor moment now (q.start, q.end)
            (bill_period p s now (stamped period) st)
    ]
  ]
