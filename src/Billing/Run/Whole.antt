-- ===== src/Billing/Run/Whole.antt =====
-- A whole billing run rewrites nothing that is recorded, and charges no period twice.
use token_board.Base.{
  ℕ, ◌+◌, ◌≡◌, refl, inl, inr, Option, none, some, List, [], ◌∷◌, arith, Bool-cases, ok,
  ok-injective, >>=-returns, ◌>>=◌,
}
use mathlib.Core.Path.{subst}
use token_board.Time.{whole_second}
use token_board.Units.{BillingUnit}
use token_board.Units.Resolve.{Contract, Credential, proxy_units}
use token_board.Billing.{Charge}
use token_board.Billing.Resolve.{resolve_unit_period}
use token_board.Billing.Stream.{
  Pricing, Stream, Progress, stamped, stops, bill_period, bill_resolved,
}
use token_board.Billing.Stream.Frozen.{Kept, AllKept, Kept-refl, bill_period-AllKept}
use token_board.Billing.Stream.Unique.{IsTable, bill_period-IsTable}
use token_board.Billing.Run.{
  Tally, progress_of, start_tally, proxy_stream, freeze, attach, can_freeze, is_unowned,
  finalize_period_stream, bill_proxy_period, bill_proxy_unit, bill_proxy_units, bill_proxy_ledger,
}
use token_board.Billing.Run.Events.{Joins, export_ledgers, materialize_period_charges}
use token_board.Export.{Event}
use token_board.Billing.Run.Safe.{Safe, Safe-refl, Safe-trans, map-Safe}

module _ {F : Type 0} where
  pub bill_period-Safe :
      (p : Pricing F) (s : Stream) (now : ℕ) (period : ℕ × ℕ) (st : Progress F)
      → Safe st.charges (bill_period p s now period st).charges
  bill_period-Safe p s now period st t =
      (bill_period-AllKept p s now period st t.ids, bill_period-IsTable p s now period st t)

  freeze-Kept : (now : ℕ) (starts : List ℕ) (c : Charge F) → Kept c (freeze now starts c)
  freeze-Kept now starts c = elim (Bool-cases (can_freeze starts c)) [
    | inl freezes ↦
        let open_row : c.finalized ≡ none = ground arith in
        rw (freezes, freeze)
          (record {
            same_id = refl;
            same_owner = refl;
            same_credential = refl;
            same_start = refl;
            same_end = refl;
            same_price = refl;
            same_currency = refl;
            frozen_cost = λ f. absurd (f open_row);
            frozen_rate = λ f. absurd (f open_row);
            frozen_date = λ f. absurd (f open_row);
          })
    | inr stays ↦ rw (stays, freeze) (Kept-refl c)
  ]

  pub attach-Kept :
      (allocated : List ℕ) (owner software start : ℕ) (c : Charge F)
      → Kept c (attach allocated owner software start c)
  attach-Kept allocated owner software start c =
      elim (Bool-cases (is_unowned allocated owner start c)) [
        | inl unowned ↦
            rw (unowned, attach)
              (record {
                same_id = refl;
                same_owner = refl;
                same_credential = refl;
                same_start = refl;
                same_end = refl;
                same_price = refl;
                same_currency = refl;
                frozen_cost = λ _. refl;
                frozen_rate = λ _. refl;
                frozen_date = λ _. refl;
              })
        | inr owned ↦ rw (owned, attach) (Kept-refl c)
      ]

  pub finalize-Safe : (now : ℕ) (t : Tally F) → Safe t.charges (finalize_period_stream now t).0
  unfolding finalize_period_stream
  finalize-Safe now t = map-Safe (freeze now t.starts) (freeze-Kept now t.starts) t.charges

  bill_proxy_period-Safe :
      (p : Pricing F) (u : BillingUnit) (moment : ℕ) (period : Option (ℕ × ℕ)) (t : Tally F)
      → Safe t.charges (bill_proxy_period p u moment period t).charges
  unfolding bill_proxy_period
  bill_proxy_period-Safe p u moment none t = Safe-refl t.charges
  bill_proxy_period-Safe p u moment (some period) t =
      elim (Bool-cases (stops (proxy_stream u) moment period.0)) [
        | inl over ↦ rw (over, bill_resolved) (Safe-refl t.charges)
        | inr due ↦
            rw (due, bill_resolved)
              (bill_period-Safe p (proxy_stream u) moment (stamped period)
                (progress_of t u.currency))
      ]

  bill_proxy_units-Safe :
      (p : Pricing F) (moment : ℕ) (us : List BillingUnit) (t : Tally F) {t' : Tally F}
      → bill_proxy_units p moment us t ≡ ok t'
      → Safe t.charges t'.charges
  unfolding bill_proxy_units
  bill_proxy_units-Safe p moment [] t h =
      subst (λ (r : Tally F). Safe t.charges r.charges) (ok-injective h) (Safe-refl t.charges)
  bill_proxy_units-Safe p moment (u ∷ us) t {t'} h =
      let (t1, e, h1) =
        >>=-returns (bill_proxy_unit p moment u t) (λ t1. bill_proxy_units p moment us t1) h in
      let (period, _, e') =
        >>=-returns (resolve_unit_period t.charges u moment)
          (λ period. ok (bill_proxy_period p u moment period t)) e in
      Safe-trans t.charges t1.charges t'.charges
        (subst (λ (r : Tally F). Safe t.charges r.charges) (ok-injective e')
          (bill_proxy_period-Safe p u moment period t))
        (bill_proxy_units-Safe p moment us t1 h1)

  bill_proxy_ledger-Safe :
      (p : Pricing F) (contracts : List Contract) (credentials : List Credential) (at : ℕ)
      (charges : List (Charge F)) {run : List (Charge F) × ℕ}
      → bill_proxy_ledger p contracts credentials at charges ≡ ok run
      → Safe charges run.0
  unfolding bill_proxy_ledger
  bill_proxy_ledger-Safe p contracts credentials at charges h =
      let moment : ℕ = whole_second at in
      let (units, _, h1) =
        >>=-returns (proxy_units contracts credentials moment)
          (λ units. bill_proxy_units p moment units (start_tally charges) >>= λ t.
            ok (finalize_period_stream moment t))
          h in
      let (t, e, h2) =
        >>=-returns (bill_proxy_units p moment units (start_tally charges))
          (λ t. ok (finalize_period_stream moment t)) h1 in
      subst (λ (r : List (Charge F) × ℕ). Safe charges r.0) (ok-injective h2)
        (Safe-trans charges t.charges (finalize_period_stream moment t).0
          (bill_proxy_units-Safe p moment units (start_tally charges) e) (finalize-Safe moment t))

  -- The export leaves the ledger as it is.
  export_ledgers-ledger :
      (j : Joins F) (proxies agents : List (Charge F)) (events : List (Event F))
      (run : List (Charge F) × ℕ) {r : List (Charge F) × List (Event F) × ℕ}
      → export_ledgers j proxies agents events run ≡ ok r
      → run.0 ≡ r.0
  unfolding export_ledgers
  export_ledgers-ledger j proxies agents events run h =
      let (_, _, e) = >>=-returns _ (λ (e : List (Event F) × ℕ). ok (run.0, e.0, run.1 + e.1)) h in
      λ i. (ok-injective e i).0

  -- A proxy billing run on a table with unique ids and keys that returns has kept the key, period,
  -- price and currency of every recorded row, and the cost, rate date and freezing date of every
  -- frozen one, has added its rows behind them, and leaves ids and the key of contract, credential
  -- and period start unique.
  pub materialize_period_charges-Safe :
      (p : Pricing F) (j : Joins F) (contracts : List Contract) (credentials : List Credential)
      (at : ℕ) (charges agents : List (Charge F)) (events : List (Event F))
      {charges' : List (Charge F)} {events' : List (Event F)} {changed : ℕ}
      → IsTable charges
      → materialize_period_charges p j contracts credentials at charges agents events
        ≡ ok (charges', events', changed)
      → AllKept charges charges' × IsTable charges'
  unfolding materialize_period_charges
  materialize_period_charges-Safe p j contracts credentials at charges agents events table h =
      let (run, billed, exported) =
        >>=-returns (bill_proxy_ledger p contracts credentials at charges)
          (λ (run : List (Charge F) × ℕ). export_ledgers j run.0 agents events run) h in
      subst (λ (cs : List (Charge F)). AllKept charges cs × IsTable cs)
        (export_ledgers-ledger j run.0 agents events run exported)
        (bill_proxy_ledger-Safe p contracts credentials at charges billed table)
