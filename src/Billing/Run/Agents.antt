-- ===== src/Billing/Run/Agents.antt =====
-- The agent run: its walk along the anchor calendar ends after the current period, and it is as
-- safe as the proxy run.
use token_board.Base.{
  ℕ, suc, ◌+◌, ◌*◌, ◌/◌, ◌≤◌, ◌<◌, ◌≡◌, refl, inl, inr, Bool, true, Option, none, some, List, [],
  ◌∷◌, arith, lt→ltb, Bool-cases, Result, ok,
}
use token_board.Time.{BillingPeriod, billing_period, whole_second, month_start, us_per_day}
use token_board.Time.Period.{billing_period-bounds, period_end_below}
use token_board.Time.Months.{month_start_mono}
use token_board.Time.Chain.{next_billing_period_contiguous}
use token_board.Units.{BillingUnit, anchor_day}
use token_board.Units.Resolve.{Instance, Binding, agent_units}
use token_board.Billing.{Charge}
use token_board.Billing.Resolve.Suspended.{calendar_answers}
use token_board.Billing.Stream.{
  Pricing, Stream, Progress, stamped, stops, cutoff_of, bill_period, bill_resolved, bill_chain,
}
use token_board.Billing.Stream.Frozen.{AllKept}
use token_board.Billing.Stream.Unique.{IsTable}
use token_board.Billing.Run.{
  Tally, progress_of, start_tally, agent_stream, attach, finalize_period_stream, attached, tally_of,
  bill_agent_period, bill_agent_units, bill_agent_ledger,
}
use token_board.Billing.Run.Events.{
  Joins, proxy_rows, agent_rows, allocation_rows, export_ledgers,
  materialize_agent_subscription_charges,
}
use token_board.Export.Rows.{ensure_billing_export_events}
use token_board.Export.Ends.{Ends, Ends->>=, ensure_billing_export_events-Ends}
use token_board.Export.{Event}
use token_board.Billing.Run.Safe.{Safe, Safe-refl, Safe-trans, map-Safe}
use token_board.Billing.Run.Whole.{bill_period-Safe, finalize-Safe, attach-Kept}

cutoff-le : (moment : ℕ) (ends_at : Option ℕ) → cutoff_of moment ends_at ≤ moment
unfolding cutoff_of
cutoff-le moment none = omega arith
cutoff-le moment (some t) = omega arith

-- A period that starts after the moment ends the walk.
stops_after : (s : Stream) (moment start : ℕ) → moment < start → stops s moment start ≡ true
unfolding stops
stops_after s moment start h =
    rw (lt→ltb (cutoff_of moment s.ends_at) start (omega (arith, cutoff-le moment s.ends_at)))

module _ {F : Type 0} where
  bill_chain_stop :
      (fuel : ℕ) (p : Pricing F) (s : Stream) (anchor moment now : ℕ) (period : ℕ × ℕ)
      (st : Progress F)
      → stops s moment period.0 ≡ true
      → bill_chain (suc fuel) p s anchor moment now period st ≡ some (ok st)
  unfolding bill_chain
  bill_chain_stop fuel p s anchor moment now period st h = rw (h, bill_chain)

  -- From the current period the walk bills that period and ends: two rounds are enough fuel.
  pub bill_chain_current :
      (fuel : ℕ) (p : Pricing F) (s : Stream) (anchor moment now : ℕ) (st : Progress F)
      {q : BillingPeriod}
      → moment < month_start 119_985 * us_per_day
      → billing_period moment anchor ≡ ok q
      → bill_chain (suc (suc fuel)) p s anchor moment now (q.start, q.end) st
        ≡ some (ok (bill_resolved p s moment now (q.start, q.end) st))
  unfolding bill_chain bill_resolved
  bill_chain_current fuel p s anchor moment now st {q} below h =
      elim (Bool-cases (stops s moment q.start)) [
        | inl over ↦ rw (over, bill_chain)
        | inr due ↦
            let (from, to) = billing_period-bounds moment anchor h in
            let (q', e, starts, _, _) =
              next_billing_period_contiguous moment anchor h
                (period_end_below moment anchor 119_985 h below) in
            let next_stops : stops s moment q'.start ≡ true =
              stops_after s moment q'.start (omega arith) in
            rw (due, bill_chain)
              (rw e (
                rw (
                  bill_chain_stop fuel p s anchor moment now (q'.start, q'.end)
                    (bill_period p s now (stamped (q.start, q.end)) st) next_stops)))
      ]

  attached-Safe :
      (allocated : List ℕ) (u : BillingUnit) (start : ℕ) (t : Tally F)
      → Safe t.charges (attached allocated u start t).charges
  unfolding attached
  attached-Safe allocated u start t =
      map-Safe (attach allocated u.owner_id u.account_id start)
        (attach-Kept allocated u.owner_id u.account_id start) t.charges

  bill_resolved-Safe :
      (p : Pricing F) (s : Stream) (moment now : ℕ) (period : ℕ × ℕ) (st : Progress F)
      → Safe st.charges (bill_resolved p s moment now period st).charges
  unfolding bill_resolved
  bill_resolved-Safe p s moment now period st = elim (Bool-cases (stops s moment period.0)) [
    | inl over ↦ rw (over, bill_resolved) (Safe-refl st.charges)
    | inr due ↦ rw (due, bill_resolved) (bill_period-Safe p s now (stamped period) st)
  ]

  abbrev Goes : List (Charge F) → Option (Result (Tally F)) → Type 0
  Goes charges r = (t : Tally F) × (r ≡ some (ok t)) × Safe charges t.charges

  bill_agent_period-Goes :
      (p : Pricing F) (allocated : List ℕ) (moment : ℕ) (u : BillingUnit) (q : BillingPeriod)
      (t : Tally F)
      → moment < month_start 119_985 * us_per_day
      → billing_period moment (anchor_day u) ≡ ok q
      → Goes t.charges (bill_agent_period p allocated moment u q t)
  unfolding bill_agent_period
  bill_agent_period-Goes p allocated moment u q t below h =
      let owned : Tally F = attached allocated u (whole_second q.start) t in
      let st : Progress F =
        bill_resolved p (agent_stream u) moment (moment / us_per_day) (q.start, q.end)
          (progress_of owned u.currency) in
      (
        tally_of owned.starts st,
        rw (
          bill_chain_current 119_986 p (agent_stream u) (anchor_day u) moment (moment / us_per_day)
              (progress_of owned u.currency) below h,
          bill_agent_period,
        ),
        Safe-trans t.charges owned.charges st.charges
            (attached-Safe allocated u (whole_second q.start) t)
            (bill_resolved-Safe p (agent_stream u) moment (moment / us_per_day) (q.start, q.end)
              (progress_of owned u.currency)),
      )

  bill_agent_units-Goes :
      (p : Pricing F) (allocated : List ℕ) (moment : ℕ) (us : List BillingUnit) (t : Tally F)
      → month_start 1 * us_per_day ≤ moment
      → moment < month_start 119_985 * us_per_day
      → Goes t.charges (bill_agent_units p allocated moment us t)
  unfolding bill_agent_units
  bill_agent_units-Goes p allocated moment [] t from below = (t, refl, Safe-refl t.charges)
  bill_agent_units-Goes p allocated moment (u ∷ us) t from below =
      let (q, e) =
        calendar_answers u moment
          (from, omega (arith, month_start_mono 119_985 119_986 (omega arith))) in
      let (t1, e1, safe1) = bill_agent_period-Goes p allocated moment u q t below e in
      let (t2, e2, safe2) = bill_agent_units-Goes p allocated moment us t1 from below in
      (
        t2,
        rw (e, bill_agent_units) (rw e1 e2),
        Safe-trans t.charges t1.charges t2.charges safe1 safe2,
      )

  abbrev Returns : List (Charge F) → Option (Result (List (Charge F) × ℕ)) → Type 0
  Returns charges r = (run : List (Charge F) × ℕ) × (r ≡ some (ok run)) × Safe charges run.0

  bill_agent_ledger-Returns :
      (p : Pricing F) (allocated : List ℕ) (instances : List Instance) (bindings : List Binding)
      (include_ended : Bool) (at : ℕ) (charges : List (Charge F))
      → month_start 1 * us_per_day ≤ whole_second at
      → whole_second at < month_start 119_985 * us_per_day
      → Returns charges (bill_agent_ledger p allocated instances bindings include_ended at charges)
  unfolding bill_agent_ledger
  bill_agent_ledger-Returns p allocated instances bindings include_ended at charges from below =
      let moment : ℕ = whole_second at in
      let (t, e, safe) =
        bill_agent_units-Goes p allocated moment
          (agent_units instances bindings include_ended moment) (start_tally charges) from below in
      let today : ℕ = moment / us_per_day in
      (
        finalize_period_stream today t,
        rw (e, bill_agent_ledger),
        Safe-trans charges t.charges (finalize_period_stream today t).0 safe
            (finalize-Safe today t),
      )

  export_ledgers-Ends :
      (j : Joins F) (proxies agents : List (Charge F)) (events : List (Event F))
      (run : List (Charge F) × ℕ)
      → Ends (export_ledgers j proxies agents events run)
  unfolding export_ledgers
  export_ledgers-Ends j proxies agents events run =
      Ends->>=
        (ensure_billing_export_events j.nought j.same (proxy_rows j.proxy_columns proxies)
          (agent_rows j.agent_columns agents) (allocation_rows agents j.allocations) events)
        (λ (e : List (Event F) × ℕ). ok (run.0, e.0, run.1 + e.1))
        (ensure_billing_export_events-Ends j.same j.nought (proxy_rows j.proxy_columns proxies)
          (agent_rows j.agent_columns agents) (allocation_rows agents j.allocations) events)
        (λ e. inl ((run.0, e.0, run.1 + e.1), refl))

  -- From February of year 1 to August of year 9999 an agent billing run bills every unit: no date
  -- raises, and the walk along the calendar has fuel enough. Its outcome is that of the export pass
  -- over the ledger it has made, so it returns, or raises `ValueError` there. From a table with unique ids and keys that ledger keeps the key,
  -- period, price and currency of every recorded row, and the cost, rate date and freezing date of
  -- every frozen one, has the new rows behind them, and unique ids and keys.
  pub materialize_agent_subscription_charges-Safe :
      (p : Pricing F) (j : Joins F) (allocated : List ℕ) (instances : List Instance)
      (bindings : List Binding) (include_ended : Bool) (at : ℕ) (charges proxies : List (Charge F))
      (events : List (Event F))
      → month_start 1 * us_per_day ≤ whole_second at
      → whole_second at < month_start 119_985 * us_per_day
      → IsTable charges
      → (charges' : List (Charge F)) × (changed : ℕ) × (materialize_agent_subscription_charges p j
            allocated instances bindings include_ended at charges proxies events
          ≡ some (export_ledgers j proxies charges' events (charges', changed)))
        × AllKept charges charges'
        × IsTable charges'
        × Ends (export_ledgers j proxies charges' events (charges', changed))
  unfolding materialize_agent_subscription_charges
  materialize_agent_subscription_charges-Safe p j allocated instances bindings include_ended at
        charges proxies events from below table =
      let (run, e, safe) =
        bill_agent_ledger-Returns p allocated instances bindings include_ended at charges from
          below in
      let (kept, table') = safe table in
      (
        run.0,
        run.1,
        rw (e, materialize_agent_subscription_charges),
        kept,
        table',
        export_ledgers-Ends j proxies run.0 events run,
      )
