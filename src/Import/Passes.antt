-- ===== src/Import/Passes.antt =====
-- A pass over the sources of one software: what it keeps, and what an exception undoes.
use token_board.Base.{
  ℕ, ◌+◌, ◌≡◌, refl, sym, inl, inr, Bool, Option, none, some, List, [], ◌∷◌, length, Bool-cases,
  Option-cases, arith,
}
use mathlib.Core.Path.{subst}
use token_board.Import.{insert_batch}
use token_board.Import.Rows.{IsLog, insert_batch-IsLog}
use token_board.Import.Scan.{
  Stat, ParseBatch, Parsed, Coerced, Visit, Database, Pass, Step, next, return, raise, Outcome,
  returned, raised, state_at, is_unchanged, warn, advance, fail_pass, write_batch, write_stable,
  take_answer, coerce_batch, visit_source, visit_sources, import_software, states_of,
}

module _ {F : Type 0} where
  -- The tables and the cursor are as before; only the last error may be new.
  abbrev pub IsUndone : Pass F → Pass F → Type 0
  IsUndone p q =
      (q.database.store ≡ p.database.store)
      × (q.database.cursor ≡ p.database.cursor)
      × (q.inserted ≡ p.inserted)

  abbrev pub Raises : Pass F → Step F → Type 0
  Raises p (next _) = Unit
  Raises p (return q) = q ≡ p
  Raises p (raise q) = IsUndone p q

  -- The log of a pass, with the rows that it has counted.
  abbrev pub Grows : Pass F → Pass F → Type 0
  Grows p q =
      IsLog q.database.store
      × (length q.database.store.log + p.inserted ≡ q.inserted + length p.database.store.log)

  abbrev StepGrows : Pass F → Step F → Type 0
  StepGrows p (next q) = Grows p q
  StepGrows p (return q) = Grows p q
  StepGrows p (raise q) = Grows p q

  abbrev pub OutcomeGrows : Pass F → Outcome F → Type 0
  OutcomeGrows p (returned q) = Grows p q
  OutcomeGrows p (raised q) = Grows p q

  warn_keeps : (w : Option ℕ) (p : Pass F) → IsUndone p (warn w p)
  unfolding warn
  warn_keeps none p = (refl, refl, refl)
  warn_keeps (some w) p = (refl, refl, refl)

  -- An advance of the cursor leaves the tables and the count.
  advance_keeps :
      (key : ℕ) (b : ParseBatch) (before after : Stat) (p : Pass F)
      → ((advance key b before after p).database.store ≡ p.database.store)
        × ((advance key b before after p).inserted ≡ p.inserted)
  unfolding advance warn
  advance_keeps key b before after p = ground arith

  kept_Grows :
      (p q : Pass F)
      → IsLog p.database.store
      → q.database.store ≡ p.database.store
      → q.inserted ≡ p.inserted
      → Grows p q
  kept_Grows p q h e k = (subst IsLog (sym e) h, rw (e, k) (omega arith))

module _ {F : Type 0} (nought : F) (speed : ℕ → ℕ → F) (software : ℕ) where
  write_batch-StepGrows :
      (v : Visit) (b : ParseBatch) (before after : Stat) (p : Pass F)
      → IsLog p.database.store
      → StepGrows p (write_batch nought speed software v b before after p)
  unfolding write_batch fail_pass
  write_batch-StepGrows v b before after p h = elim (Bool-cases v.fails) [
    | inl failed ↦ rw failed (h, omega arith)
    | inr done ↦
        let (log, grown) = insert_batch-IsLog nought speed software b.events p.database.store h in
        let written : Pass F = record p {
          database = record p.database {
            store = (insert_batch nought speed software b.events p.database.store).0;
          };
          inserted = p.inserted + (insert_batch nought speed software b.events p.database.store).1;
        } in
        let (store, count) = advance_keeps v.state_key b before after written in
        rw done (subst IsLog (sym store) log, rw (store, count) (omega (arith, grown)))
  ]

  take_answer-StepGrows :
      (v : Visit) (before : Stat) (answer : Option Parsed) (p : Pass F)
      → IsLog p.database.store
      → StepGrows p (take_answer nought speed software v before answer p)
  unfolding take_answer write_stable fail_pass
  take_answer-StepGrows v before none p h = (h, omega arith)
  take_answer-StepGrows v before (some parsed) p h = go (coerce_batch parsed) v.after
    where
      stable :
          (b : ParseBatch) (after : Option Stat)
          → StepGrows p (write_stable nought speed software v b before after p)
      stable b none = (h, omega arith)
      stable b (some after) = write_batch-StepGrows v b before after p h

      go :
          (c : Coerced) (after : Option Stat)
          → StepGrows p (elim c [
            | Coerced.stops ↦ return p
            | Coerced.refuses ↦ fail_pass p
            | Coerced.gives b ↦ write_stable nought speed software v b before after p
          ])
      go Coerced.stops after = (h, omega arith)
      go Coerced.refuses after = (h, omega arith)
      go (Coerced.gives b) after = stable b after

  visit_source-StepGrows :
      (always_scan : Bool) (v : Visit) (p : Pass F)
      → IsLog p.database.store
      → StepGrows p (visit_source nought speed software always_scan v p)
  unfolding visit_source
  visit_source-StepGrows always_scan v p h = elim (Bool-cases v.is_stopped) [
    | inl stopped ↦ rw stopped (h, omega arith)
    | inr going ↦ rw going (elim (Option-cases v.before) [
      | inl unreadable ↦ rw unreadable (
          let (store, _, count) = warn_keeps v.warnings p in
          kept_Grows p (warn v.warnings p) h store count)
      | inr (before, readable) ↦
          rw readable
            (elim (Bool-cases (is_unchanged always_scan (state_at v.state_key p.states) before)) [
              | inl same ↦ rw same (h, omega arith)
              | inr changed ↦ rw changed (take_answer-StepGrows v before v.answer p h)
            ])
    ])
  ]

  abbrev Chains : Pass F → Pass F → Outcome F → Type 0
  Chains p q o = Grows p q → OutcomeGrows q o → OutcomeGrows p o

  chains : (p q : Pass F) (o : Outcome F) → Chains p q o
  chains p q (returned r) (_, n) (log, m) = (log, omega (arith, n, m))
  chains p q (raised r) (_, n) (log, m) = (log, omega (arith, n, m))

  visit_sources-OutcomeGrows :
      (always_scan : Bool) (vs : List Visit) (p : Pass F)
      → IsLog p.database.store
      → OutcomeGrows p (visit_sources nought speed software always_scan vs p)
  unfolding visit_sources
  visit_sources-OutcomeGrows always_scan [] p h = (h, omega arith)
  visit_sources-OutcomeGrows always_scan (v ∷ vs) p h =
      go (λ q. visit_sources-OutcomeGrows always_scan vs q)
        (visit_source nought speed software always_scan v p)
        (visit_source-StepGrows always_scan v p h)
    where
      go :
          ((q : Pass F)
            → IsLog q.database.store
            → OutcomeGrows q (visit_sources nought speed software always_scan vs q))
          → (s : Step F) → StepGrows p s
          → OutcomeGrows p (elim s [
            | next q ↦ visit_sources nought speed software always_scan vs q
            | return q ↦ returned q
            | raise q ↦ raised q
          ])
      go rest (next q) g =
          chains p q (visit_sources nought speed software always_scan vs q) g (rest q g.0)
      go rest (return q) g = g
      go rest (raise q) g = g

  -- However a pass over the sources of a software ends (stopped, cancelled, raised or complete), a log
  -- with one row for each event id and a receipt for each row stays such a log, and the count of the
  -- pass is the number of rows that the log has gained.
  pub import_software-Grows :
      (always_scan : Bool) (visits : List Visit) (d : Database F)
      → IsLog d.store
      → OutcomeGrows
          (record { database = d; states = states_of d.cursor; inserted = 0 })
          (import_software nought speed software always_scan visits d)
  unfolding import_software
  import_software-Grows always_scan visits d h =
      visit_sources-OutcomeGrows always_scan visits
        (record { database = d; states = states_of d.cursor; inserted = 0 }) h

  write_batch-Raises :
      (v : Visit) (b : ParseBatch) (before after : Stat) (p : Pass F)
      → Raises p (write_batch nought speed software v b before after p)
  unfolding write_batch fail_pass
  write_batch-Raises v b before after p = elim (Bool-cases v.fails) [
    | inl failed ↦ rw failed (refl, refl, refl)
    | inr done ↦ rw done tt
  ]

  take_answer-Raises :
      (v : Visit) (before : Stat) (answer : Option Parsed) (p : Pass F)
      → Raises p (take_answer nought speed software v before answer p)
  unfolding take_answer write_stable fail_pass
  take_answer-Raises v before none p = (refl, refl, refl)
  take_answer-Raises v before (some parsed) p = go (coerce_batch parsed) v.after
    where
      stable :
          (b : ParseBatch) (after : Option Stat)
          → Raises p (write_stable nought speed software v b before after p)
      stable b none = tt
      stable b (some after) = write_batch-Raises v b before after p

      go :
          (c : Coerced) (after : Option Stat)
          → Raises p (elim c [
            | Coerced.stops ↦ return p
            | Coerced.refuses ↦ fail_pass p
            | Coerced.gives b ↦ write_stable nought speed software v b before after p
          ])
      go Coerced.stops after = refl
      go Coerced.refuses after = (refl, refl, refl)
      go (Coerced.gives b) after = stable b after

  -- A source is imported as a whole or not at all: a visit that raises (in the parser, on its answer or
  -- in the transaction) leaves the tables, the stored cursor and the count as they were, and a visit
  -- that ends the pass early (the stop flag, a cancelled parser) changes nothing.
  pub visit_source-Raises :
      (always_scan : Bool) (v : Visit) (p : Pass F)
      → Raises p (visit_source nought speed software always_scan v p)
  unfolding visit_source
  visit_source-Raises always_scan v p = elim (Bool-cases v.is_stopped) [
    | inl stopped ↦ rw stopped refl
    | inr going ↦ rw going (elim (Option-cases v.before) [
      | inl unreadable ↦ rw unreadable tt
      | inr (before, readable) ↦
          rw readable
            (elim (Bool-cases (is_unchanged always_scan (state_at v.state_key p.states) before)) [
              | inl same ↦ rw same tt
              | inr changed ↦ rw changed (take_answer-Raises v before v.answer p)
            ])
    ])
  ]
