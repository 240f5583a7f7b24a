-- ===== src/Import/Rows.antt =====
-- The import log: one row for each event id, and a receipt for each row.
use token_board.Base.{
  ℕ, ◌+◌, ◌≡◌, refl, inl, inr, Bool, true, false, ◌||◌, List, [], ◌∷◌, ◌++◌, All, All-append,
  length, length-append, ltb, if◌then◌else◌, Bool-cases, arith,
}
use token_board.Import.{
  UsageEvent, LogRow, Store, has_receipt, is_logged, fill_duration, log_row, refresh_row, add_row,
  insert_agent_usage_row, insert_event, insert_batch, estimated_output_tps,
}

pub has_receipt-append :
    (id : ℕ) (rs qs : List ℕ) → has_receipt id (rs ++ qs) ≡ (has_receipt id rs || has_receipt id qs)
has_receipt-append id [] qs = refl
has_receipt-append id (r ∷ rs) qs = ground (arith, has_receipt-append id rs qs)

module _ {F : Type 0} where
  abbrev pub HasUniqueEvents : List (LogRow F) → Type 0
  HasUniqueEvents [] = Unit
  HasUniqueEvents (r ∷ rs) = (is_logged r.event_id rs ≡ false) × HasUniqueEvents rs

  -- The unique index of the log, and a permanent receipt for each of its rows.
  pub record IsLog (s : Store F) : Type 0 where
    pub unique : HasUniqueEvents s.log
    pub receipted : All (λ (r : LogRow F). has_receipt r.event_id s.receipts ≡ true) s.log

  pub is_logged-append :
      (id : ℕ) (xs ys : List (LogRow F))
      → is_logged id (xs ++ ys) ≡ (is_logged id xs || is_logged id ys)
  is_logged-append id [] ys = refl
  is_logged-append id (x ∷ xs) ys = ground (arith, is_logged-append id xs ys)

  pub is_logged-fill :
      (key id duration : ℕ) (tps : F) (rs : List (LogRow F))
      → is_logged key (fill_duration id duration tps rs) ≡ is_logged key rs
  unfolding fill_duration
  is_logged-fill key id duration tps [] = refl
  is_logged-fill key id duration tps (r ∷ rs) =
      ground (arith, is_logged-fill key id duration tps rs)

  fill-HasUniqueEvents :
      (id duration : ℕ) (tps : F) (rs : List (LogRow F))
      → HasUniqueEvents rs
      → HasUniqueEvents (fill_duration id duration tps rs)
  unfolding fill_duration
  fill-HasUniqueEvents id duration tps [] h = tt
  fill-HasUniqueEvents id duration tps (r ∷ rs) (fresh, h) = (
    ground (arith, is_logged-fill r.event_id id duration tps rs),
    fill-HasUniqueEvents id duration tps rs h,
  )

  fill-receipted :
      (id duration : ℕ) (tps : F) (receipts : List ℕ) (rs : List (LogRow F))
      → All (λ (r : LogRow F). has_receipt r.event_id receipts ≡ true) rs
      → All
          (λ (r : LogRow F). has_receipt r.event_id receipts ≡ true)
          (fill_duration id duration tps rs)
  unfolding fill_duration
  fill-receipted id duration tps receipts [] h = tt
  fill-receipted id duration tps receipts (r ∷ rs) (h, hs) =
      (ground arith, fill-receipted id duration tps receipts rs hs)

  length-fill :
      (id duration : ℕ) (tps : F) (rs : List (LogRow F))
      → length (fill_duration id duration tps rs) ≡ length rs
  unfolding fill_duration
  length-fill id duration tps [] = refl
  length-fill id duration tps (r ∷ rs) = omega (arith, length-fill id duration tps rs)

  append-HasUniqueEvents :
      (rs : List (LogRow F)) (new : LogRow F)
      → HasUniqueEvents rs
      → is_logged new.event_id rs ≡ false
      → HasUniqueEvents (rs ++ new ∷ [])
  append-HasUniqueEvents [] new h k = (refl, tt)
  append-HasUniqueEvents (r ∷ rs) new (fresh, h) k = (
    ground (arith, is_logged-append r.event_id rs (new ∷ [])),
    append-HasUniqueEvents rs new h (ground arith),
  )

  -- What one insertion does to the log: it stays a log, and it grows by one exactly on true.
  abbrev Inserts : Store F → Store F × Bool → Type 0
  Inserts s r = IsLog r.0 × (length r.0.log ≡ (if r.1 then 1 else 0) + length s.log)

  refresh-Inserts :
      (e : UsageEvent) (tps : F) (s : Store F) → IsLog s → Inserts s (refresh_row e tps s, false)
  unfolding refresh_row
  refresh-Inserts e tps s h = elim (Bool-cases (ltb 0 e.duration_ms)) [
    | inl timed ↦ rw timed (
      record {
        unique = fill-HasUniqueEvents e.event_id e.duration_ms tps s.log h.unique;
        receipted = fill-receipted e.event_id e.duration_ms tps s.receipts s.log h.receipted;
      },
      omega (arith, length-fill e.event_id e.duration_ms tps s.log),
    )
    | inr untimed ↦ rw untimed (h, omega arith)
  ]

  more_receipts :
      (receipts new : List ℕ) (rs : List (LogRow F))
      → All (λ (r : LogRow F). has_receipt r.event_id receipts ≡ true) rs
      → All (λ (r : LogRow F). has_receipt r.event_id (receipts ++ new) ≡ true) rs
  more_receipts receipts new [] h = tt
  more_receipts receipts new (r ∷ rs) (h, hs) =
      (ground (arith, has_receipt-append r.event_id receipts new), more_receipts receipts new rs hs)

  add-Inserts :
      (software : ℕ) (e : UsageEvent) (tps : F) (s : Store F)
      → IsLog s
      → Inserts s (add_row software e tps s)
  unfolding add_row log_row
  add-Inserts software e tps s h = elim (Bool-cases (is_logged e.event_id s.log)) [
    | inl known ↦
        rw (known, add_row)
          (
            record {
              unique = h.unique;
              receipted = more_receipts s.receipts (e.event_id ∷ []) s.log h.receipted;
            },
            omega arith,
          )
    | inr new ↦
        rw (new, add_row)
          (
            record {
              unique = append-HasUniqueEvents s.log (log_row software e tps) h.unique new;
              receipted =
                  All-append
                    (λ (r : LogRow F).
                      has_receipt r.event_id (s.receipts ++ e.event_id ∷ []) ≡ true)
                    s.log (log_row software e tps ∷ [])
                    (more_receipts s.receipts (e.event_id ∷ []) s.log h.receipted)
                    (
                      ground (arith, has_receipt-append e.event_id s.receipts (e.event_id ∷ [])),
                      tt,
                    );
            },
            omega (arith, length-append s.log (log_row software e tps ∷ [])),
          )
  ]

  pub insert_agent_usage_row-IsLog :
      (software : ℕ) (e : UsageEvent) (tps : F) (s : Store F)
      → IsLog s
      → IsLog (insert_agent_usage_row software e tps s).0
        × (length (insert_agent_usage_row software e tps s).0.log
            ≡ (if (insert_agent_usage_row software e tps s).1 then 1 else 0) + length s.log)
  unfolding insert_agent_usage_row
  insert_agent_usage_row-IsLog software e tps s h =
      elim (Bool-cases (has_receipt e.event_id s.receipts)) [
        | inl seen ↦ rw (seen, insert_agent_usage_row) (refresh-Inserts e tps s h)
        | inr new ↦ rw (new, insert_agent_usage_row) (add-Inserts software e tps s h)
      ]

module _ {F : Type 0} (nought : F) (speed : ℕ → ℕ → F) where
  -- From a log with one row for each event id and a receipt for each row, a batch leads to such a log,
  -- and the number it returns is the number of rows that the log has gained.
  pub insert_batch-IsLog :
      (software : ℕ) (es : List UsageEvent) (s : Store F)
      → IsLog s
      → IsLog (insert_batch nought speed software es s).0
        × (length (insert_batch nought speed software es s).0.log
            ≡ (insert_batch nought speed software es s).1 + length s.log)
  unfolding insert_batch insert_event
  insert_batch-IsLog software [] s h = (h, omega arith)
  insert_batch-IsLog software (e ∷ es) s h =
      let tps : F = estimated_output_tps nought speed e.completion_tokens e.duration_ms in
      let (h', grown) = insert_agent_usage_row-IsLog software e tps s h in
      let (h'', grown') =
        insert_batch-IsLog software es (insert_agent_usage_row software e tps s).0 h' in
      (h'', omega (arith, grown, grown'))
