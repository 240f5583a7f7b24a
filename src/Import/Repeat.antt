-- ===== src/Import/Repeat.antt =====
-- Importing the same events again changes nothing.
use token_board.Base.{
  ℕ, ◌≡◌, refl, ◌⊎◌, inl, inr, Bool, true, false, ◌&&◌, ◌||◌, not, List, [], ◌∷◌, ◌++◌, All, ltb,
  ◌==◌, Bool-cases, arith,
}
use token_board.Import.{
  UsageEvent, LogRow, Store, has_receipt, is_logged, fill_duration, log_row, refresh_row, add_row,
  insert_agent_usage_row, insert_event, insert_batch, estimated_output_tps,
}
use token_board.Import.Rows.{IsLog, has_receipt-append, insert_agent_usage_row-IsLog}

module _ {F : Type 0} where
  -- Every row of the event has a duration.
  abbrev is_timed : ℕ → List (LogRow F) → Bool
  is_timed id [] = true
  is_timed id (r ∷ rs) = (not (r.event_id == id) || not (r.duration_ms == 0)) && is_timed id rs

  -- The event has its receipt, and there is no duration left to fill in.
  abbrev IsSettled : UsageEvent → Store F → Type 0
  IsSettled e s =
      (has_receipt e.event_id s.receipts ≡ true)
      × ((ltb 0 e.duration_ms ≡ false) ⊎ (is_timed e.event_id s.log ≡ true))

  fill_nothing :
      (id duration : ℕ) (tps : F) (rs : List (LogRow F))
      → is_timed id rs ≡ true
      → fill_duration id duration tps rs ≡ rs
  unfolding fill_duration
  fill_nothing id duration tps [] h = refl
  fill_nothing id duration tps (r ∷ rs) h = ground (arith, fill_nothing id duration tps rs)

  is_timed-fill :
      (key id duration : ℕ) (tps : F) (rs : List (LogRow F))
      → ltb 0 duration ≡ true
      → (is_timed key rs ≡ true) ⊎ (id ≡ key)
      → is_timed key (fill_duration id duration tps rs) ≡ true
  unfolding fill_duration
  is_timed-fill key id duration tps [] d h = refl
  is_timed-fill key id duration tps (r ∷ rs) d h =
      ground (arith, is_timed-fill key id duration tps rs d)

  is_timed-append :
      (id : ℕ) (xs ys : List (LogRow F))
      → is_timed id (xs ++ ys) ≡ (is_timed id xs && is_timed id ys)
  is_timed-append id [] ys = refl
  is_timed-append id (x ∷ xs) ys = ground (arith, is_timed-append id xs ys)

  unlogged_is_timed :
      (id : ℕ) (rs : List (LogRow F)) → is_logged id rs ≡ false → is_timed id rs ≡ true
  unlogged_is_timed id [] h = refl
  unlogged_is_timed id (r ∷ rs) h = ground (arith, unlogged_is_timed id rs)

  logged_has_receipt :
      (id : ℕ) (receipts : List ℕ) (rs : List (LogRow F))
      → All (λ (r : LogRow F). has_receipt r.event_id receipts ≡ true) rs
      → is_logged id rs ≡ true
      → has_receipt id receipts ≡ true
  logged_has_receipt id receipts [] h k = cc
  logged_has_receipt id receipts (r ∷ rs) (h, hs) k =
      ground (arith, logged_has_receipt id receipts rs hs)

  -- A settled event is a no-op.
  settled_again :
      (software : ℕ) (e : UsageEvent) (tps : F) (s : Store F)
      → IsSettled e s
      → insert_agent_usage_row software e tps s ≡ (s, false)
  unfolding refresh_row insert_agent_usage_row
  settled_again software e tps s (seen, inl untimed) =
      rw (seen, insert_agent_usage_row, untimed) refl
  settled_again software e tps s (seen, inr timed) =
      rw (seen, insert_agent_usage_row, fill_nothing e.event_id e.duration_ms tps s.log timed)
        (ground arith)

  refresh_keeps :
      (e d : UsageEvent) (tps : F) (s : Store F) → IsSettled e s → IsSettled e (refresh_row d tps s)
  unfolding refresh_row
  refresh_keeps e d tps s (seen, settled) = elim (Bool-cases (ltb 0 d.duration_ms)) [
    | inl timed ↦
        rw timed
          (seen, ground (arith, is_timed-fill e.event_id d.event_id d.duration_ms tps s.log timed))
    | inr untimed ↦ rw untimed (seen, settled)
  ]

  add_keeps :
      (software : ℕ) (e d : UsageEvent) (tps : F) (s : Store F)
      → has_receipt d.event_id s.receipts ≡ false
      → IsSettled e s
      → IsSettled e (add_row software d tps s).0
  unfolding add_row log_row
  add_keeps software e d tps s new (seen, settled) =
      let seen' : has_receipt e.event_id (s.receipts ++ d.event_id ∷ []) ≡ true =
        ground (arith, has_receipt-append e.event_id s.receipts (d.event_id ∷ [])) in
      let other : (d.event_id == e.event_id) ≡ false =
        elim (Bool-cases (d.event_id == e.event_id)) [
          | inl same ↦
              let k : d.event_id ≡ e.event_id = ground arith in let new' = rw k at new in cc
          | inr differs ↦ differs
        ] in
      elim (Bool-cases (is_logged d.event_id s.log)) [
        | inl known ↦ rw (known, add_row) (seen', settled)
        | inr unlogged ↦
            rw (unlogged, add_row)
              (
                seen',
                ground (arith, is_timed-append e.event_id s.log (log_row software d tps ∷ [])),
              )
      ]

  insert_keeps :
      (software : ℕ) (e d : UsageEvent) (tps : F) (s : Store F)
      → IsSettled e s
      → IsSettled e (insert_agent_usage_row software d tps s).0
  unfolding insert_agent_usage_row
  insert_keeps software e d tps s h = elim (Bool-cases (has_receipt d.event_id s.receipts)) [
    | inl seen ↦ rw (seen, insert_agent_usage_row) (refresh_keeps e d tps s h)
    | inr new ↦ rw (new, insert_agent_usage_row) (add_keeps software e d tps s new h)
  ]

  refreshed-IsSettled :
      (e : UsageEvent) (tps : F) (s : Store F)
      → has_receipt e.event_id s.receipts ≡ true
      → IsSettled e (refresh_row e tps s)
  unfolding refresh_row
  refreshed-IsSettled e tps s seen = elim (Bool-cases (ltb 0 e.duration_ms)) [
    | inl timed ↦
        rw timed
          (seen, inr (is_timed-fill e.event_id e.event_id e.duration_ms tps s.log timed (inr refl)))
    | inr untimed ↦ rw untimed (seen, inl refl)
  ]

  added-IsSettled :
      (software : ℕ) (e : UsageEvent) (tps : F) (s : Store F)
      → IsLog s
      → has_receipt e.event_id s.receipts ≡ false
      → IsSettled e (add_row software e tps s).0
  unfolding add_row log_row
  added-IsSettled software e tps s h new = elim (Bool-cases (is_logged e.event_id s.log)) [
    | inl known ↦
        let seen = logged_has_receipt e.event_id s.receipts s.log h.receipted known in
        absurd (ground arith)
    | inr unlogged ↦
        rw (unlogged, add_row)
          (
            ground (arith, has_receipt-append e.event_id s.receipts (e.event_id ∷ [])),
            ground (
              arith,
              is_timed-append e.event_id s.log (log_row software e tps ∷ []),
              unlogged_is_timed e.event_id s.log unlogged,
            ),
          )
  ]

  -- An event that has just been inserted is settled.
  insert-IsSettled :
      (software : ℕ) (e : UsageEvent) (tps : F) (s : Store F)
      → IsLog s
      → IsSettled e (insert_agent_usage_row software e tps s).0
  unfolding insert_agent_usage_row
  insert-IsSettled software e tps s h = elim (Bool-cases (has_receipt e.event_id s.receipts)) [
    | inl seen ↦ rw (seen, insert_agent_usage_row) (refreshed-IsSettled e tps s seen)
    | inr new ↦ rw (new, insert_agent_usage_row) (added-IsSettled software e tps s h new)
  ]

module _ {F : Type 0} (nought : F) (speed : ℕ → ℕ → F) (software : ℕ) where
  batch_keeps :
      (e : UsageEvent) (es : List UsageEvent) (s : Store F)
      → IsSettled e s
      → IsSettled e (insert_batch nought speed software es s).0
  unfolding insert_batch insert_event
  batch_keeps e [] s h = h
  batch_keeps e (d ∷ es) s h =
      let tps : F = estimated_output_tps nought speed d.completion_tokens d.duration_ms in
      batch_keeps e es (insert_agent_usage_row software d tps s).0
        (insert_keeps software e d tps s h)

  settled_first :
      (e : UsageEvent) (es : List UsageEvent) (s : Store F)
      → IsSettled e s
      → insert_batch nought speed software es s ≡ (s, 0)
      → insert_batch nought speed software (e ∷ es) s ≡ (s, 0)
  unfolding insert_batch insert_event
  settled_first e es s settled rest =
      let tps : F = estimated_output_tps nought speed e.completion_tokens e.duration_ms in
      rw (settled_again software e tps s settled, insert_batch) (rw rest refl)

  -- Importing a batch a second time, into the tables that the first time left, adds no row, fills in
  -- no duration and counts nothing, if every row of the log had its receipt before.
  pub insert_batch_again :
      (es : List UsageEvent) (s : Store F)
      → IsLog s
      → insert_batch nought speed software es (insert_batch nought speed software es s).0
        ≡ ((insert_batch nought speed software es s).0, 0)
  unfolding insert_batch insert_event
  insert_batch_again [] s h = refl
  insert_batch_again (e ∷ es) s h =
      let tps : F = estimated_output_tps nought speed e.completion_tokens e.duration_ms in
      let s1 : Store F = (insert_agent_usage_row software e tps s).0 in
      settled_first e es (insert_batch nought speed software es s1).0
        (batch_keeps e es s1 (insert-IsSettled software e tps s h))
        (insert_batch_again es s1 (insert_agent_usage_row-IsLog software e tps s h).0)
