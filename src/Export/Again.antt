-- ===== src/Export/Again.antt =====
-- Export events are never rewritten, and an event that is in the table is not written again.
use token_board.Base.{
  ℕ, ◌+◌, ◌⊎◌, ◌≡◌, refl, ◌∙◌, ap, sym, inl, inr, Bool, true, false, Option, none, some, List, [],
  ◌∷◌, ◌++◌, arith, length, length-append, Bool-cases, Option-cases, ok, ok-injective, >>=-returns,
  ◌>>=◌, All,
}
use mathlib.Core.Path.{subst}
use token_board.Export.{
  Source, Event, same_source, same_payload, same_payload_with_legacy_agent_unit, find_source,
  find_key, insert_by_key, insert_event, insert_events,
}
use token_board.Export.Lookup.{
  same_source_refl, same_payload_refl, find_source-append, find_source-other, find_source_stays,
  find_key_stays,
}
use mathlib.Core.List.{append_assoc, append-nil}

module _ {F : Type 0} (same : F → F → Bool) (same_refl : (x : F) → same x x ≡ true) where
  -- No event with the first source stands in the list of the others.
  abbrev pub IsFresh : Source → List (Event F) → Type 0
  IsFresh s = All (λ (r : Event F). same_source r.source s ≡ false)

  abbrev pub HasDistinctSources : List (Event F) → Type 0
  HasDistinctSources [] = Unit
  HasDistinctSources (r ∷ rs) = IsFresh r.source rs × HasDistinctSources rs

  -- The row needs no event any more.
  abbrev pub IsRecorded : Event F → List (Event F) → Type 0
  IsRecorded row es = insert_event same row es ≡ ok (es, 0)

  -- What an insertion that returns has done: nothing, or one new event for a source without one.
  abbrev Inserts : Event F → List (Event F) → List (Event F) × ℕ → Type 0
  Inserts row es r =
      (r ≡ (es, 0)) ⊎ ((r ≡ (es ++ row ∷ [], 1)) × (find_source same row.source es ≡ none))

  by_key_Inserts :
      (row : Event F) (es : List (Event F)) (found : Option (Event F)) {r : List (Event F) × ℕ}
      → find_source same row.source es ≡ none
      → insert_by_key same row es found ≡ ok r
      → Inserts row es r
  unfolding insert_by_key
  by_key_Inserts row es none absent h = inr (sym (ok-injective h), absent)
  by_key_Inserts row es (some e) absent h = elim (Bool-cases (same_payload same e row)) [
    | inl equal ↦ inl (sym (ok-injective (rw equal at h)))
    | inr changed ↦ let h' = rw changed at h in cc
  ]

  insert_event-Inserts :
      (row : Event F) (es : List (Event F)) {r : List (Event F) × ℕ}
      → insert_event same row es ≡ ok r
      → Inserts row es r
  unfolding insert_event
  insert_event-Inserts row es h = elim (Option-cases (find_source same row.source es)) [
    | inl absent ↦
        by_key_Inserts row es (find_key same row.event_key es) absent
          (rw (absent, insert_event) at h)
    | inr (e, found) ↦ elim (Bool-cases (same_payload_with_legacy_agent_unit same e row)) [
      | inl equal ↦ inl (sym (ok-injective (rw (found, equal, insert_event) at h)))
      | inr changed ↦ let h' = rw (found, changed, insert_event) at h in cc
    ]
  ]

  inserted_IsRecorded :
      (row : Event F) (es : List (Event F))
      → find_source same row.source es ≡ none
      → IsRecorded row (es ++ row ∷ [])
  unfolding insert_event same_payload_with_legacy_agent_unit
  inserted_IsRecorded row es absent = rw (
    find_source-append same same_refl row.source es row absent (same_source_refl row.source),
    same_payload_refl same same_refl row,
    insert_event,
  )

  -- An insertion that returns leaves the row recorded: the same row again adds nothing.
  insert_event-IsRecorded :
      (row : Event F) (es : List (Event F)) {r : List (Event F) × ℕ}
      → insert_event same row es ≡ ok r
      → IsRecorded row r.0
  insert_event-IsRecorded row es h = elim (insert_event-Inserts row es h) [
    | inl kept ↦ subst (λ (r : List (Event F) × ℕ). IsRecorded row r.0) (sym kept) (h ∙ ap ok kept)
    | inr (added, absent) ↦
        subst (λ (r : List (Event F) × ℕ). IsRecorded row r.0) (sym added)
          (inserted_IsRecorded row es absent)
  ]

  by_key_stays :
      (row r : Event F) (es : List (Event F))
      → insert_by_key same row es (find_key same row.event_key es) ≡ ok (es, 0)
      → insert_by_key same row (es ++ r ∷ []) (find_key same row.event_key (es ++ r ∷ []))
        ≡ ok (es ++ r ∷ [], 0)
  unfolding insert_by_key
  by_key_stays row r es h = elim (Option-cases (find_key same row.event_key es)) [
    | inl absent ↦
        let h' = rw (absent, insert_by_key) at h in
        absurd (omega (arith, ap (λ (p : List (Event F) × ℕ). p.1) (ok-injective h')))
    | inr (e, found) ↦ elim (Bool-cases (same_payload same e row)) [
      | inl equal ↦
          rw (find_key_stays same same_refl row.event_key es r found, equal, insert_by_key) refl
      | inr changed ↦ let h' = rw (found, changed, insert_by_key) at h in cc
    ]
  ]

  -- Another source's event behind the table leaves a recorded row recorded.
  append-IsRecorded :
      (row r : Event F) (es : List (Event F))
      → IsRecorded row es
      → same_source r.source row.source ≡ false
      → IsRecorded row (es ++ r ∷ [])
  unfolding insert_event
  append-IsRecorded row r es h other = elim (Option-cases (find_source same row.source es)) [
    | inl absent ↦
        rw (find_source-other same same_refl row.source es r absent other, insert_event)
          (by_key_stays row r es (rw (absent, insert_event) at h))
    | inr (e, found) ↦ elim (Bool-cases (same_payload_with_legacy_agent_unit same e row)) [
      | inl equal ↦
          rw (find_source_stays same same_refl row.source es r found, equal, insert_event) refl
      | inr changed ↦ let h' = rw (found, changed, insert_event) at h in cc
    ]
  ]

  insert_event_keeps :
      (row r : Event F) (es : List (Event F)) {t : List (Event F) × ℕ}
      → IsRecorded row es
      → same_source r.source row.source ≡ false
      → insert_event same r es ≡ ok t
      → IsRecorded row t.0
  insert_event_keeps row r es recorded other h = elim (insert_event-Inserts r es h) [
    | inl kept ↦ subst (λ (t : List (Event F) × ℕ). IsRecorded row t.0) (sym kept) recorded
    | inr (added, _) ↦
        subst (λ (t : List (Event F) × ℕ). IsRecorded row t.0) (sym added)
          (append-IsRecorded row r es recorded other)
  ]

  -- The steps of a pass that returns.
  abbrev Steps : Event F → List (Event F) → List (Event F) → List (Event F) × ℕ → Type 0
  Steps r rs es t =
      (a : List (Event F) × ℕ) × (b : List (Event F) × ℕ) × (insert_event same r es ≡ ok a)
      × (insert_events same rs a.0 ≡ ok b)
      × (t ≡ (b.0, a.1 + b.1))

  insert_events-Steps :
      (r : Event F) (rs es : List (Event F)) {t : List (Event F) × ℕ}
      → insert_events same (r ∷ rs) es ≡ ok t
      → Steps r rs es t
  unfolding insert_events
  insert_events-Steps r rs es h =
      let (a, e, h1) =
        >>=-returns (insert_event same r es)
          (λ (a : List (Event F) × ℕ).
            insert_events same rs a.0 >>= λ (b : List (Event F) × ℕ). ok (b.0, a.1 + b.1))
          h in
      let (b, e', h2) =
        >>=-returns (insert_events same rs a.0) (λ (b : List (Event F) × ℕ). ok (b.0, a.1 + b.1))
          h1 in
      (a, b, e, e', sym (ok-injective h2))

  insert_events_keeps :
      (row : Event F) (rs es : List (Event F)) {t : List (Event F) × ℕ}
      → IsRecorded row es
      → IsFresh row.source rs
      → insert_events same rs es ≡ ok t
      → IsRecorded row t.0
  unfolding insert_events
  insert_events_keeps row [] es recorded fresh h =
      subst (λ (t : List (Event F) × ℕ). IsRecorded row t.0) (ok-injective h) recorded
  insert_events_keeps row (r ∷ rs) es recorded fresh h =
      let (a, b, e, e', t_eq) = insert_events-Steps r rs es h in
      subst (λ (t : List (Event F) × ℕ). IsRecorded row t.0) (sym t_eq)
        (insert_events_keeps row rs a.0 (insert_event_keeps row r es recorded fresh.0 e) fresh.1 e')

  recorded_step :
      (r : Event F) (rs es : List (Event F))
      → IsRecorded r es
      → insert_events same rs es ≡ ok (es, 0)
      → insert_events same (r ∷ rs) es ≡ ok (es, 0)
  unfolding insert_events
  recorded_step r rs es recorded rest = rw (recorded, insert_events) (rw rest refl)

  -- A pass that returns is idempotent: over rows with distinct sources, a second pass writes no event
  -- and raises nothing.
  pub insert_events_again :
      (rs es : List (Event F)) {es' : List (Event F)} {created : ℕ}
      → HasDistinctSources rs
      → insert_events same rs es ≡ ok (es', created)
      → insert_events same rs es' ≡ ok (es', 0)
  unfolding insert_events
  insert_events_again [] es distinct h = refl
  insert_events_again (r ∷ rs) es {es' = es'} {created = created} distinct h =
      let (a, b, e, e', t_eq) = insert_events-Steps r rs es h in
      subst (λ (t : List (Event F) × ℕ). insert_events same (r ∷ rs) t.0 ≡ ok (t.0, 0)) (sym t_eq)
        (recorded_step r rs b.0
          (insert_events_keeps r rs a.0 (insert_event-IsRecorded r es e) distinct.0 e')
          (insert_events_again rs a.0 distinct.1 e'))

  abbrev Adds : List (Event F) → List (Event F) × ℕ → Type 0
  Adds es t = (new : List (Event F)) × (t.0 ≡ es ++ new) × (t.1 ≡ length new)

  nothing_Adds : (es : List (Event F)) → Adds es (es, 0)
  nothing_Adds es = ([], sym (append-nil es), refl)

  insert_event-Adds :
      (row : Event F) (es : List (Event F)) {t : List (Event F) × ℕ}
      → insert_event same row es ≡ ok t
      → Adds es t
  insert_event-Adds row es h = elim (insert_event-Inserts row es h) [
    | inl kept ↦ subst (Adds es) (sym kept) (nothing_Adds es)
    | inr (added, _) ↦ subst (Adds es) (sym added) (row ∷ [], refl, refl)
  ]

  insert_events-Adds :
      (rs es : List (Event F)) {t : List (Event F) × ℕ}
      → insert_events same rs es ≡ ok t
      → Adds es t
  unfolding insert_events
  insert_events-Adds [] es h = subst (Adds es) (ok-injective h) (nothing_Adds es)
  insert_events-Adds (r ∷ rs) es h =
      let (a, b, e, e', t_eq) = insert_events-Steps r rs es h in
      let (new, grown, counted) = insert_event-Adds r es e in
      let (new', grown', counted') = insert_events-Adds rs a.0 e' in
      subst (Adds es) (sym t_eq) (
        new ++ new',
        grown' ∙ ap (λ x. x ++ new') grown ∙ append_assoc es new new',
        omega (arith, counted, counted', length-append new new'),
      )

  -- A pass that returns leaves the events of the table as they are and where they are, adds its own
  -- behind them, and returns their number.
  pub insert_events-append :
      (rs es : List (Event F)) {es' : List (Event F)} {created : ℕ}
      → insert_events same rs es ≡ ok (es', created)
      → (new : List (Event F)) × (es' ≡ es ++ new) × (created ≡ length new)
  insert_events-append rs es h = insert_events-Adds rs es h
