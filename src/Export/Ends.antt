-- ===== src/Export/Ends.antt =====
-- How a pass over the export events can end.
use token_board.Base.{
  ℕ, ◌+◌, ◌≡◌, ◌⊎◌, refl, inl, inr, Bool, Option, none, some, Option-cases, List, [], ◌∷◌,
  Bool-cases, Result, ok, err, value_error, ◌>>=◌,
}
use token_board.Export.{
  Event, same_payload, same_payload_with_legacy_agent_unit, find_source, find_key, insert_by_key,
  insert_event, insert_events,
}
use token_board.Export.Rows.{
  ProxyRow, AgentRow, proxy_events, direct_events, allocation_events, ensure_billing_export_events,
}

-- It returns, or raises `ValueError`.
abbrev pub Ends {ℓ} : {A : Type ℓ} → Result A → Type ℓ
Ends {A = A} r = ((x : A) × (r ≡ ok x)) ⊎ (r ≡ err value_error)

pub Ends->>= {ℓ ℓ'} :
    {A : Type ℓ} {B : Type ℓ'} (r : Result A) (f : A → Result B)
    → Ends r
    → ((x : A) → Ends (f x))
    → Ends (r >>= f)
Ends->>= r f (inl (x, e)) k = rw e (k x)
Ends->>= r f (inr e) k = rw e (inr refl)

module _ {F : Type 0} (same : F → F → Bool) where
  insert_by_key-Ends :
      (row : Event F) (events : List (Event F)) (o : Option (Event F))
      → Ends (insert_by_key same row events o)
  unfolding insert_by_key
  insert_by_key-Ends row events none = inl ((_, 1), refl)
  insert_by_key-Ends row events (some e) = elim (Bool-cases (same_payload same e row)) [
    | inl equal ↦ rw (equal, insert_by_key) (inl ((events, 0), refl))
    | inr other ↦ rw (other, insert_by_key) (inr refl)
  ]

  insert_event-Ends :
      (row : Event F) (events : List (Event F)) → Ends (insert_event same row events)
  unfolding insert_event
  insert_event-Ends row events = elim (Option-cases (find_source same row.source events)) [
    | inl unseen ↦
        rw (unseen, insert_event)
          (insert_by_key-Ends row events (find_key same row.event_key events))
    | inr (e, seen) ↦ elim (Bool-cases (same_payload_with_legacy_agent_unit same e row)) [
      | inl equal ↦ rw (seen, insert_event) (rw equal (inl ((events, 0), refl)))
      | inr other ↦ rw (seen, insert_event) (rw other (inr refl))
    ]
  ]

  insert_events-Ends : (rows events : List (Event F)) → Ends (insert_events same rows events)
  unfolding insert_events
  insert_events-Ends [] events = inl ((events, 0), refl)
  insert_events-Ends (r ∷ rs) events =
      Ends->>= (insert_event same r events)
        (λ (a : List (Event F) × ℕ).
          insert_events same rs a.0 >>= λ (b : List (Event F) × ℕ). ok (b.0, a.1 + b.1))
        (insert_event-Ends r events)
        (λ a.
          Ends->>= (insert_events same rs a.0) (λ (b : List (Event F) × ℕ). ok (b.0, a.1 + b.1))
            (insert_events-Ends rs a.0) (λ b. inl ((b.0, a.1 + b.1), refl)))

  pub ensure_billing_export_events-Ends :
      (nought : F) (proxies : List (ProxyRow F)) (charges allocations : List (AgentRow F))
      (events : List (Event F))
      → Ends (ensure_billing_export_events nought same proxies charges allocations events)
  unfolding ensure_billing_export_events
  ensure_billing_export_events-Ends nought proxies charges allocations events =
      Ends->>= (insert_events same (proxy_events nought proxies) events)
        (λ (a : List (Event F) × ℕ).
          insert_events same (direct_events nought charges) a.0 >>= λ (b : List (Event F) × ℕ).
          insert_events same (allocation_events nought allocations) b.0
          >>= λ (c : List (Event F) × ℕ). ok (c.0, a.1 + b.1 + c.1))
        (insert_events-Ends (proxy_events nought proxies) events)
        (λ a.
          Ends->>= (insert_events same (direct_events nought charges) a.0)
            (λ (b : List (Event F) × ℕ).
              insert_events same (allocation_events nought allocations) b.0
              >>= λ (c : List (Event F) × ℕ). ok (c.0, a.1 + b.1 + c.1))
            (insert_events-Ends (direct_events nought charges) a.0)
            (λ b.
              Ends->>= (insert_events same (allocation_events nought allocations) b.0)
                (λ (c : List (Event F) × ℕ). ok (c.0, a.1 + b.1 + c.1))
                (insert_events-Ends (allocation_events nought allocations) b.0)
                (λ c. inl ((c.0, a.1 + b.1 + c.1), refl))))
