-- ===== src/Export/Lookup.antt =====
-- Equal events, and lookups in a table that grows.
use token_board.Base.{
  ℕ, ◌≡◌, refl, inl, inr, Bool, true, false, Option, none, some, List, [], ◌∷◌, ◌++◌, arith,
  Bool-cases, ◌==◌,
}
use token_board.Units.{Currency, cny, foreign, OwnerKind, proxy, agent}
use token_board.Billing.{same_option}
use token_board.Export.{
  Name, UnitLabel, EventKind, Source, EventKey, Event, same_name, same_label, same_owner, same_kind,
  same_key, same_source, same_cost, same_currency, same_facts, same_payload, find_source, find_key,
}

==_refl : (a : ℕ) → (a == a) ≡ true
==_refl a = ground arith

same_name_refl : (n : Name) → same_name n n ≡ true
same_name_refl (Name.uuid a) = ground arith
same_name_refl (Name.row_id a) = ground arith
same_name_refl Name.nameless = refl

same_label_refl : (l : UnitLabel) → same_label l l ≡ true
same_label_refl (UnitLabel.named a) = ground arith
same_label_refl (UnitLabel.of_contract a) = same_name_refl a
same_label_refl (UnitLabel.of_instance a) = same_name_refl a
same_label_refl (UnitLabel.of_subscription a) = same_name_refl a

pub same_source_refl : (s : Source) → same_source s s ≡ true
same_source_refl (Source.proxy_charge a) = ground arith
same_source_refl (Source.agent_charge a) = ground arith
same_source_refl (Source.allocation a s) = ground arith

same_option_self : (o : Option ℕ) → same_option o o ≡ true
same_option_self none = refl
same_option_self (some a) = ground arith

same_currency_refl : (c : Currency) → same_currency c c ≡ true
same_currency_refl cny = refl
same_currency_refl (foreign a) = ground arith

same_owner_refl : (o : OwnerKind) → same_owner o o ≡ true
same_owner_refl proxy = refl
same_owner_refl agent = refl

same_kind_refl : (k : EventKind) → same_kind k k ≡ true
same_kind_refl EventKind.proxy_event = refl
same_kind_refl EventKind.agent_event = refl

module _ {F : Type 0} (same : F → F → Bool) (same_refl : (x : F) → same x x ≡ true) where
  same_cost_refl : (c : Option F) → same_cost same c c ≡ true
  same_cost_refl none = refl
  same_cost_refl (some x) = same_refl x

  pub same_payload_refl : (e : Event F) → same_payload same e e ≡ true
  unfolding same_payload same_facts
  same_payload_refl e = rw (
    same_kind_refl e.event_kind,
    same_source_refl e.source,
    ==_refl e.account_id,
    same_option_self e.account_uuid,
    same_owner_refl e.account_kind,
    ==_refl e.month,
    ==_refl e.period_start,
    same_refl e.recurring_charge,
    same_cost_refl e.normalized,
    same_currency_refl e.currency,
    same_currency_refl e.base_currency,
    same_option_self e.fx_rate_date,
    ==_refl e.frozen_on,
    same_label_refl e.billing_unit_id,
  )

  pub find_source-append :
      (s : Source) (es : List (Event F)) (row : Event F)
      → find_source same s es ≡ none
      → same_source row.source s ≡ true
      → find_source same s (es ++ row ∷ []) ≡ some row
  unfolding find_source
  find_source-append s [] row h k = rw k
  find_source-append s (e ∷ es) row h k = elim (Bool-cases (same_source e.source s)) [
    | inl hit ↦ let h' = rw hit at h in cc
    | inr miss ↦ rw miss (find_source-append s es row (rw miss at h) k)
  ]

  pub find_source-other :
      (s : Source) (es : List (Event F)) (row : Event F)
      → find_source same s es ≡ none
      → same_source row.source s ≡ false
      → find_source same s (es ++ row ∷ []) ≡ none
  unfolding find_source
  find_source-other s [] row h k = rw k
  find_source-other s (e ∷ es) row h k = elim (Bool-cases (same_source e.source s)) [
    | inl hit ↦ let h' = rw hit at h in cc
    | inr miss ↦ rw miss (find_source-other s es row (rw miss at h) k)
  ]

  pub find_source_stays :
      (s : Source) (es : List (Event F)) (row : Event F) {e : Event F}
      → find_source same s es ≡ some e
      → find_source same s (es ++ row ∷ []) ≡ some e
  unfolding find_source
  find_source_stays s [] row h = cc
  find_source_stays s (d ∷ es) row h = elim (Bool-cases (same_source d.source s)) [
    | inl hit ↦ rw hit (rw hit at h)
    | inr miss ↦ rw miss (find_source_stays s es row (rw miss at h))
  ]

  pub find_key_stays :
      (k : EventKey) (es : List (Event F)) (row : Event F) {e : Event F}
      → find_key same k es ≡ some e
      → find_key same k (es ++ row ∷ []) ≡ some e
  unfolding find_key
  find_key_stays k [] row h = cc
  find_key_stays k (d ∷ es) row h = elim (Bool-cases (same_key d.event_key k)) [
    | inl hit ↦ rw hit (rw hit at h)
    | inr miss ↦ rw miss (find_key_stays k es row (rw miss at h))
  ]
