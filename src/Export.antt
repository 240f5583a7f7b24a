-- ===== src/Export.antt =====
-- app/db/proxy/billing_export.py: one immutable export event for each finalized recurring charge.
-- A row is what the queries of `ensure_billing_export_events_conn` select and test; a text that the
-- code builds is a constructor over its parts.
pub mod Rows
pub mod Lookup
pub mod Again
pub mod Ends
use token_board.Base.{
  ℕ, ◌+◌, Bool, true, false, ◌&&◌, ◌||◌, Option, none, some, List, [], ◌∷◌, ◌++◌, ◌==◌,
  if◌then◌else◌, Result, ok, err, value_error, ◌>>=◌,
}
use token_board.Units.{Currency, cny, foreign, OwnerKind, proxy, agent}
use token_board.Billing.{same_option}

-- A uuid, or the text of a row's id (with its prefix) where there is none.
pub data Name : Type 0 where
  uuid row_id : ℕ → Name
  nameless : Name

pub data UnitLabel : Type 0 where
  named : ℕ → UnitLabel
  of_contract of_instance of_subscription : Name → UnitLabel

pub data EventKind : Type 0 where
  proxy_event agent_event : EventKind

-- `source_table` and `source_key`.
pub data Source : Type 0 where
  proxy_charge agent_charge : ℕ → Source
  allocation : ℕ → ℕ → Source

pub data EventKey : Type 0 where
  proxy_key : UnitLabel → ℕ → EventKey
  agent_key : Name → Name → Name → ℕ → EventKey

pub record Event (F : Type 0) : Type 0 where
  pub event_key : EventKey
  pub event_kind : EventKind
  pub source : Source
  pub account_id : ℕ
  pub account_uuid : Option ℕ
  pub account_name : ℕ
  pub account_kind : OwnerKind
  pub month : ℕ
  pub period_start : ℕ
  pub billing_unit_id : UnitLabel
  pub recurring_charge : F
  pub normalized : Option F
  pub currency : Currency
  pub base_currency : Currency
  pub fx_rate_date : Option ℕ
  pub frozen_on : ℕ

abbrev pub same_name : Name → Name → Bool
same_name (uuid a) (uuid b) = a == b
same_name (row_id a) (row_id b) = a == b
same_name nameless nameless = true
same_name _ _ = false

abbrev pub same_label : UnitLabel → UnitLabel → Bool
same_label (named a) (named b) = a == b
same_label (of_contract a) (of_contract b) = same_name a b
same_label (of_instance a) (of_instance b) = same_name a b
same_label (of_subscription a) (of_subscription b) = same_name a b
same_label _ _ = false

abbrev pub same_kind : EventKind → EventKind → Bool
same_kind proxy_event proxy_event = true
same_kind agent_event agent_event = true
same_kind _ _ = false

abbrev pub same_owner : OwnerKind → OwnerKind → Bool
same_owner proxy proxy = true
same_owner agent agent = true
same_owner _ _ = false

abbrev pub same_source : Source → Source → Bool
same_source (proxy_charge a) (proxy_charge b) = a == b
same_source (agent_charge a) (agent_charge b) = a == b
same_source (allocation a s) (allocation b t) = (a == b) && (s == t)
same_source _ _ = false

abbrev pub same_key : EventKey → EventKey → Bool
same_key (proxy_key a s) (proxy_key b t) = same_label a b && (s == t)
same_key (agent_key a i u s) (agent_key b j v t) =
    same_name a b && same_name i j && same_name u v && (s == t)
same_key _ _ = false

abbrev pub same_currency : Currency → Currency → Bool
same_currency cny cny = true
same_currency (foreign a) (foreign b) = a == b
same_currency _ _ = false

abbrev pub is_instance_label : UnitLabel → Bool
is_instance_label (of_instance _) = true
is_instance_label _ = false

abbrev pub is_subscription_label : UnitLabel → Bool
is_subscription_label (of_subscription _) = true
is_subscription_label _ = false

abbrev pub is_agent : EventKind → Bool
is_agent agent_event = true
is_agent proxy_event = false

-- `same` is the floats' `==`.
module _ {F : Type 0} (same : F → F → Bool) where
  abbrev pub same_cost : Option F → Option F → Bool
  same_cost none none = true
  same_cost (some a) (some b) = same a b
  same_cost _ _ = false

  -- The payload fields but the account's name and the unit's label.
  unfoldable pub same_facts : Event F → Event F → Bool
  same_facts e r =
      same_kind e.event_kind r.event_kind
      && same_source e.source r.source
      && (e.account_id == r.account_id)
      && same_option e.account_uuid r.account_uuid
      && same_owner e.account_kind r.account_kind
      && (e.month == r.month)
      && (e.period_start == r.period_start)
      && same e.recurring_charge r.recurring_charge
      && same_cost e.normalized r.normalized
      && same_currency e.currency r.currency
      && same_currency e.base_currency r.base_currency
      && same_option e.fx_rate_date r.fx_rate_date
      && (e.frozen_on == r.frozen_on)

  unfoldable pub same_payload : Event F → Event F → Bool
  unfolding same_facts
  same_payload e r = same_facts e r && same_label e.billing_unit_id r.billing_unit_id

  -- The legacy label of an agent's unit; here the account's name is compared too.
  unfoldable pub same_payload_with_legacy_agent_unit : Event F → Event F → Bool
  unfolding same_payload
  same_payload_with_legacy_agent_unit e r =
      same_payload e r
      || (is_agent e.event_kind
          && is_agent r.event_kind
          && is_subscription_label e.billing_unit_id
          && is_instance_label r.billing_unit_id
          && same_facts e r
          && (e.account_name == r.account_name))

  unfoldable pub find_source : Source → List (Event F) → Option (Event F)
  find_source s [] = none
  find_source s (e ∷ es) = if same_source e.source s then some e else find_source s es

  unfoldable pub find_key : EventKey → List (Event F) → Option (Event F)
  find_key k [] = none
  find_key k (e ∷ es) = if same_key e.event_key k then some e else find_key k es

  -- The check by event key, and the INSERT.
  unfoldable pub insert_by_key :
      Event F → List (Event F) → Option (Event F) → Result (List (Event F) × ℕ)
  unfolding same_payload
  insert_by_key row events none = ok (events ++ row ∷ [], 1)
  insert_by_key row events (some e) = if same_payload e row then ok (events, 0) else err value_error

  unfoldable pub insert_event : Event F → List (Event F) → Result (List (Event F) × ℕ)
  unfolding insert_by_key find_source find_key same_payload_with_legacy_agent_unit
  insert_event row events = elim (find_source row.source events) [
    | some e ↦ if same_payload_with_legacy_agent_unit e row then ok (events, 0) else err value_error
    | none ↦ insert_by_key row events (find_key row.event_key events)
  ]

  -- The loop over the rows of one query: the table and the count.
  unfoldable pub insert_events : List (Event F) → List (Event F) → Result (List (Event F) × ℕ)
  unfolding insert_event
  insert_events [] events = ok (events, 0)
  insert_events (r ∷ rs) events = insert_event r events >>= λ (a : List (Event F) × ℕ).
      insert_events rs a.0 >>= λ (b : List (Event F) × ℕ). ok (b.0, a.1 + b.1)
