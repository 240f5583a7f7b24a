-- ===== src/Export/Rows.antt =====
-- The rows that the three queries of `ensure_billing_export_events_conn` join, the event of each, and
-- the whole pass. A period start is the moment that its text names.
use token_board.Base.{
  ℕ, ◌+◌, ◌/◌, Bool, true, false, ◌&&◌, not, Option, none, some, List, [], ◌∷◌, if◌then◌else◌,
  Result, ok, ◌>>=◌,
}
use token_board.Time.{us_per_day, month_at}
use token_board.Units.{Currency, cny, OwnerKind, proxy, agent}
use token_board.Export.{
  Name, uuid, row_id, nameless, UnitLabel, named, of_contract, of_instance, proxy_event,
  agent_event, Source, proxy_charge, agent_charge, allocation, proxy_key, agent_key, Event,
  insert_events,
}

-- The columns that the three queries share.
pub record Cost (F : Type 0) : Type 0 where
  pub account_id : ℕ
  pub account_uuid : Option ℕ
  pub account_name : ℕ
  pub account_kind : OwnerKind
  pub period_start : ℕ
  pub recurring_charge : Option F
  pub normalized : Option F
  pub currency : Option Currency
  pub base_currency : Option Currency
  pub fx_rate_date : Option ℕ

-- A charge of the proxy ledger with its account's identity; `finalized` is a moment.
pub record ProxyRow (F : Type 0) : Type 0 where
  pub id : ℕ
  pub cost : Cost F
  pub billing_unit_id : Option UnitLabel
  pub credential : Option ℕ
  pub contract : Option ℕ
  pub finalized : Option ℕ

-- A charge of the agent ledger, or an old allocation of one; `finalized` is a day.
pub record AgentRow (F : Type 0) : Type 0 where
  pub charge_id : ℕ
  pub software_id : ℕ
  pub cost : Cost F
  pub subscription_id : Option ℕ
  pub instance_id : Option ℕ
  pub subscription_snapshot : Option ℕ
  pub subscription_identity : Option ℕ
  pub subscription_uuid : Option ℕ
  pub instance_snapshot : Option ℕ
  pub instance_identity : Option ℕ
  pub instance_uuid : Option ℕ
  -- `c.software_id IS NOT NULL`.
  pub is_owned : Bool
  pub is_finalized : Bool
  pub allocation_finalized : Bool
  pub finalized : ℕ

-- `a or b or c or f"prefix:{id}"`.
unfoldable pub first_name : List (Option ℕ) → Option ℕ → Name
first_name [] none = nameless
first_name [] (some id) = row_id id
first_name (none ∷ rest) id = first_name rest id
first_name (some u ∷ rest) id = uuid u

abbrev pub currency_or_cny : Option Currency → Currency
currency_or_cny none = cny
currency_or_cny (some c) = c

unfoldable pub proxy_label : Option UnitLabel → Option ℕ → Option ℕ → ℕ → UnitLabel
unfolding first_name
proxy_label (some label) credential contract id = label
proxy_label none (some credential) contract id = named credential
proxy_label none none contract id = of_contract (first_name (contract ∷ []) (some id))

module _ {F : Type 0} (nought : F) where
  abbrev pub charge_or_zero : Option F → F
  charge_or_zero none = nought
  charge_or_zero (some x) = x

  unfoldable pub proxy_event_row : ProxyRow F → ℕ → Event F
  unfolding proxy_label
  proxy_event_row r finalized =
      let label = proxy_label r.billing_unit_id r.credential r.contract r.id in
      record {
        event_key = proxy_key label r.cost.period_start;
        event_kind = proxy_event;
        source = proxy_charge r.id;
        account_id = r.cost.account_id;
        account_uuid = r.cost.account_uuid;
        account_name = r.cost.account_name;
        account_kind = r.cost.account_kind;
        month = month_at r.cost.period_start;
        period_start = r.cost.period_start;
        billing_unit_id = label;
        recurring_charge = charge_or_zero r.cost.recurring_charge;
        normalized = r.cost.normalized;
        currency = currency_or_cny r.cost.currency;
        base_currency = currency_or_cny r.cost.base_currency;
        fx_rate_date = r.cost.fx_rate_date;
        frozen_on = finalized / us_per_day;
      }

  unfoldable pub agent_row_event : Source → AgentRow F → Event F
  unfolding first_name
  agent_row_event source r =
      let subscription =
        first_name (r.subscription_snapshot ∷ r.subscription_identity ∷ r.subscription_uuid ∷ [])
          r.subscription_id in
      let instance_name =
        first_name (r.instance_snapshot ∷ r.instance_identity ∷ r.instance_uuid ∷ [])
          r.instance_id in
      record {
        event_key =
            agent_key subscription instance_name
              (first_name (r.cost.account_uuid ∷ []) (some r.software_id)) r.cost.period_start;
        event_kind = agent_event;
        source = source;
        account_id = r.cost.account_id;
        account_uuid = r.cost.account_uuid;
        account_name = r.cost.account_name;
        account_kind = r.cost.account_kind;
        month = month_at r.cost.period_start;
        period_start = r.cost.period_start;
        billing_unit_id = of_instance instance_name;
        recurring_charge = charge_or_zero r.cost.recurring_charge;
        normalized = r.cost.normalized;
        currency = currency_or_cny r.cost.currency;
        base_currency = currency_or_cny r.cost.base_currency;
        fx_rate_date = r.cost.fx_rate_date;
        frozen_on = r.finalized;
      }

  unfoldable pub direct_agent_event_row : AgentRow F → Event F
  unfolding agent_row_event
  direct_agent_event_row r = agent_row_event (agent_charge r.charge_id) r

  unfoldable pub agent_event_row : AgentRow F → Event F
  unfolding agent_row_event
  agent_event_row r = agent_row_event (allocation r.charge_id r.software_id) r

  abbrev pub is_agent_account : OwnerKind → Bool
  is_agent_account agent = true
  is_agent_account proxy = false

  -- The WHERE clauses, and the event of each row that they select.
  unfoldable pub proxy_events : List (ProxyRow F) → List (Event F)
  unfolding proxy_event_row
  proxy_events [] = []
  proxy_events (r ∷ rs) =
      let rest = proxy_events rs in
      elim r.finalized [
        | none ↦ rest
        | some at ↦
            if is_agent_account r.cost.account_kind then rest else proxy_event_row r at ∷ rest
      ]

  unfoldable pub direct_events : List (AgentRow F) → List (Event F)
  unfolding direct_agent_event_row
  direct_events [] = []
  direct_events (r ∷ rs) =
      let rest = direct_events rs in
      if r.is_owned && r.is_finalized && is_agent_account r.cost.account_kind
      then direct_agent_event_row r ∷ rest
      else rest

  unfoldable pub allocation_events : List (AgentRow F) → List (Event F)
  unfolding agent_event_row
  allocation_events [] = []
  allocation_events (r ∷ rs) =
      let rest = allocation_events rs in
      if not r.is_owned
        && r.is_finalized
        && r.allocation_finalized
        && is_agent_account r.cost.account_kind
      then agent_event_row r ∷ rest
      else rest

  unfoldable pub ensure_billing_export_events :
      (F → F → Bool)
      → List (ProxyRow F)
      → List (AgentRow F)
      → List (AgentRow F)
      → List (Event F)
      → Result (List (Event F) × ℕ)
  unfolding proxy_events direct_events allocation_events insert_events
  ensure_billing_export_events same proxies charges allocations events =
      insert_events same (proxy_events proxies) events >>= λ (a : List (Event F) × ℕ).
      insert_events same (direct_events charges) a.0 >>= λ (b : List (Event F) × ℕ).
      insert_events same (allocation_events allocations) b.0 >>= λ (c : List (Event F) × ℕ).
      ok (c.0, a.1 + b.1 + c.1)
