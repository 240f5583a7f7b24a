-- ===== src/Billing/Run/Events.antt =====
-- The two billing runs with their last call, `ensure_billing_export_events_conn`, over the ledger that
-- the run has left. The run's transaction rolls everything back where that call raises.
use token_board.Base.{
  ℕ, ◌+◌, Option, none, some, List, [], ◌∷◌, Bool, true, false, ◌==◌, if◌then◌else◌, Result, ok,
  err, ◌>>=◌,
}
use token_board.Units.{Currency, OwnerKind}
use token_board.Units.Resolve.{Contract, Credential, Instance, Binding}
use token_board.Billing.{Charge}
use token_board.Billing.Stream.{Pricing}
use token_board.Billing.Run.{is_set, bill_proxy_ledger, bill_agent_ledger}
use token_board.Export.{UnitLabel, Event}
use token_board.Export.Rows.{Cost, ProxyRow, AgentRow, ensure_billing_export_events}

-- A row of `account_identities`.
pub record Identity : Type 0 where
  pub id : ℕ
  pub uuid : Option ℕ
  pub name : ℕ
  pub kind : OwnerKind

-- What the queries select for a charge beside the columns of `Charge`: the snapshots and the
-- joined columns.
pub record ProxyColumns : Type 0 where
  pub identity : Identity
  pub base_currency : Option Currency
  pub billing_unit_id : Option UnitLabel
  pub contract : Option ℕ

pub record AgentColumns : Type 0 where
  pub identity : Identity
  pub base_currency : Option Currency
  pub subscription_snapshot : Option ℕ
  pub subscription_identity : Option ℕ
  pub subscription_uuid : Option ℕ
  pub instance_snapshot : Option ℕ
  pub instance_identity : Option ℕ
  pub instance_uuid : Option ℕ

-- The floats' zero and `==`, the joined columns of a charge (`none` where the JOIN has no identity
-- for it), and the old allocations with the columns of their own.
pub record Joins (F : Type 0) : Type 0 where
  pub nought : F
  pub same : F → F → Bool
  pub proxy_columns : Charge F → Option ProxyColumns
  pub agent_columns : Charge F → Option AgentColumns
  pub allocations : List (AgentRow F)

abbrev pub day_or_zero : Option ℕ → ℕ
day_or_zero none = 0
day_or_zero (some day) = day

module _ {F : Type 0} where
  abbrev pub cost_of : Identity → Option Currency → Charge F → Cost F
  cost_of who base c = record {
    account_id = who.id;
    account_uuid = who.uuid;
    account_name = who.name;
    account_kind = who.kind;
    period_start = c.period_start;
    recurring_charge = some c.recurring_charge;
    normalized = c.normalized;
    currency = some c.currency;
    base_currency = base;
    fx_rate_date = c.fx_rate_date;
  }

  abbrev pub proxy_row : ProxyColumns → Charge F → ProxyRow F
  proxy_row j c = record {
    id = c.id;
    cost = cost_of j.identity j.base_currency c;
    billing_unit_id = j.billing_unit_id;
    credential = c.credential;
    contract = j.contract;
    finalized = c.finalized;
  }

  -- The day is read of finalized charges alone.
  abbrev pub agent_row : AgentColumns → ℕ → Charge F → AgentRow F
  agent_row j software c = record {
    charge_id = c.id;
    software_id = software;
    cost = cost_of (record j.identity { id = software }) j.base_currency c;
    subscription_id = c.subscription_id;
    instance_id = some c.owner;
    subscription_snapshot = j.subscription_snapshot;
    subscription_identity = j.subscription_identity;
    subscription_uuid = j.subscription_uuid;
    instance_snapshot = j.instance_snapshot;
    instance_identity = j.instance_identity;
    instance_uuid = j.instance_uuid;
    is_owned = true;
    is_finalized = is_set c.finalized;
    allocation_finalized = false;
    finalized = day_or_zero c.finalized;
  }

  -- The first query's rows before its WHERE clause, in the order of their ids.
  unfoldable pub proxy_rows : (Charge F → Option ProxyColumns) → List (Charge F) → List (ProxyRow F)
  proxy_rows columns [] = []
  proxy_rows columns (c ∷ cs) = elim (columns c) [
    | none ↦ proxy_rows columns cs
    | some j ↦ proxy_row j c ∷ proxy_rows columns cs
  ]

  -- The second query's: the account joins on `c.software_id`, which NULL never equals.
  unfoldable pub agent_rows : (Charge F → Option AgentColumns) → List (Charge F) → List (AgentRow F)
  agent_rows columns [] = []
  agent_rows columns (c ∷ cs) = elim c.software_id [
    | none ↦ agent_rows columns cs
    | some software ↦ elim (columns c) [
      | none ↦ agent_rows columns cs
      | some j ↦ agent_row j software c ∷ agent_rows columns cs
    ]
  ]

  unfoldable pub charge_with_id : ℕ → List (Charge F) → Option (Charge F)
  charge_with_id id [] = none
  charge_with_id id (c ∷ cs) = if c.id == id then some c else charge_with_id id cs

  -- The third query's: an allocation reads the rest from its charge as it is now.
  abbrev pub allocation_row : AgentRow F → Charge F → AgentRow F
  allocation_row a c = record a {
    cost = record a.cost { period_start = c.period_start };
    subscription_id = c.subscription_id;
    instance_id = some c.owner;
    is_owned = is_set c.software_id;
    is_finalized = is_set c.finalized;
  }

  unfoldable pub allocation_rows : List (Charge F) → List (AgentRow F) → List (AgentRow F)
  unfolding charge_with_id
  allocation_rows charges [] = []
  allocation_rows charges (a ∷ rest) = elim (charge_with_id a.charge_id charges) [
    | none ↦ allocation_rows charges rest
    | some c ↦ allocation_row a c ∷ allocation_rows charges rest
  ]

  -- `changed += ensure_billing_export_events_conn(conn)`, over the two ledgers; the run leaves the
  -- ledger, the events and the count.
  unfoldable pub export_ledgers :
      Joins F
      → List (Charge F)
      → List (Charge F)
      → List (Event F)
      → List (Charge F) × ℕ
      → Result (List (Charge F) × List (Event F) × ℕ)
  unfolding proxy_rows agent_rows allocation_rows ensure_billing_export_events
  export_ledgers j proxies agents events run =
      ensure_billing_export_events j.nought j.same (proxy_rows j.proxy_columns proxies)
        (agent_rows j.agent_columns agents) (allocation_rows agents j.allocations) events
      >>= λ (e : List (Event F) × ℕ). ok (run.0, e.0, run.1 + e.1)

  unfoldable pub materialize_period_charges :
      Pricing F
      → Joins F
      → List Contract
      → List Credential
      → ℕ
      → List (Charge F)
      → List (Charge F)
      → List (Event F)
      → Result (List (Charge F) × List (Event F) × ℕ)
  unfolding bill_proxy_ledger export_ledgers
  materialize_period_charges p j contracts credentials at charges agents events =
      bill_proxy_ledger p contracts credentials at charges >>= λ (run : List (Charge F) × ℕ).
      export_ledgers j run.0 agents events run

  unfoldable pub materialize_agent_subscription_charges :
      Pricing F
      → Joins F
      → List ℕ
      → List Instance
      → List Binding
      → Bool
      → ℕ
      → List (Charge F)
      → List (Charge F)
      → List (Event F)
      → Option (Result (List (Charge F) × List (Event F) × ℕ))
  unfolding bill_agent_ledger export_ledgers
  materialize_agent_subscription_charges p j allocated instances bindings include_ended at charges
        proxies events =
      elim (bill_agent_ledger p allocated instances bindings include_ended at charges) [
        | none ↦ none
        | some (err e) ↦ some (err e)
        | some (ok run) ↦ some (export_ledgers j proxies run.0 events run)
      ]
