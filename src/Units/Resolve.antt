-- ===== src/Units/Resolve.antt =====
-- app/services/billing_units.py, `BillingUnitResolver`: the configuration rows that its queries
-- join, and the units they resolve to. A table is the list of its rows in the query's ORDER BY
-- order; a stamp column holds a moment in whole seconds, and NULL is `none`.
pub mod Distinct
use token_board.Base.{
  ℕ, ◌+◌, ◌*◌, ◌/◌, Bool, true, false, not, ◌&&◌, ◌||◌, Option, none, some, List, [], ◌∷◌, ◌++◌,
  min, leb, ltb, ◌==◌, if◌then◌else◌, Result, ok, err, value_error, attribute_error, ◌>>=◌,
}
use token_board.Time.{us_per_day, whole_second}
use token_board.Time.Stamps.{TimeField, parse_runtime_timestamp, optional_timestamp}
use token_board.Usage.{Stored}
use token_board.Units.{
  Currency, UnitId, OwnerKind, proxy, agent, proxy_credential, proxy_subscription,
  agent_subscription, none_masked, subscription_key, masked, BillingUnit, no_verdict,
  parse_observed_period, parse_subscription_state,
}

-- A user-facing date column: NULL or empty, a text that is no date, a date.
pub data DateField : Type 0 where
  unset invalid : DateField
  day : ℕ → DateField

unfoldable pub parse_iso_date : DateField → Result (Option ℕ)
parse_iso_date unset = ok none
parse_iso_date invalid = err value_error
parse_iso_date (day d) = ok (some d)

pub data Scope : Type 0 where
  per_credential per_contract : Scope

-- A row of `billing_contracts` joined with its account.
pub record Contract : Type 0 where
  pub id : ℕ
  pub uuid : ℕ
  pub account_id : ℕ
  pub account_kind : OwnerKind
  pub recurring : Bool
  pub valid_from : ℕ
  pub scope : Scope
  pub currency : Currency
  pub ends_at : Option ℕ
  pub account_valid_from : DateField
  pub account_created_at : TimeField

-- The subtypes that `ACCOUNT_TYPES` declares, and any other name.
pub data Subtype : Type 0 where
  opencode_go undeclared : Subtype

unfoldable pub has_usage_path : Option Subtype → Bool
has_usage_path none = false
has_usage_path (some opencode_go) = true
has_usage_path (some undeclared) = false

-- A row of `upstream_credentials` joined with its upstream.
pub record Credential : Type 0 where
  pub account_id : ℕ
  pub runtime_id : ℕ
  pub uuid : ℕ
  pub key_masked : ℕ
  pub valid_from : DateField
  pub created_at : TimeField
  pub ends_at : Option ℕ
  pub usage_json : Stored
  pub subtype : Option Subtype

abbrev pub is_stored : Stored → Bool
is_stored Stored.unset = false
is_stored _ = true

-- `parse_runtime_timestamp(created_at).date()`; `None` has no method `date`.
unfoldable pub created_date : Option ℕ → Result ℕ
created_date none = err attribute_error
created_date (some t) = ok (t / us_per_day)

unfoldable pub valid_date : Option ℕ → TimeField → Result ℕ
unfolding created_date parse_runtime_timestamp
valid_date (some d) created_at = ok d
valid_date none created_at = do created_date (← parse_runtime_timestamp created_at)

unfoldable pub start_date : DateField → TimeField → Result ℕ
unfolding valid_date parse_iso_date
start_date date created_at = do valid_date (← parse_iso_date date) created_at

-- The least of the ends that are set.
unfoldable pub earliest : Option ℕ → Option ℕ → Option ℕ
earliest none b = b
earliest (some a) none = some a
earliest (some a) (some b) = some (min a b)

-- `ends_at IS NULL OR ends_at>?`.
abbrev pub still_open : Option ℕ → ℕ → Bool
still_open none now = true
still_open (some t) now = ltb now t

abbrev pub contains : List ℕ → ℕ → Bool
contains [] k = false
contains (j ∷ js) k = (j == k) || contains js k

unfoldable pub credential_unit : Contract → Credential → ℕ → BillingUnit
unfolding earliest optional_timestamp has_usage_path
credential_unit c k valid_from = record {
  billing_unit_id = UnitId.credential k.uuid;
  owner_id = c.id;
  account_id = c.account_id;
  owner_kind = proxy;
  charge_domain = proxy_credential;
  valid_from = valid_from;
  ends_at = earliest c.ends_at k.ends_at;
  currency = c.currency;
  ends_on = none;
  credential_uuid = some k.uuid;
  credential_runtime_id = some k.runtime_id;
  key_masked = masked k.key_masked;
  contract_id = some c.id;
  subscription_id = none;
  observed_period = parse_observed_period k.usage_json;
  subscription = parse_subscription_state k.usage_json;
  usage_tracked = has_usage_path k.subtype;
  usage_present = is_stored k.usage_json;
  created_at = optional_timestamp k.created_at;
}

unfoldable pub contract_unit : Contract → ℕ → BillingUnit
contract_unit c valid_from = record {
  billing_unit_id = UnitId.contract c.uuid;
  owner_id = c.id;
  account_id = c.account_id;
  owner_kind = proxy;
  charge_domain = proxy_subscription;
  valid_from = valid_from;
  ends_at = c.ends_at;
  currency = c.currency;
  ends_on = none;
  credential_uuid = none;
  credential_runtime_id = none;
  key_masked = subscription_key;
  contract_id = some c.id;
  subscription_id = none;
  observed_period = none;
  subscription = no_verdict;
  usage_tracked = false;
  usage_present = false;
  created_at = none;
}

-- The WHERE clause of the credentials query.
abbrev pub selects : Contract → ℕ → Credential → Bool
selects c now k = (k.account_id == c.account_id) && still_open k.ends_at now

-- The loop over one contract's credentials; `seen` holds the masked keys met before.
unfoldable pub credential_units :
    Contract → ℕ → List ℕ → List Credential → Result (List BillingUnit)
unfolding credential_unit start_date
credential_units c now seen [] = ok []
credential_units c now seen (k ∷ ks) =
    let others = credential_units c now seen ks in
    let rest = credential_units c now (k.key_masked ∷ seen) ks in
    if not (selects c now k) || contains seen k.key_masked
    then others
    else (start_date k.valid_from k.created_at >>= λ valid_from.
        rest >>= λ units. ok (credential_unit c k valid_from ∷ units))

unfoldable pub units_of_contract : List Credential → ℕ → Contract → Result (List BillingUnit)
unfolding credential_units contract_unit start_date
units_of_contract credentials now c = elim c.scope [
  | per_credential ↦ credential_units c now [] credentials
  | per_contract ↦ start_date c.account_valid_from c.account_created_at >>= λ valid_from.
      ok (contract_unit c valid_from ∷ [])
]

abbrev pub is_proxy : OwnerKind → Bool
is_proxy proxy = true
is_proxy agent = false

-- The WHERE clause of the contracts query.
abbrev pub is_billed : ℕ → Contract → Bool
is_billed now c = c.recurring && leb c.valid_from now && is_proxy c.account_kind

unfoldable pub proxy_units : List Contract → List Credential → ℕ → Result (List BillingUnit)
unfolding units_of_contract
proxy_units [] credentials moment = ok []
proxy_units (c ∷ cs) credentials moment =
    let rest = proxy_units cs credentials moment in
    if is_billed (whole_second moment) c
    then (units_of_contract credentials (whole_second moment) c >>= λ units.
        rest >>= λ more. ok (units ++ more))
    else rest

-- A row of `agent_subscription_instances` joined with its subscription.
pub record Instance : Type 0 where
  pub id : ℕ
  pub uuid : ℕ
  pub subscription_id : ℕ
  pub valid_from : ℕ
  pub ends_on : Option ℕ
  pub currency : Currency
  pub subscription_ends_on : Option ℕ

-- A row of `agent_subscription_bindings`; `is_live` tells whether its software still is an agent
-- account.
pub record Binding : Type 0 where
  pub id : ℕ
  pub subscription_id : ℕ
  pub software_id : ℕ
  pub valid_from : ℕ
  pub ends_on : Option ℕ
  pub is_live : Bool

abbrev pub binds : ℕ → ℕ → Binding → Bool
binds subscription today b =
    (b.subscription_id == subscription) && leb b.valid_from today && still_open b.ends_on today

-- `ORDER BY valid_from DESC, id DESC`.
abbrev pub is_later : Binding → Binding → Bool
is_later a b = ltb b.valid_from a.valid_from || ((a.valid_from == b.valid_from) && ltb b.id a.id)

unfoldable pub later_of : Binding → Option Binding → Binding
later_of b none = b
later_of b (some c) = if is_later c b then c else b

-- The subquery: the effective binding of a subscription that started last.
unfoldable pub live_binding : List Binding → ℕ → ℕ → Option Binding
unfolding later_of
live_binding [] subscription today = none
live_binding (b ∷ bs) subscription today =
    let rest = live_binding bs subscription today in
    if binds subscription today b then some (later_of b rest) else rest

unfoldable pub agent_unit : Instance → ℕ → BillingUnit
agent_unit i software = record {
  billing_unit_id = UnitId.instance_of i.uuid;
  owner_id = i.id;
  account_id = software;
  owner_kind = agent;
  charge_domain = agent_subscription;
  valid_from = i.valid_from;
  ends_at = none;
  currency = i.currency;
  ends_on = i.ends_on;
  credential_uuid = none;
  credential_runtime_id = none;
  key_masked = none_masked;
  contract_id = none;
  subscription_id = some i.subscription_id;
  observed_period = none;
  subscription = no_verdict;
  usage_tracked = false;
  usage_present = false;
  created_at = none;
}

abbrev pub is_visible : Bool → ℕ → Instance → Bool
is_visible include_ended today i =
    leb i.valid_from today
    && (include_ended || (still_open i.subscription_ends_on today && still_open i.ends_on today))

unfoldable pub bound_unit : Instance → Option Binding → List BillingUnit
unfolding agent_unit
bound_unit i none = []
bound_unit i (some b) = if b.is_live then agent_unit i b.software_id ∷ [] else []

unfoldable pub agent_units : List Instance → List Binding → Bool → ℕ → List BillingUnit
unfolding bound_unit live_binding
agent_units [] bindings include_ended moment = []
agent_units (i ∷ rest) bindings include_ended moment =
    let today = moment / us_per_day in
    (if is_visible include_ended today i
      then bound_unit i (live_binding bindings i.subscription_id today)
      else [])
    ++ agent_units rest bindings include_ended moment
