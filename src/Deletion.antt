-- ===== src/Deletion.antt =====
-- app/db/proxy/deletion.py: the physical deletion of a proxy account or credential. A row is what its foreign keys
-- say; the other columns of a request are its content. The numbers that the functions return, of the
-- rows they deleted, are left out.
pub mod Rows
pub mod Account
pub mod RouteSets
pub mod Credential
use token_board.Base.{
  ℕ, Bool, true, false, ◌&&◌, ◌||◌, not, Option, none, some, List, [], ◌∷◌, map, ◌==◌,
  if◌then◌else◌,
}

-- A row with one parent, or none where the column is null (an aggregate route set has no account): an upstream or route set of an account, a key of a route set, a credential or
-- catalog entry of an upstream, a secret of a credential, a contract or importer of an account, a rate
-- event of a contract.
pub record Row : Type 0 where
  pub id : ℕ
  pub parent : Option ℕ

pub record RouteRule : Type 0 where
  pub route_set : ℕ
  pub upstream : ℕ

pub record Request : Type 0 where
  pub account : Option ℕ
  pub account_identity : Option ℕ
  pub route_set : Option ℕ
  pub client_key : Option ℕ
  pub credential : Option ℕ
  pub upstream_key : Option ℕ
  pub content : ℕ

pub record Attempt : Type 0 where
  pub account : Option ℕ
  pub upstream : Option ℕ
  pub credential : Option ℕ
  pub upstream_key : Option ℕ
  pub content : ℕ

pub record ProxyTables : Type 0 where
  pub accounts : List ℕ
  pub upstreams : List Row
  pub route_sets : List Row
  pub route_rules : List RouteRule
  pub client_keys : List Row
  pub credentials : List Row
  pub secrets : List Row
  pub catalog : List Row
  pub contracts : List Row
  pub rate_events : List Row
  pub importers : List Row
  pub request_log : List Request
  pub request_attempts : List Attempt

-- A nullable column holds such a value.
abbrev pub holds : (ℕ → Bool) → Option ℕ → Bool
holds test none = false
holds test (some x) = test x

abbrev pub detach : (ℕ → Bool) → Option ℕ → Option ℕ
detach test o = if holds test o then none else o

abbrev pub is_in : ℕ → List ℕ → Bool
is_in x [] = false
is_in x (y ∷ ys) = (y == x) || is_in x ys

-- `id IN (SELECT id ... WHERE parent=?)`.
abbrev pub is_owned : ℕ → ℕ → List Row → Bool
is_owned owner x [] = false
is_owned owner x (r ∷ rs) = ((r.id == x) && holds (λ p. p == owner) r.parent) || is_owned owner x rs

-- A credential of an upstream of the account.
abbrev pub is_credential_of : ℕ → ℕ → List Row → List Row → Bool
is_credential_of account x upstreams [] = false
is_credential_of account x upstreams (c ∷ cs) =
    ((c.id == x) && holds (λ u. is_owned account u upstreams) c.parent)
    || is_credential_of account x upstreams cs

unfoldable pub ids_owned : ℕ → List Row → List ℕ
ids_owned owner [] = []
ids_owned owner (r ∷ rs) =
    let rest = ids_owned owner rs in if holds (λ p. p == owner) r.parent then r.id ∷ rest else rest

-- DELETE ... WHERE.
unfoldable pub delete_where {ℓ} : {A : Type ℓ} → (A → Bool) → List A → List A
delete_where test [] = []
delete_where test (x ∷ xs) = let rest = delete_where test xs in if test x then rest else x ∷ rest

unfoldable pub purge_client_keys : List ℕ → ProxyTables → ProxyTables
unfolding delete_where
purge_client_keys [] d = d
purge_client_keys (i ∷ is) d = record d {
  request_log =
      map (λ (r : Request). record r { client_key = detach (λ k. is_in k (i ∷ is)) r.client_key })
        d.request_log;
  client_keys = delete_where (λ (k : Row). is_in k.id (i ∷ is)) d.client_keys;
}

abbrev pub keys_of : List ℕ → List Row → List ℕ
keys_of sets [] = []
keys_of sets (k ∷ ks) =
    let rest = keys_of sets ks in if holds (λ s. is_in s sets) k.parent then k.id ∷ rest else rest

-- With `purge_keys`, as its callers have it.
unfoldable pub purge_route_sets : List ℕ → ProxyTables → ProxyTables
unfolding purge_client_keys delete_where
purge_route_sets [] d = d
purge_route_sets (i ∷ is) d =
    let detached : ProxyTables = record d {
      request_log =
          map (λ (r : Request). record r { route_set = detach (λ s. is_in s (i ∷ is)) r.route_set })
            d.request_log;
    } in
    let p : ProxyTables = purge_client_keys (keys_of (i ∷ is) d.client_keys) detached in
    record p {
      route_rules = delete_where (λ (r : RouteRule). is_in r.route_set (i ∷ is)) p.route_rules;
      route_sets = delete_where (λ (s : Row). is_in s.id (i ∷ is)) p.route_sets;
    }

abbrev pub or_id : Option ℕ → ℕ → Option ℕ
or_id none account = some account
or_id (some i) account = some i

-- The requests of the account keep its identity.
abbrev pub release_request : ℕ → Request → Request
release_request account r =
    if holds (λ a. a == account) r.account
    then record r {
      account = none;
      account_identity = or_id r.account_identity account;
      route_set = none;
      client_key = none;
      credential = none;
      upstream_key = none;
    }
    else r

abbrev pub release_attempt : ℕ → List Row → Attempt → Attempt
release_attempt account upstreams a =
    if holds (λ x. x == account) a.account || holds (λ u. is_owned account u upstreams) a.upstream
    then record a { upstream = none; credential = none }
    else a

abbrev pub detach_request : (ℕ → Bool) → Request → Request
detach_request test r =
    if holds test r.credential then record r { credential = none; upstream_key = none } else r

abbrev pub detach_attempt : (ℕ → Bool) → Attempt → Attempt
detach_attempt test a =
    if holds test a.credential then record a { credential = none; upstream_key = none } else a

-- The statements after `purge_route_sets`.
unfoldable pub purge_account_rows : ℕ → ProxyTables → ProxyTables
unfolding delete_where
purge_account_rows account d =
    let of_account = λ (c : ℕ). is_credential_of account c d.upstreams d.credentials in
    record {
      accounts = delete_where (λ a. a == account) d.accounts;
      upstreams = delete_where (λ (u : Row). holds (λ a. a == account) u.parent) d.upstreams;
      route_sets = d.route_sets;
      route_rules =
          delete_where (λ (r : RouteRule). is_owned account r.upstream d.upstreams) d.route_rules;
      client_keys = d.client_keys;
      credentials =
          delete_where (λ (c : Row). holds (λ u. is_owned account u d.upstreams) c.parent)
            d.credentials;
      secrets = delete_where (λ (s : Row). holds of_account s.parent) d.secrets;
      catalog =
          delete_where (λ (m : Row). holds (λ u. is_owned account u d.upstreams) m.parent)
            d.catalog;
      contracts = delete_where (λ (c : Row). holds (λ a. a == account) c.parent) d.contracts;
      rate_events =
          delete_where (λ (e : Row). holds (λ c. is_owned account c d.contracts) e.parent)
            d.rate_events;
      importers = delete_where (λ (i : Row). holds (λ a. a == account) i.parent) d.importers;
      request_log =
          map (λ (r : Request). detach_request of_account (release_request account r))
            d.request_log;
      request_attempts =
          map (λ (a : Attempt). detach_attempt of_account (release_attempt account d.upstreams a))
            d.request_attempts;
    }

unfoldable pub purge_proxy_account : ℕ → ProxyTables → ProxyTables
unfolding purge_route_sets purge_account_rows
purge_proxy_account account d =
    purge_account_rows account (purge_route_sets (ids_owned account d.route_sets) d)

unfoldable pub purge_credential : ℕ → ProxyTables → ProxyTables
unfolding delete_where
purge_credential uuid d = record d {
  request_log = map (detach_request (λ c. c == uuid)) d.request_log;
  request_attempts = map (detach_attempt (λ c. c == uuid)) d.request_attempts;
  secrets = delete_where (λ (s : Row). holds (λ c. c == uuid) s.parent) d.secrets;
  credentials = delete_where (λ (c : Row). c.id == uuid) d.credentials;
}
