-- ===== src/Deletion/RouteSets.antt =====
-- The deletion of route sets with their keys and rules, and of the whole account.
use token_board.Base.{
  ℕ, ◌≡◌, refl, sym, ap, ◌∙◌, Bool, true, false, ◌&&◌, ◌||◌, not, Option, none, some, List, [], ◌∷◌,
  map, ◌==◌, Bool-cases, Option-cases, arith, inl, inr,
}
use token_board.Deletion.{
  Row, RouteRule, Request, ProxyTables, is_in, ids_owned, delete_where, holds, detach,
  purge_client_keys, keys_of, purge_route_sets, purge_account_rows, purge_proxy_account,
  release_request, detach_request, is_credential_of,
}
use token_board.Deletion.Rows.{
  has_row, all_pass, all_pass-delete, all_pass-map, has_row-delete, is_in-deleted,
}
use token_board.Deletion.Account.{
  refers, request_refers, rule_refers, all_pass-both, IsConsistent, purge_account_rows-IsConsistent,
}

map_same {ℓ} : {A : Type ℓ} (f : A → A) (xs : List A) → ((x : A) → f x ≡ x) → map f xs ≡ xs
map_same f [] h = refl
map_same f (x ∷ xs) h = rw (h x, map_same f xs h) refl

delete_none {ℓ} :
    {A : Type ℓ} (test : A → Bool) (xs : List A)
    → ((x : A) → test x ≡ false)
    → delete_where test xs ≡ xs
unfolding delete_where
delete_none test [] h = refl
delete_none test (x ∷ xs) h = rw (h x, delete_none test xs h) refl

abbrev without_keys : List ℕ → ProxyTables → ProxyTables
without_keys is d = record d {
  request_log =
      map (λ (r : Request). record r { client_key = detach (λ k. is_in k is) r.client_key })
        d.request_log;
  client_keys = delete_where (λ (k : Row). is_in k.id is) d.client_keys;
}

detach_nothing : (o : Option ℕ) → detach (λ k. is_in k []) o ≡ o
detach_nothing none = refl
detach_nothing (some x) = refl

purge_client_keys_lem : (is : List ℕ) (d : ProxyTables) → purge_client_keys is d ≡ without_keys is d
unfolding purge_client_keys
purge_client_keys_lem [] d =
    let log : map (λ (r : Request). record r { client_key = detach (λ k. is_in k []) r.client_key })
          d.request_log
        ≡ d.request_log =
      map_same _ d.request_log (λ r. rw (detach_nothing r.client_key) refl) in
    let keys = delete_none (λ (k : Row). is_in k.id []) d.client_keys (λ k. refl) in
    sym (rw (log, keys) refl)
purge_client_keys_lem (i ∷ is) d = refl

abbrev without_sets : List ℕ → ProxyTables → ProxyTables
without_sets is d = record d {
  request_log =
      map
        (λ (r : Request). record r {
          client_key = detach (λ k. is_in k (keys_of is d.client_keys)) r.client_key;
        })
        (map (λ (r : Request). record r { route_set = detach (λ s. is_in s is) r.route_set })
          d.request_log);
  client_keys = delete_where (λ (k : Row). is_in k.id (keys_of is d.client_keys)) d.client_keys;
  route_rules = delete_where (λ (r : RouteRule). is_in r.route_set is) d.route_rules;
  route_sets = delete_where (λ (s : Row). is_in s.id is) d.route_sets;
}

holds_nothing : (o : Option ℕ) → holds (λ s. is_in s []) o ≡ false
holds_nothing none = refl
holds_nothing (some x) = refl

keys_of-nothing : (ks : List Row) → keys_of [] ks ≡ []
keys_of-nothing [] = refl
keys_of-nothing (k ∷ ks) = rw (holds_nothing k.parent) (keys_of-nothing ks)

purge_route_sets_lem : (is : List ℕ) (d : ProxyTables) → purge_route_sets is d ≡ without_sets is d
unfolding purge_route_sets
purge_route_sets_lem [] d =
    let first : map (λ (r : Request). record r { route_set = detach (λ s. is_in s []) r.route_set })
          d.request_log
        ≡ d.request_log =
      map_same _ d.request_log (λ r. rw (detach_nothing r.route_set) refl) in
    let second : map
          (λ (r : Request). record r { client_key = detach (λ k. is_in k []) r.client_key })
          d.request_log
        ≡ d.request_log =
      map_same _ d.request_log (λ r. rw (detach_nothing r.client_key) refl) in
    let keys = delete_none (λ (k : Row). is_in k.id []) d.client_keys (λ k. refl) in
    let rules = delete_none (λ (r : RouteRule). is_in r.route_set []) d.route_rules (λ r. refl) in
    let sets = delete_none (λ (s : Row). is_in s.id []) d.route_sets (λ s. refl) in
    sym (rw (keys_of-nothing d.client_keys, first, second, keys, rules, sets) refl)
purge_route_sets_lem (i ∷ is) d =
    let detached : ProxyTables = record d {
      request_log =
          map (λ (r : Request). record r { route_set = detach (λ s. is_in s (i ∷ is)) r.route_set })
            d.request_log;
    } in
    ap
      (λ (p : ProxyTables). record p {
        route_rules = delete_where (λ (r : RouteRule). is_in r.route_set (i ∷ is)) p.route_rules;
        route_sets = delete_where (λ (s : Row). is_in s.id (i ∷ is)) p.route_sets;
      })
      (purge_client_keys_lem (keys_of (i ∷ is) d.client_keys) detached)

-- The keys of the sets are among those that go.
abbrev key_goes : List ℕ → List ℕ → Row → Bool
key_goes is js k = not (holds (λ s. is_in s is) k.parent) || is_in k.id js

keys_of-go :
    (is js : List ℕ) (ks : List Row)
    → ((x : ℕ) → is_in x (keys_of is ks) ≡ true → is_in x js ≡ true)
    → all_pass (key_goes is js) ks ≡ true
keys_of-go is js [] h = refl
keys_of-go is js (k ∷ ks) h = elim (Bool-cases (holds (λ s. is_in s is) k.parent)) [
  | inl goes ↦
      let own : is_in k.id js ≡ true = h k.id (rw goes (ground arith)) in
      let rest = keys_of-go is js ks (λ x m. h x (rw goes (ground arith))) in ground arith
  | inr stays ↦ let rest = keys_of-go is js ks (λ x m. h x (rw stays m)) in ground arith
]

has_set :
    (is : List ℕ) (x : ℕ) (ss : List Row)
    → has_row x ss ≡ true
    → is_in x is ≡ false
    → has_row x (delete_where (λ (s : Row). is_in s.id is) ss) ≡ true
has_set is x ss h k = has_row-delete (λ (s : Row). is_in s.id is) x ss (λ r e. rw e k) ∙ h

refers-kept :
    (is : List ℕ) (o : Option ℕ) (ss : List Row)
    → refers o ss ≡ true
    → holds (λ s. is_in s is) o ≡ false
    → refers o (delete_where (λ (s : Row). is_in s.id is) ss) ≡ true
refers-kept is none ss h k = refl
refers-kept is (some x) ss h k = has_set is x ss h k

refers-detach :
    (is : List ℕ) (o : Option ℕ) (ss : List Row)
    → refers o ss ≡ true
    → refers (detach (λ s. is_in s is) o) (delete_where (λ (s : Row). is_in s.id is) ss) ≡ true
refers-detach is none ss h = refl
refers-detach is (some x) ss h = elim (Bool-cases (is_in x is)) [
  | inl out ↦ rw out refl
  | inr stays ↦ rw stays (has_set is x ss h stays)
]

abbrev detach_set : List ℕ → Request → Request
detach_set is r = record r { route_set = detach (λ s. is_in s is) r.route_set }

abbrev detach_key : List ℕ → Request → Request
detach_key js r = record r { client_key = detach (λ k. is_in k js) r.client_key }

-- A request after its route set is detached.
abbrev middle_refers : List ℕ → ProxyTables → Request → Bool
middle_refers is d r =
    request_refers
      (record d { route_sets = delete_where (λ (s : Row). is_in s.id is) d.route_sets }) r

without_sets-IsConsistent :
    (is : List ℕ) (d : ProxyTables) → IsConsistent d → IsConsistent (without_sets is d)
without_sets-IsConsistent is d h =
    let js = keys_of is d.client_keys in
    record {
      upstreams = h.upstreams;
      route_sets =
          all_pass-delete (λ (s : Row). is_in s.id is) _ _ d.route_sets (λ s stays k. k)
            h.route_sets;
      route_rules =
          all_pass-delete (λ (r : RouteRule). is_in r.route_set is) (rule_refers d) _ d.route_rules
            (λ r stays k.
              let set = has_set is r.route_set d.route_sets (ground arith) stays in ground arith)
            h.route_rules;
      client_keys =
          all_pass-delete (λ (k : Row). is_in k.id js)
            (λ (k : Row). refers k.parent d.route_sets && key_goes is js k) _ d.client_keys
            (λ k stays l. refers-kept is k.parent d.route_sets (ground arith) (ground arith))
            (all_pass-both _ (key_goes is js) _ d.client_keys (λ k a b. ground arith) h.client_keys
              (keys_of-go is js d.client_keys (λ x m. m)));
      credentials = h.credentials;
      secrets = h.secrets;
      catalog = h.catalog;
      contracts = h.contracts;
      rate_events = h.rate_events;
      importers = h.importers;
      request_log =
          all_pass-map (detach_key js) (middle_refers is d) (request_refers (without_sets is d))
            (map (detach_set is) d.request_log)
            (λ r k. ground (arith, refers-detach js r.client_key d.client_keys))
            (all_pass-map (detach_set is) (request_refers d) (middle_refers is d) d.request_log
              (λ r k. ground (arith, refers-detach is r.route_set d.route_sets)) h.request_log);
      request_attempts = h.request_attempts;
    }

-- The sets of the account are among those that go.
abbrev set_goes : ℕ → List ℕ → Row → Bool
set_goes account is s = not (holds (λ a. a == account) s.parent) || is_in s.id is

ids_owned-go :
    (account : ℕ) (is : List ℕ) (ss : List Row)
    → ((x : ℕ) → is_in x (ids_owned account ss) ≡ true → is_in x is ≡ true)
    → all_pass (set_goes account is) ss ≡ true
unfolding ids_owned
ids_owned-go account is [] h = refl
ids_owned-go account is (s ∷ ss) h = elim (Bool-cases (holds (λ a. a == account) s.parent)) [
  | inl goes ↦
      let own : is_in s.id is ≡ true = h s.id (rw goes (ground arith)) in
      let rest = ids_owned-go account is ss (λ x m. h x (rw goes (ground arith))) in ground arith
  | inr stays ↦ let rest = ids_owned-go account is ss (λ x m. h x (rw stays m)) in ground arith
]

abbrev identity_or : Option ℕ → ℕ → ℕ
identity_or none account = account
identity_or (some i) account = i

-- A request of the log before and after: its content stays, and a request of the account has its
-- identity, or else the account's.
abbrev is_kept : ℕ → Request → Request → Bool
is_kept account r q =
    (q.content == r.content)
    && (not (holds (λ a. a == account) r.account)
        || holds (λ i. i == identity_or r.account_identity account) q.account_identity)

abbrev pub are_kept : ℕ → List Request → List Request → Bool
are_kept account [] [] = true
are_kept account [] (q ∷ qs) = false
are_kept account (r ∷ rs) [] = false
are_kept account (r ∷ rs) (q ∷ qs) = is_kept account r q && are_kept account rs qs

kept_request :
    (account : ℕ) (is js : List ℕ) (of_account : ℕ → Bool) (r : Request)
    → is_kept account r
        (detach_request of_account (release_request account (detach_key js (detach_set is r))))
      ≡ true
kept_request account is js of_account r = elim (Bool-cases (holds (λ a. a == account) r.account)) [
  | inl own ↦ rw own (elim (Option-cases r.account_identity) [
    | inl no_identity ↦ rw no_identity (ground arith)
    | inr (i, identity) ↦ rw identity (ground arith)
  ])
  | inr other ↦ rw other (elim (Bool-cases (holds of_account r.credential)) [
    | inl gone ↦ rw gone (ground arith)
    | inr stays ↦ rw stays (ground arith)
  ])
]

kept_requests :
    (account : ℕ) (is js : List ℕ) (of_account : ℕ → Bool) (rs : List Request)
    → are_kept account rs (
        map
          (λ (r : Request). detach_request of_account (release_request account r))
          (map (detach_key js) (map (detach_set is) rs)))
      ≡ true
kept_requests account is js of_account [] = refl
kept_requests account is js of_account (r ∷ rs) =
    rw (kept_request account is js of_account r) (kept_requests account is js of_account rs)

-- Deleting a proxy account leaves no foreign key without its row, removes the account, and keeps the
-- request log: each row stays with its content, and a request of the account has its identity, or
-- else the account's.
pub purge_proxy_account-IsConsistent :
    (account : ℕ) (d : ProxyTables)
    → IsConsistent d
    → IsConsistent (purge_proxy_account account d)
      × (is_in account (purge_proxy_account account d).accounts ≡ false)
      × (are_kept account d.request_log (purge_proxy_account account d).request_log ≡ true)
unfolding purge_proxy_account purge_account_rows
purge_proxy_account-IsConsistent account d h =
    let is : List ℕ = ids_owned account d.route_sets in
    let p : ProxyTables = without_sets is d in
    let no_sets =
      all_pass-delete (λ (s : Row). is_in s.id is) (set_goes account is)
        (λ (s : Row). not (holds (λ a. a == account) s.parent)) d.route_sets
        (λ s stays k. ground arith) (ids_owned-go account is d.route_sets (λ x m. m)) in
    rw (purge_route_sets_lem is d) (
      purge_account_rows-IsConsistent account p (without_sets-IsConsistent is d h) no_sets,
      is_in-deleted account d.accounts,
      kept_requests account is (keys_of is d.client_keys)
          (λ c. is_credential_of account c d.upstreams d.credentials) d.request_log,
    )
