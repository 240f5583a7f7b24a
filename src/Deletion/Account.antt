-- ===== src/Deletion/Account.antt =====
-- The deletion of a proxy account keeps the foreign keys.
use token_board.Base.{
  ℕ, ◌≡◌, refl, Bool, true, false, ◌&&◌, ◌||◌, not, Option, none, some, List, [], ◌∷◌, ◌==◌,
  Bool-cases, arith, inl, inr,
}
use token_board.Deletion.{
  Row, RouteRule, Request, Attempt, ProxyTables, is_in, is_owned, is_credential_of, delete_where,
  holds, release_request, release_attempt, detach_request, detach_attempt, purge_account_rows,
}
use token_board.Deletion.Rows.{
  has_row, all_pass, all_pass-delete, all_pass-map, has_row-is_owned, has_row-is_credential_of,
  is_in-delete,
}

-- A nullable foreign key.
abbrev pub refers : Option ℕ → List Row → Bool
refers none rs = true
refers (some x) rs = has_row x rs

abbrev pub belongs : Option ℕ → List ℕ → Bool
belongs none is = true
belongs (some x) is = is_in x is

abbrev pub request_refers : ProxyTables → Request → Bool
request_refers d r =
    belongs r.account d.accounts
    && refers r.route_set d.route_sets
    && refers r.client_key d.client_keys
    && refers r.credential d.credentials

abbrev pub attempt_refers : ProxyTables → Attempt → Bool
attempt_refers d a = refers a.upstream d.upstreams && refers a.credential d.credentials

abbrev pub rule_refers : ProxyTables → RouteRule → Bool
rule_refers d r = has_row r.route_set d.route_sets && has_row r.upstream d.upstreams

-- Every foreign key has its row.
pub record IsConsistent (d : ProxyTables) : Type 0 where
  pub upstreams : all_pass (λ (u : Row). belongs u.parent d.accounts) d.upstreams ≡ true
  pub route_sets : all_pass (λ (s : Row). belongs s.parent d.accounts) d.route_sets ≡ true
  pub route_rules : all_pass (rule_refers d) d.route_rules ≡ true
  pub client_keys : all_pass (λ (k : Row). refers k.parent d.route_sets) d.client_keys ≡ true
  pub credentials : all_pass (λ (c : Row). refers c.parent d.upstreams) d.credentials ≡ true
  pub secrets : all_pass (λ (s : Row). refers s.parent d.credentials) d.secrets ≡ true
  pub catalog : all_pass (λ (m : Row). refers m.parent d.upstreams) d.catalog ≡ true
  pub contracts : all_pass (λ (c : Row). belongs c.parent d.accounts) d.contracts ≡ true
  pub rate_events : all_pass (λ (e : Row). refers e.parent d.contracts) d.rate_events ≡ true
  pub importers : all_pass (λ (i : Row). belongs i.parent d.accounts) d.importers ≡ true
  pub request_log : all_pass (request_refers d) d.request_log ≡ true
  pub request_attempts : all_pass (attempt_refers d) d.request_attempts ≡ true

pub all_pass-both :
    (one two both : Row → Bool) (rs : List Row)
    → ((r : Row) → one r ≡ true → two r ≡ true → both r ≡ true)
    → all_pass one rs ≡ true
    → all_pass two rs ≡ true
    → all_pass both rs ≡ true
all_pass-both one two both [] h k l = refl
all_pass-both one two both (r ∷ rs) h k l =
    let good = h r (ground arith) (ground arith) in
    let rest = all_pass-both one two both rs h (ground arith) (ground arith) in ground arith

belongs-delete :
    (account : ℕ) (o : Option ℕ) (is : List ℕ)
    → belongs o is ≡ true
    → holds (λ a. a == account) o ≡ false
    → belongs o (delete_where (λ a. a == account) is) ≡ true
belongs-delete account none is h k = refl
belongs-delete account (some x) is h k = is_in-delete account x is k h

refers-credential :
    (account : ℕ) (o : Option ℕ) (us cs : List Row)
    → refers o cs ≡ true
    → holds (λ c. is_credential_of account c us cs) o ≡ false
    → refers o (delete_where (λ (c : Row). holds (λ u. is_owned account u us) c.parent) cs) ≡ true
refers-credential account none us cs h k = refl
refers-credential account (some x) us cs h k = has_row-is_credential_of account x us cs k h

refers-is_owned :
    (account : ℕ) (o : Option ℕ) (us : List Row)
    → refers o us ≡ true
    → holds (λ u. is_owned account u us) o ≡ false
    → refers o (delete_where (λ (u : Row). holds (λ p. p == account) u.parent) us) ≡ true
refers-is_owned account none us h k = refl
refers-is_owned account (some x) us h k = has_row-is_owned account x us k h

request_released :
    (account : ℕ) (d : ProxyTables) (r : Request)
    → request_refers d r ≡ true
    → request_refers (purge_account_rows account d) (
        detach_request
          (λ c. is_credential_of account c d.upstreams d.credentials)
          (release_request account r))
      ≡ true
unfolding purge_account_rows
request_released account d r h = elim (Bool-cases (holds (λ a. a == account) r.account)) [
  | inl own ↦ rw own refl
  | inr other ↦
      let belonging = belongs-delete account r.account d.accounts (ground arith) other in
      let of_account = λ (c : ℕ). is_credential_of account c d.upstreams d.credentials in
      elim (Bool-cases (holds of_account r.credential)) [
        | inl gone ↦ rw (other, gone) (ground arith)
        | inr stays ↦
            let kept =
              refers-credential account r.credential d.upstreams d.credentials (ground arith)
                stays in
            rw (other, stays) (ground arith)
      ]
]

attempt_released :
    (account : ℕ) (d : ProxyTables) (a : Attempt)
    → attempt_refers d a ≡ true
    → attempt_refers (purge_account_rows account d) (
        detach_attempt
          (λ c. is_credential_of account c d.upstreams d.credentials)
          (release_attempt account d.upstreams a))
      ≡ true
unfolding purge_account_rows
attempt_released account d a h =
    elim (Bool-cases (
      holds (λ x. x == account) a.account
      || holds (λ u. is_owned account u d.upstreams) a.upstream)) [
        | inl own ↦ rw own refl
        | inr other ↦
            let up = refers-is_owned account a.upstream d.upstreams (ground arith) (ground arith) in
            let of_account = λ (c : ℕ). is_credential_of account c d.upstreams d.credentials in
            elim (Bool-cases (holds of_account a.credential)) [
              | inl gone ↦ rw (other, gone) (ground arith)
              | inr stays ↦
                  let kept =
                    refers-credential account a.credential d.upstreams d.credentials (ground arith)
                      stays in
                  rw (other, stays) (ground arith)
            ]
      ]

-- The rows of an account, when none of the route sets is left.
pub purge_account_rows-IsConsistent :
    (account : ℕ) (d : ProxyTables)
    → IsConsistent d
    → all_pass (λ (s : Row). not (holds (λ a. a == account) s.parent)) d.route_sets ≡ true
    → IsConsistent (purge_account_rows account d)
unfolding purge_account_rows
purge_account_rows-IsConsistent account d h no_sets = record {
  upstreams =
      all_pass-delete (λ (u : Row). holds (λ a. a == account) u.parent) _ _ d.upstreams
        (λ u stays k. belongs-delete account u.parent d.accounts k stays) h.upstreams;
  route_sets =
      all_pass-both _ _ _ d.route_sets
        (λ s k l. belongs-delete account s.parent d.accounts k (ground arith)) h.route_sets no_sets;
  route_rules =
      all_pass-delete (λ (r : RouteRule). is_owned account r.upstream d.upstreams) (rule_refers d) _
        d.route_rules
        (λ r stays k. ground (arith, has_row-is_owned account r.upstream d.upstreams stays))
        h.route_rules;
  client_keys = h.client_keys;
  credentials =
      all_pass-delete (λ (c : Row). holds (λ x. is_owned account x d.upstreams) c.parent) _ _
        d.credentials (λ c stays k. refers-is_owned account c.parent d.upstreams k stays)
        h.credentials;
  secrets =
      all_pass-delete
        (λ (s : Row). holds (λ c. is_credential_of account c d.upstreams d.credentials) s.parent) _
        _ d.secrets
        (λ s stays k. refers-credential account s.parent d.upstreams d.credentials k stays)
        h.secrets;
  catalog =
      all_pass-delete (λ (m : Row). holds (λ x. is_owned account x d.upstreams) m.parent) _ _
        d.catalog (λ m stays k. refers-is_owned account m.parent d.upstreams k stays) h.catalog;
  contracts =
      all_pass-delete (λ (c : Row). holds (λ a. a == account) c.parent) _ _ d.contracts
        (λ c stays k. belongs-delete account c.parent d.accounts k stays) h.contracts;
  rate_events =
      all_pass-delete (λ (e : Row). holds (λ x. is_owned account x d.contracts) e.parent) _ _
        d.rate_events (λ e stays k. refers-is_owned account e.parent d.contracts k stays)
        h.rate_events;
  importers =
      all_pass-delete (λ (i : Row). holds (λ a. a == account) i.parent) _ _ d.importers
        (λ i stays k. belongs-delete account i.parent d.accounts k stays) h.importers;
  request_log =
      all_pass-map _ (request_refers d) _ d.request_log (request_released account d) h.request_log;
  request_attempts =
      all_pass-map _ (attempt_refers d) _ d.request_attempts (attempt_released account d)
        h.request_attempts;
}
