-- ===== src/Deletion/Credential.antt =====
-- The deletion of one credential keeps the foreign keys.
use token_board.Base.{
  ℕ, ◌≡◌, refl, ◌∙◌, true, false, Option, none, some, List, ◌==◌, Bool-cases, arith, inl, inr,
}
use token_board.Deletion.{
  Row, Request, Attempt, ProxyTables, delete_where, holds, detach_request, detach_attempt,
  purge_credential,
}
use token_board.Deletion.Rows.{has_row, all_pass-delete, all_pass-map, has_row-delete}
use token_board.Deletion.Account.{refers, request_refers, attempt_refers, IsConsistent}

has_credential :
    (uuid x : ℕ) (cs : List Row)
    → has_row x cs ≡ true
    → (x == uuid) ≡ false
    → has_row x (delete_where (λ (c : Row). c.id == uuid) cs) ≡ true
has_credential uuid x cs h k = has_row-delete (λ (c : Row). c.id == uuid) x cs (λ r e. rw e k) ∙ h

refers-kept :
    (uuid : ℕ) (o : Option ℕ) (cs : List Row)
    → refers o cs ≡ true
    → holds (λ c. c == uuid) o ≡ false
    → refers o (delete_where (λ (c : Row). c.id == uuid) cs) ≡ true
refers-kept uuid none cs h k = refl
refers-kept uuid (some x) cs h k = has_credential uuid x cs h k

request_detached :
    (uuid : ℕ) (d : ProxyTables) (r : Request)
    → request_refers d r ≡ true
    → request_refers (purge_credential uuid d) (detach_request (λ c. c == uuid) r) ≡ true
unfolding purge_credential
request_detached uuid d r h = elim (Bool-cases (holds (λ c. c == uuid) r.credential)) [
  | inl gone ↦ rw gone (ground arith)
  | inr stays ↦
      let kept = refers-kept uuid r.credential d.credentials (ground arith) stays in
      rw stays (ground arith)
]

attempt_detached :
    (uuid : ℕ) (d : ProxyTables) (a : Attempt)
    → attempt_refers d a ≡ true
    → attempt_refers (purge_credential uuid d) (detach_attempt (λ c. c == uuid) a) ≡ true
unfolding purge_credential
attempt_detached uuid d a h = elim (Bool-cases (holds (λ c. c == uuid) a.credential)) [
  | inl gone ↦ rw gone (ground arith)
  | inr stays ↦
      let kept = refers-kept uuid a.credential d.credentials (ground arith) stays in
      rw stays (ground arith)
]

-- Deleting a credential leaves no foreign key without its row.
purge_credential-IsConsistent :
    (uuid : ℕ) (d : ProxyTables) → IsConsistent d → IsConsistent (purge_credential uuid d)
unfolding purge_credential
purge_credential-IsConsistent uuid d h = record {
  upstreams = h.upstreams;
  route_sets = h.route_sets;
  route_rules = h.route_rules;
  client_keys = h.client_keys;
  credentials =
      all_pass-delete (λ (c : Row). c.id == uuid) _ _ d.credentials (λ c stays k. k) h.credentials;
  secrets =
      all_pass-delete (λ (s : Row). holds (λ c. c == uuid) s.parent) _ _ d.secrets
        (λ s stays k. refers-kept uuid s.parent d.credentials k stays) h.secrets;
  catalog = h.catalog;
  contracts = h.contracts;
  rate_events = h.rate_events;
  importers = h.importers;
  request_log =
      all_pass-map (detach_request (λ c. c == uuid)) (request_refers d) _ d.request_log
        (request_detached uuid d) h.request_log;
  request_attempts =
      all_pass-map (detach_attempt (λ c. c == uuid)) (attempt_refers d) _ d.request_attempts
        (attempt_detached uuid d) h.request_attempts;
}
