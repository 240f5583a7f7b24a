-- ===== src/Usage/Poll/Failure.antt =====
-- What a query that observes nothing leaves of the stored snapshot, and what a success writes.
use token_board.Base.{
  ℕ, ◌≡◌, ◌≢◌, refl, ap, ◌∙◌, ◌⊎◌, inl, inr, Bool, true, false, Option, none, some, arith,
  Bool-cases, ok, err, Result, ◌==◌,
}
use mathlib.Core.Option.{some-injective}
use token_board.Time.Stamps.{format_utc}
use token_board.Usage.{
  Windows, Message, transport, no_usage, incomplete, http, Subscription, Snapshot, parse_usage_body,
}
use token_board.Usage.Poll.{
  previous_of, failure, prior_subscription, verdict_of, legacy_verdict, Body, undecodable, json,
  Reply, unreachable, answered, is_complete, entitlement_lapse, success, observe, read_body,
  query_usage, resumed_stamp,
}

-- The upstream's structured refusal of the subscription.
abbrev pub Lapse : Reply → Type 0
Lapse unreachable = ⊥
Lapse (answered status body) = entitlement_lapse status body ≡ true

-- What the verdict and the error of a stored snapshot make of the verdict after a failure that is no
-- refusal: a verdict stands, and without one an error "HTTP 403" reads as a lapse.
abbrev pub Carries : Subscription → Option Message → Subscription → Type 0
Carries Subscription.active error v = v ≡ Subscription.active
Carries Subscription.inactive error v = v ≡ Subscription.inactive
Carries Subscription.other error v = v ≡ Subscription.missing
Carries Subscription.missing error v =
    ((error ≡ some (http 403)) × (v ≡ Subscription.inactive))
    ⊎ ((error ≢ some (http 403)) × (v ≡ Subscription.missing))

-- A failed query: the observation stays as it was, the error and its moment are new, and the
-- verdict is "inactive" after the structured 403 and otherwise what the stored snapshot carries.
abbrev pub Failed : Option Snapshot → ℕ → Reply → Snapshot → Type 0
Failed prior observed reply s =
    (s.error ≢ none)
    × (s.error_at ≡ format_utc observed)
    × (s.checked_at ≡ (previous_of prior).checked_at)
    × (s.windows ≡ (previous_of prior).windows)
    × (s.monthly_period ≡ (previous_of prior).monthly_period)
    × (s.resumed_at ≡ (previous_of prior).resumed_at)
    × ((Carries (previous_of prior).subscription (previous_of prior).error s.subscription
          × ¬ (Lapse reply))
        ⊎ ((s.subscription ≡ Subscription.inactive) × Lapse reply))

-- A successful query: a new complete observation, an active subscription, and no error.
abbrev pub Succeeded : Option Snapshot → ℕ → Snapshot → Type 0
Succeeded prior observed s =
    (s.error ≡ none)
    × (s.checked_at ≡ format_utc observed)
    × (is_complete s.windows ≡ true)
    × (s.subscription ≡ Subscription.active)
    × (s.resumed_at ≡ resumed_stamp (prior_subscription prior) prior observed)

http-injective : {m n : ℕ} → http m ≡ http n → m ≡ n
http-injective e = cc

verdict-Carries : (v : Subscription) (error : Option Message) → Carries v error (verdict_of v error)
unfolding verdict_of legacy_verdict
verdict-Carries Subscription.active error = refl
verdict-Carries Subscription.inactive error = refl
verdict-Carries Subscription.other error = refl
verdict-Carries Subscription.missing none = inr ((λ e. cc), refl)
verdict-Carries Subscription.missing (some (http status)) = elim (Bool-cases (status == 403)) [
  | inl refused ↦
      let e : status ≡ 403 = ground arith in
      rw refused (inl (ap (λ (n : ℕ). some (http n)) e, refl))
  | inr other ↦ rw other (
      inr (
        (λ e.
            let same : status ≡ 403 = http-injective (some-injective _ _ e) in
            ground (arith, same)),
        refl,
      ))
]
verdict-Carries Subscription.missing (some transport) = inr ((λ e. cc), refl)
verdict-Carries Subscription.missing (some Message.not_json) = inr ((λ e. cc), refl)
verdict-Carries Subscription.missing (some no_usage) = inr ((λ e. cc), refl)
verdict-Carries Subscription.missing (some incomplete) = inr ((λ e. cc), refl)
verdict-Carries Subscription.missing (some Message.other) = inr ((λ e. cc), refl)

failure-Failed :
    (prior : Option Snapshot) (message : Message) (observed : ℕ) (reply : Reply)
    → ¬ Lapse reply
    → Failed prior observed reply (failure prior message false observed)
unfolding failure
failure-Failed prior message observed reply h = (
  (λ e. cc),
  refl,
  refl,
  refl,
  refl,
  refl,
  inl (verdict-Carries (previous_of prior).subscription (previous_of prior).error, h),
)

observe_cases :
    (prior : Option Snapshot) (observed : ℕ) (reply : Reply) (r : Result (Windows × Option ℕ))
    → ¬ Lapse reply
    → Succeeded prior observed (observe prior observed r)
      ⊎ Failed prior observed reply (observe prior observed r)
unfolding observe success
observe_cases prior observed reply (err e) h = inr (failure-Failed prior _ observed reply h)
observe_cases prior observed reply (ok (windows, resets)) h =
    elim (Bool-cases (is_complete windows)) [
      | inl complete ↦ rw complete (inl (refl, refl, complete, refl, refl))
      | inr missing ↦ rw missing (inr (failure-Failed prior _ observed reply h))
    ]

read_body_cases :
    (prior : Option Snapshot) (observed : ℕ) (reply : Reply) (body : Body)
    → ¬ Lapse reply
    → Succeeded prior observed (read_body prior observed body)
      ⊎ Failed prior observed reply (read_body prior observed body)
unfolding read_body
read_body_cases prior observed reply undecodable h = inr (failure-Failed prior _ observed reply h)
read_body_cases prior observed reply (json entitlement usage) h =
    observe_cases prior observed reply (parse_usage_body observed usage) h

not-Lapse_of_ok :
    (status : ℕ) (body : Body) → (status == 200) ≡ true → ¬ (entitlement_lapse status body ≡ true)
unfolding entitlement_lapse
not-Lapse_of_ok status undecodable h e = cc
not-Lapse_of_ok status (json entitlement usage) h e = ground arith

-- Whatever the upstream answers, a query either records a complete observation with no error and
-- an active subscription, or it records an error and keeps the last observation (its moment,
-- windows, month and resume stamp) unchanged. A failure sets the verdict to "inactive" after the
-- structured 403 refusal; otherwise a stored verdict stands, and a snapshot without one gets
-- "inactive" if its own error is an HTTP 403, structured or not, and no verdict if it is not.
pub query_usage_cases :
    (prior : Option Snapshot) (observed : ℕ) (reply : Reply)
    → Succeeded prior observed (query_usage prior observed reply)
      ⊎ Failed prior observed reply (query_usage prior observed reply)
unfolding query_usage failure
query_usage_cases prior observed unreachable =
    inr (failure-Failed prior _ observed unreachable (λ e. e))
query_usage_cases prior observed (answered status body) = elim (Bool-cases (status == 200)) [
  | inl accepted ↦ rw accepted (
      read_body_cases prior observed (answered status body) body
        (not-Lapse_of_ok status body accepted))
  | inr refused ↦ rw refused (inr (refusal (entitlement_lapse status body) refl))
]
  where
    refusal :
        (lapse : Bool)
        → entitlement_lapse status body ≡ lapse
        → Failed prior observed (answered status body) (failure prior (http status) lapse observed)
    refusal true e = ((λ h. cc), refl, refl, refl, refl, refl, inr (refl, e))
    refusal false e = failure-Failed prior _ observed (answered status body) (λ h. cc)

bare_refusal :
    (prior : Option Snapshot) (t : ℕ) (body : Body)
    → entitlement_lapse 403 body ≡ false
    → query_usage prior t (answered 403 body) ≡ failure prior (http 403) false t
unfolding query_usage
bare_refusal prior t body bare = rw bare refl

failure_verdict :
    (prior : Option Snapshot) (m : Message) (t : ℕ)
    → prior_subscription (some (previous_of prior)) ≡ Subscription.missing
    → (failure prior m false t).subscription ≡ Subscription.missing
unfolding failure
failure_verdict prior m t h = h

failure_error :
    (prior : Option Snapshot) (m : Message) (t : ℕ) → (failure prior m false t).error ≡ some m
unfolding failure
failure_error prior m t = refl

-- The verdict that a missing one and an HTTP 403 carry.
carried_refusal :
    (v : Subscription) (error : Option Message) (w : Subscription)
    → v ≡ Subscription.missing
    → error ≡ some (http 403)
    → Carries v error w
    → w ≡ Subscription.inactive
carried_refusal Subscription.active error w h k c = cc
carried_refusal Subscription.inactive error w h k c = cc
carried_refusal Subscription.other error w h k c = cc
carried_refusal Subscription.missing error w h k (inl (e, inactive)) = inactive
carried_refusal Subscription.missing error w h k (inr (other, e)) = absurd (other k)

stamp_of_refusal :
    (s : Snapshot) (t : ℕ)
    → s.subscription ≡ Subscription.missing
    → s.error ≡ some (http 403)
    → resumed_stamp (prior_subscription (some s)) (some s) t ≡ format_utc t
unfolding prior_subscription verdict_of legacy_verdict resumed_stamp
stamp_of_refusal s t h k = rw (h, k, prior_subscription) refl

after_bare :
    (s : Snapshot) (t : ℕ) (reply : Reply)
    → s.subscription ≡ Subscription.missing
    → s.error ≡ some (http 403)
    → Succeeded (some s) t (query_usage (some s) t reply)
      ⊎ Failed (some s) t reply (query_usage (some s) t reply)
    → (((query_usage (some s) t reply).error ≢ none)
        × ((query_usage (some s) t reply).subscription ≡ Subscription.inactive))
      ⊎ (((query_usage (some s) t reply).error ≡ none)
          × ((query_usage (some s) t reply).resumed_at ≡ format_utc t))
after_bare s t reply h k (inl (clean, _, _, _, stamp)) =
    inr (clean, stamp ∙ stamp_of_refusal s t h k)
after_bare s t reply h k (inr (error, _, _, _, _, _, inl (carried, _))) =
    inl (error, carried_refusal s.subscription s.error _ h k carried)
after_bare s t reply h k (inr (error, _, _, _, _, _, inr (inactive, _))) = inl (error, inactive)

-- A bare 403 counts as a lapse one query later. Of a key without a verdict, a 403 without the structured
-- refusal leaves no verdict; but the next query, whatever it is answered, makes the subscription
-- inactive if it fails and stamps a resume if it succeeds.
pub bare_refusal_lapses :
    (prior : Option Snapshot) (t t' : ℕ) (body : Body) (reply : Reply)
    → prior_subscription (some (previous_of prior)) ≡ Subscription.missing
    → entitlement_lapse 403 body ≡ false
    → ((query_usage prior t (answered 403 body)).subscription ≡ Subscription.missing)
      × ((((query_usage (some (query_usage prior t (answered 403 body))) t' reply).error ≢ none)
            × ((query_usage (some (query_usage prior t (answered 403 body))) t' reply).subscription
                ≡ Subscription.inactive))
          ⊎ (((query_usage (some (query_usage prior t (answered 403 body))) t' reply).error ≡ none)
              × ((query_usage (some (query_usage prior t (answered 403 body))) t' reply).resumed_at
                  ≡ format_utc t')))
bare_refusal_lapses prior t t' body reply fresh bare =
    let s : Snapshot = query_usage prior t (answered 403 body) in
    let e : s ≡ failure prior (http 403) false t = bare_refusal prior t body bare in
    let missing : s.subscription ≡ Subscription.missing =
      rw e (failure_verdict prior (http 403) t fresh) in
    let error : s.error ≡ some (http 403) = rw e (failure_error prior (http 403) t) in
    (missing, after_bare s t' reply missing error (query_usage_cases (some s) t' reply))
