-- ===== src/Usage/Poll/Resume.antt =====
-- A lapse and the resumed subscription over a sequence of polls of one key.
use token_board.Base.{ℕ, ◌≡◌, refl, inl, inr, Option, none, some, List, [], ◌∷◌, All, ◌∙◌}
use token_board.Time.Stamps.{format_utc}
use token_board.Usage.{Message, Subscription, Snapshot, Stored}
use token_board.Usage.Poll.{Reply, query_usage, poll, prior_subscription, resumed_stamp}
use token_board.Usage.Poll.Failure.{Lapse, Carries, query_usage_cases}

abbrev pub NoLapse : List (ℕ × Reply) → Type 0
NoLapse = All (λ (q : ℕ × Reply). ¬ Lapse q.1)

prior_subscription-active :
    (s : Snapshot)
    → s.subscription ≡ Subscription.active
    → prior_subscription (some s) ≡ Subscription.active
unfolding prior_subscription
prior_subscription-active s active = rw active

prior_subscription-inactive :
    (s : Snapshot)
    → s.subscription ≡ Subscription.inactive
    → prior_subscription (some s) ≡ Subscription.inactive
unfolding prior_subscription
prior_subscription-inactive s lapsed = rw lapsed

carried_active :
    (v : Subscription) (error : Option Message) (w : Subscription)
    → v ≡ Subscription.active
    → Carries v error w
    → w ≡ Subscription.active
carried_active Subscription.active error w h carried = carried
carried_active Subscription.inactive error w h carried = cc
carried_active Subscription.other error w h carried = cc
carried_active Subscription.missing error w h carried = cc

-- One more query after a resume: nothing but a lapse changes the stamp or the verdict.
query_usage-keeps_resume :
    (s : Snapshot) (t : ℕ) (reply : Reply)
    → s.subscription ≡ Subscription.active
    → ¬ Lapse reply
    → ((query_usage (some s) t reply).subscription ≡ Subscription.active)
      × ((query_usage (some s) t reply).resumed_at ≡ s.resumed_at)
unfolding resumed_stamp
query_usage-keeps_resume s t reply active h = elim (query_usage_cases (some s) t reply) [
  | inl (_, _, _, subscription, resumed) ↦
      (subscription, rw (prior_subscription-active s active) at resumed)
  | inr (_, _, _, _, _, resumed, inl (verdict, _)) ↦
      (carried_active s.subscription s.error _ active verdict, resumed)
  | inr (_, _, _, _, _, _, inr (_, lapse)) ↦ absurd (h lapse)
]

-- Once a subscription is seen active, later polls keep its resume stamp, whatever they answer, as
-- long as none is the structured refusal.
poll_keeps_resume :
    (s : Snapshot) (polls : List (ℕ × Reply))
    → s.subscription ≡ Subscription.active
    → NoLapse polls
    → (s' : Snapshot) × (poll (Stored.object s) polls ≡ Stored.object s')
      × (s'.subscription ≡ Subscription.active)
      × (s'.resumed_at ≡ s.resumed_at)
unfolding poll
poll_keeps_resume s [] active h = (s, refl, active, refl)
poll_keeps_resume s ((t, reply) ∷ rest) active h =
    let (active', resumed) = query_usage-keeps_resume s t reply active h.0 in
    let (s', e, a, r) = poll_keeps_resume (query_usage (some s) t reply) rest active' h.1 in
    (s', e, a, r ∙ resumed)

-- After a lapse the first query without an error stamps the resume moment, and the polls after it
-- keep that stamp as long as none of them is a lapse.
pub poll_after_lapse :
    (s : Snapshot) (t : ℕ) (reply : Reply) (polls : List (ℕ × Reply))
    → s.subscription ≡ Subscription.inactive
    → (query_usage (some s) t reply).error ≡ none
    → NoLapse polls
    → (s' : Snapshot) × (poll (Stored.object s) ((t, reply) ∷ polls) ≡ Stored.object s')
      × (s'.subscription ≡ Subscription.active)
      × (s'.resumed_at ≡ format_utc t)
unfolding poll resumed_stamp
poll_after_lapse s t reply polls lapsed clean h = elim (query_usage_cases (some s) t reply) [
  | inl (_, _, _, active, resumed) ↦
      let (s', e, a, r) = poll_keeps_resume (query_usage (some s) t reply) polls active h in
      (s', e, a, r ∙ rw (prior_subscription-inactive s lapsed) at resumed)
  | inr failed ↦ absurd (failed.0 clean)
]
