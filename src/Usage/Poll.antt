-- ===== src/Usage/Poll.antt =====
-- app/services/key_usage.py, one query of one credential: the month chain, the failure payload and
-- the payload of each answer. A poll is the sequence of the queries of one key.
pub mod Failure
pub mod Resume
pub mod Chain
use token_board.Base.{
  ℕ, ◌+◌, Bool, true, false, ◌&&◌, ◌||◌, Option, none, some, List, [], ◌∷◌, ltb, leb, ◌==◌,
  if◌then◌else◌, Result, ok, err,
}
use token_board.Time.Stamps.{TimeField, empty, optional_timestamp, format_utc, format_optional}
use token_board.Usage.{
  Windows, Month, Message, transport, not_json, no_usage, incomplete, http, Subscription, Snapshot,
  Stored, payload, RawUsage, parse_usage_body,
}

-- The start and end of a stored month; a value that is not an object has neither.
unfoldable pub month_bounds : Option Month → Option ℕ × Option ℕ
unfolding optional_timestamp
month_bounds none = (none, none)
month_bounds (some m) = (optional_timestamp m.start, optional_timestamp m.end)

-- `prior_end` once the moment has reached it, else `prior_start`.
unfoldable pub advanced_start : ℕ → Option ℕ → ℕ → ℕ
advanced_start prior_start none moment = prior_start
advanced_start prior_start (some prior_end) moment =
    if leb prior_end moment then prior_end else prior_start

-- The reported reset if it lies after the start, else the previous end.
unfoldable pub advanced_end : ℕ → Option ℕ → Option ℕ → Option ℕ
advanced_end start none prior_end = prior_end
advanced_end start (some resets) prior_end = if ltb start resets then some resets else prior_end

unfoldable pub advance_from : Option ℕ → Option ℕ → ℕ → Option ℕ → Option Month
unfolding format_utc format_optional advanced_start advanced_end
advance_from none prior_end moment none = none
advance_from none prior_end moment (some resets) =
    some (record { start = format_utc moment; end = format_utc resets })
advance_from (some prior_start) prior_end moment resets =
    let start = advanced_start prior_start prior_end moment in
    some (record {
      start = format_utc start;
      end = format_optional (advanced_end start resets prior_end);
    })

unfoldable pub advance_monthly_period : Option Month → ℕ → Option ℕ → Option Month
unfolding advance_from month_bounds
advance_monthly_period prior moment resets =
    let (start, end) = month_bounds prior in advance_from start end moment resets

-- A snapshot without the key is a legacy one: its "HTTP 403" reads as a lapse.
unfoldable pub legacy_verdict : Option Message → Subscription
legacy_verdict (some (http status)) =
    if status == 403 then Subscription.inactive else Subscription.missing
legacy_verdict _ = Subscription.missing

unfoldable pub verdict_of : Subscription → Option Message → Subscription
unfolding legacy_verdict
verdict_of Subscription.active error = Subscription.active
verdict_of Subscription.inactive error = Subscription.inactive
verdict_of Subscription.missing error = legacy_verdict error
verdict_of Subscription.other error = Subscription.missing

-- `_prior_subscription`; its `None` is `missing`.
unfoldable pub prior_subscription : Option Snapshot → Subscription
unfolding verdict_of
prior_subscription none = Subscription.missing
prior_subscription (some s) = verdict_of s.subscription s.error

abbrev pub no_windows : Windows
no_windows = record { rolling = none; weekly = none; monthly = none }

-- What a failure keeps of a payload that is not an object: nothing.
abbrev pub blank : Snapshot
blank = record {
  checked_at = empty;
  error = none;
  error_at = empty;
  subscription = Subscription.missing;
  resumed_at = empty;
  windows = no_windows;
  monthly_period = none;
}

abbrev pub previous_of : Option Snapshot → Snapshot
previous_of none = blank
previous_of (some s) = s

unfoldable pub failure : Option Snapshot → Message → Bool → ℕ → Snapshot
unfolding prior_subscription format_utc
failure prior message lapse moment =
    let previous = previous_of prior in
    record previous {
      error = some message;
      error_at = format_utc moment;
      subscription = if lapse then Subscription.inactive else prior_subscription (some previous);
    }

-- The answer of the upstream. A JSON body is what the code reads of it: whether `error.type` is
-- "EntitlementError", and its `usage` object.
pub data Body : Type 0 where
  undecodable : Body
  json : Bool → Option RawUsage → Body

pub data Reply : Type 0 where
  unreachable : Reply
  answered : ℕ → Body → Reply

unfoldable pub entitlement_lapse : ℕ → Body → Bool
entitlement_lapse status undecodable = false
entitlement_lapse status (json entitlement usage) = (status == 403) && entitlement

unfoldable pub is_complete : Windows → Bool
is_complete w = elim w.rolling [
  | none ↦ false
  | some _ ↦ elim w.weekly [
    | none ↦ false
    | some _ ↦ elim w.monthly [ none ↦ false | some _ ↦ true ]
  ]
]

abbrev pub month_of_prior : Option Snapshot → Option Month
month_of_prior none = none
month_of_prior (some s) = s.monthly_period

abbrev pub resumed_of_prior : Option Snapshot → TimeField
resumed_of_prior none = empty
resumed_of_prior (some s) = s.resumed_at

-- `resumed_at` of a success: the moment after a lapse, else what the prior payload carries.
unfoldable pub resumed_stamp : Subscription → Option Snapshot → ℕ → TimeField
unfolding format_utc
resumed_stamp Subscription.inactive prior observed = format_utc observed
resumed_stamp _ prior observed = resumed_of_prior prior

unfoldable pub success : Option Snapshot → ℕ → Windows → Option ℕ → Snapshot
unfolding prior_subscription resumed_stamp format_utc advance_monthly_period
success prior observed windows resets = record {
  checked_at = format_utc observed;
  error = none;
  error_at = empty;
  subscription = Subscription.active;
  resumed_at = resumed_stamp (prior_subscription prior) prior observed;
  windows = windows;
  monthly_period = advance_monthly_period (month_of_prior prior) observed resets;
}

unfoldable pub observe : Option Snapshot → ℕ → Result (Windows × Option ℕ) → Snapshot
unfolding success failure is_complete
observe prior observed (err _) = failure prior no_usage false observed
observe prior observed (ok (windows, resets)) =
    if is_complete windows
    then success prior observed windows resets
    else failure prior incomplete false observed

unfoldable pub read_body : Option Snapshot → ℕ → Body → Snapshot
unfolding observe failure parse_usage_body
read_body prior observed undecodable = failure prior Message.not_json false observed
read_body prior observed (json entitlement usage) =
    observe prior observed (parse_usage_body observed usage)

-- `_query_usage`; `observed` is the clock's reading after the answer.
unfoldable pub query_usage : Option Snapshot → ℕ → Reply → Snapshot
unfolding read_body failure entitlement_lapse
query_usage prior observed unreachable = failure prior transport false observed
query_usage prior observed (answered status body) =
    if status == 200
    then read_body prior observed body
    else failure prior (http status) (entitlement_lapse status body) observed

-- The queries of one key, one poll after the other: each reads what the one before has stored.
unfoldable pub poll : Stored → List (ℕ × Reply) → Stored
unfolding query_usage payload
poll stored [] = stored
poll stored ((moment, reply) ∷ rest) =
    poll (Stored.object (query_usage (payload stored) moment reply)) rest
