-- ===== src/Usage.antt =====
-- app/services/key_usage.py and the snapshot types of app/services/billing_units.py: one stored
-- usage snapshot per upstream key, written by the poller and read by billing. A JSON document is
-- the record of the fields that the code reads, each with the values that the code tells apart.
pub mod Poll
use token_board.Base.{
  ℕ, ◌+◌, ◌-◌, ◌*◌, ◌&&◌, ◌||◌, Option, none, some, min, ltb, leb, ◌==◌, if◌then◌else◌, Result, ok,
  err, value_error,
}
use token_board.Time.{us_per_second}
use token_board.Time.Stamps.{
  TimeField, format_optional, ExternalTime, absent, boolean, parse_external_timestamp,
}

-- The stored window names "5h", "week", "month", of the upstream's rolling, weekly and monthly.
pub data WindowName : Type 0 where
  five_hours week month : WindowName

pub data WindowState : Type 0 where
  started idle unknown : WindowState

pub record Window : Type 0 where
  pub percent : ℕ
  pub resets_at : TimeField
  pub state : WindowState

pub record Windows : Type 0 where
  pub rolling : Option Window
  pub weekly : Option Window
  pub monthly : Option Window

pub record Month : Type 0 where
  pub start : TimeField
  pub end : TimeField

-- The texts that the poller stores in `error`. `http 403` is the text "HTTP 403".
pub data Message : Type 0 where
  transport not_json no_usage incomplete other : Message
  http : ℕ → Message

-- `payload.get("subscription")`, with a key that is missing told from one with another value.
pub data Subscription : Type 0 where
  missing active inactive other : Subscription

pub record Snapshot : Type 0 where
  pub checked_at : TimeField
  pub error : Option Message
  pub error_at : TimeField
  pub subscription : Subscription
  pub resumed_at : TimeField
  pub windows : Windows
  -- `none` is anything but an object.
  pub monthly_period : Option Month

-- The column `usage_json`: null or empty, text that is not JSON or not an object, an object.
pub data Stored : Type 0 where
  unset unparsable : Stored
  object : Snapshot → Stored

unfoldable pub payload : Stored → Option Snapshot
payload unset = none
payload unparsable = none
payload (object s) = some s

abbrev pub rolling_window : ℕ
rolling_window = 5 * 3600 * us_per_second

abbrev pub state_tolerance : ℕ
state_tolerance = 30 * us_per_second

-- What `float(value)` makes of a reported percentage, cut to an integer.
pub data Reported : Type 0 where
  unusable negative : Reported
  whole : ℕ → Reported

unfoldable pub percent_of : Reported → Option ℕ
percent_of unusable = none
percent_of negative = some 0
percent_of (whole n) = some (min 100 n)

unfoldable pub resets_of : ExternalTime → Option ℕ
unfolding parse_external_timestamp
resets_of absent = none
resets_of boolean = none
resets_of value = elim (parse_external_timestamp value) [ ok t ↦ t | err _ ↦ none ]

-- `_window_state`: the deadline against the placeholder `observed + 5h`, within 30 seconds.
unfoldable pub rolling_state : ℕ → Option ℕ → Option ℕ → WindowState
rolling_state percent none observed = unknown
rolling_state percent (some resets) none = unknown
rolling_state percent (some resets) (some observed) =
    if leb 1 percent
    then started
    else if ltb (resets + state_tolerance) (observed + rolling_window)
    then started
    else if leb resets (observed + rolling_window + state_tolerance)
    then idle
    else unknown

unfoldable pub calendar_state : Option ℕ → WindowState
calendar_state none = unknown
calendar_state (some _) = started

unfoldable pub window_state : WindowName → ℕ → Option ℕ → Option ℕ → WindowState
unfolding rolling_state calendar_state
window_state five_hours percent resets observed = rolling_state percent resets observed
window_state week percent resets observed = calendar_state resets
window_state month percent resets observed = calendar_state resets

-- One window of a response, which is not an object if it is `none`.
pub record RawWindow : Type 0 where
  pub percent : Reported
  pub resets_at : ExternalTime

pub record RawUsage : Type 0 where
  pub rolling : Option RawWindow
  pub weekly : Option RawWindow
  pub monthly : Option RawWindow

unfoldable pub window_at : WindowName → ℕ → RawWindow → ℕ → Window
unfolding window_state resets_of format_optional
window_at name observed raw percent =
    let resets = resets_of raw.resets_at in
    record {
      percent = percent;
      resets_at = format_optional resets;
      state = window_state name percent resets (some observed);
    }

-- One round of the loop in `parse_usage_body`: a window with no usable percentage is left out.
unfoldable pub parse_window : WindowName → ℕ → Option RawWindow → Option Window
unfolding window_at percent_of
parse_window name observed none = none
parse_window name observed (some raw) = elim (percent_of raw.percent) [
  | none ↦ none
  | some percent ↦ some (window_at name observed raw percent)
]

unfoldable pub monthly_resets : Option RawWindow → Option ℕ
unfolding resets_of
monthly_resets none = none
monthly_resets (some raw) = resets_of raw.resets_at

unfoldable pub parse_usage_body : ℕ → Option RawUsage → Result (Windows × Option ℕ)
unfolding parse_window monthly_resets
parse_usage_body observed none = err value_error
parse_usage_body observed (some usage) = ok (
  record {
    rolling = parse_window five_hours observed usage.rolling;
    weekly = parse_window week observed usage.weekly;
    monthly = parse_window month observed usage.monthly;
  },
  monthly_resets usage.monthly,
)
