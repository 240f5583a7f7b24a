-- ===== src/Time/Stamps.antt =====
-- Timestamps as stored data: what the strict runtime parser and the lenient external parser of
-- app/core/time.py make of a JSON value, the text of a timestamp standing for the moment it names.
use token_board.Base.{
  ℕ, ◌+◌, ◌*◌, Option, none, some, ltb, if◌then◌else◌, Result, ok, err, value_error,
}
use token_board.Time.{us_per_second, moment_end, whole_second}

-- A stored timestamp: missing, null or empty; a value that the strict grammar refuses; a moment.
pub data TimeField : Type 0 where
  empty malformed : TimeField
  instant : ℕ → TimeField

unfoldable pub parse_runtime_timestamp : TimeField → Result (Option ℕ)
parse_runtime_timestamp empty = ok none
parse_runtime_timestamp malformed = err value_error
parse_runtime_timestamp (instant t) = ok (some t)

-- `_optional_timestamp` and `_timestamp`: a malformed value counts as none.
unfoldable pub optional_timestamp : TimeField → Option ℕ
unfolding parse_runtime_timestamp
optional_timestamp f = elim (parse_runtime_timestamp f) [ ok t ↦ t | err _ ↦ none ]

-- `format_utc` writes whole seconds.
unfoldable pub format_utc : ℕ → TimeField
format_utc t = instant (whole_second t)

unfoldable pub format_optional : Option ℕ → TimeField
unfolding format_utc
format_optional none = empty
format_optional (some t) = format_utc t

-- A timestamp of an external store: an integer of epoch seconds, milliseconds or microseconds,
-- a text, or something else that a date cannot be.
pub data ExternalTime : Type 0 where
  absent boolean unreadable : ExternalTime
  epoch : ℕ → ExternalTime
  text : ℕ → ExternalTime

-- 1970-01-01 is day 719162 of the calendar.
abbrev pub unix_epoch : ℕ
unix_epoch = 719_162 * 86_400_000_000

abbrev pub epoch_millisecond_threshold : ℕ
epoch_millisecond_threshold = 100_000_000_000

abbrev pub epoch_microsecond_threshold : ℕ
epoch_microsecond_threshold = 100_000_000_000_000

unfoldable pub epoch_datetime : ℕ → Result ℕ
epoch_datetime n =
    let offset : ℕ =
      if ltb n epoch_millisecond_threshold
      then n * us_per_second
      else if ltb n epoch_microsecond_threshold
      then n * 1000
      else n in
    if ltb (unix_epoch + offset) moment_end then ok (unix_epoch + offset) else err value_error

unfoldable pub parse_external_timestamp : ExternalTime → Result (Option ℕ)
unfolding epoch_datetime
parse_external_timestamp absent = ok none
parse_external_timestamp boolean = err value_error
parse_external_timestamp unreadable = err value_error
parse_external_timestamp (epoch n) = elim (epoch_datetime n) [ ok t ↦ ok (some t) | err e ↦ err e ]
parse_external_timestamp (text t) = ok (some t)
