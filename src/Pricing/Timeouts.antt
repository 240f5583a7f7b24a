-- ===== src/Pricing/Timeouts.antt =====
-- `update_timeout_config` and the table `proxy_timeout_config`, in the order of its rows.
use token_board.Base.{
  ℕ, ◌≡◌, inl, inr, refl, Bool, true, false, ◌&&◌, Option, none, some, List, [], ◌∷◌, leb,
  if◌then◌else◌, Result, ok, err, ok-injective, >>=-returns, value_error, ◌>>=◌, Bool-cases, arith,
}

-- `endpoint_kind`, which stands for the groups `anthropic`, `openai_responses` and `openai`.
pub data EndpointKind : Type 0 where
  messages responses chat : EndpointKind

-- A field: no such key, what `int` refuses, a negative number, a number.
pub data TimeoutField : Type 0 where
  missing unreadable negative : TimeoutField
  seconds : ℕ → TimeoutField

pub record TimeoutData : Type 0 where
  pub streaming_first_byte_timeout : TimeoutField
  pub streaming_idle_timeout : TimeoutField
  pub non_streaming_timeout : TimeoutField

pub record Timeouts : Type 0 where
  pub streaming_first_byte_timeout : ℕ
  pub streaming_idle_timeout : ℕ
  pub non_streaming_timeout : ℕ

abbrev pub TimeoutTable : Type 0
TimeoutTable = List (EndpointKind × Timeouts)

-- One field between its bounds.
unfoldable pub read_timeout : ℕ → ℕ → TimeoutField → Result ℕ
read_timeout low high missing = err value_error
read_timeout low high unreadable = err value_error
read_timeout low high negative = err value_error
read_timeout low high (seconds v) = if leb low v && leb v high then ok v else err value_error

unfoldable pub read_timeouts : TimeoutData → Result Timeouts
unfolding read_timeout
read_timeouts d = read_timeout 1 120 d.streaming_first_byte_timeout >>= λ first.
    read_timeout 0 600 d.streaming_idle_timeout >>= λ idle.
    read_timeout 60 1200 d.non_streaming_timeout >>= λ rest. ok (record {
      streaming_first_byte_timeout = first;
      streaming_idle_timeout = idle;
      non_streaming_timeout = rest;
    })

abbrev pub same_endpoint : EndpointKind → EndpointKind → Bool
same_endpoint messages messages = true
same_endpoint responses responses = true
same_endpoint chat chat = true
same_endpoint _ _ = false

-- INSERT ... ON CONFLICT(endpoint_kind) DO UPDATE.
unfoldable pub put_timeouts : EndpointKind → Timeouts → TimeoutTable → TimeoutTable
put_timeouts k t [] = (k, t) ∷ []
put_timeouts k t ((j, u) ∷ rows) =
    let rest = put_timeouts k t rows in if same_endpoint j k then (j, t) ∷ rows else (j, u) ∷ rest

unfoldable pub timeouts_of : EndpointKind → TimeoutTable → Option Timeouts
timeouts_of k [] = none
timeouts_of k ((j, u) ∷ rows) = if same_endpoint j k then some u else timeouts_of k rows

-- `none` is a group that is unknown; an exception leaves the table.
unfoldable pub update_timeout_config :
    Option EndpointKind → TimeoutData → TimeoutTable → Result TimeoutTable
unfolding read_timeouts put_timeouts
update_timeout_config none d rows = err value_error
update_timeout_config (some k) d rows = read_timeouts d >>= λ t. ok (put_timeouts k t rows)

abbrev pub is_between : ℕ → ℕ → ℕ → Bool
is_between low high v = leb low v && leb v high

-- The ranges of the three fields.
abbrev pub is_in_range : Timeouts → Bool
is_in_range t =
    is_between 1 120 t.streaming_first_byte_timeout
    && is_between 0 600 t.streaming_idle_timeout
    && is_between 60 1200 t.non_streaming_timeout

abbrev pub are_in_range : TimeoutTable → Bool
are_in_range [] = true
are_in_range ((k, t) ∷ rows) = is_in_range t && are_in_range rows

read_timeout-is_between :
    (low high : ℕ) (f : TimeoutField) {v : ℕ}
    → read_timeout low high f ≡ ok v
    → is_between low high v ≡ true
unfolding read_timeout
read_timeout-is_between low high missing e = cc
read_timeout-is_between low high unreadable e = cc
read_timeout-is_between low high negative e = cc
read_timeout-is_between low high (seconds v) e = elim (Bool-cases (is_between low high v)) [
  | inl good ↦ let same = ok-injective (rw good at e) in rw (← same) good
  | inr bad ↦ let wrong = rw bad at e in cc
]

read_timeouts-is_in_range :
    (d : TimeoutData) {t : Timeouts} → read_timeouts d ≡ ok t → is_in_range t ≡ true
unfolding read_timeouts
read_timeouts-is_in_range d e =
    let (first, e1, k1) = >>=-returns (read_timeout 1 120 d.streaming_first_byte_timeout) _ e in
    let (idle, e2, k2) = >>=-returns (read_timeout 0 600 d.streaming_idle_timeout) _ k1 in
    let (rest, e3, k3) = >>=-returns (read_timeout 60 1200 d.non_streaming_timeout) _ k2 in
    rw (← ok-injective k3) (
      ground (
        arith,
        read_timeout-is_between 1 120 d.streaming_first_byte_timeout e1,
        read_timeout-is_between 0 600 d.streaming_idle_timeout e2,
        read_timeout-is_between 60 1200 d.non_streaming_timeout e3,
      ))

put-are_in_range :
    (k : EndpointKind) (t : Timeouts) (rows : TimeoutTable)
    → is_in_range t ≡ true
    → are_in_range rows ≡ true
    → are_in_range (put_timeouts k t rows) ≡ true
unfolding put_timeouts
put-are_in_range k t [] h good = ground (arith, h)
put-are_in_range k t ((j, u) ∷ rows) h good = ground (arith, h, put-are_in_range k t rows h)

timeouts_of-put :
    (k j : EndpointKind) (t : Timeouts) (rows : TimeoutTable)
    → timeouts_of j (put_timeouts k t rows)
      ≡ (if same_endpoint k j then some t else timeouts_of j rows)
unfolding put_timeouts timeouts_of
timeouts_of-put k j t [] = refl
timeouts_of-put k j t ((i, u) ∷ rows) = ground (arith, timeouts_of-put k j t rows)

-- An update that returns keeps every row of a table within the ranges, stores one record of timeouts for
-- the group, and leaves the timeouts of the other groups.
pub update_timeout_config_ranges :
    (k : EndpointKind) (d : TimeoutData) (rows : TimeoutTable) {rows' : TimeoutTable}
    → update_timeout_config (some k) d rows ≡ ok rows'
    → are_in_range rows ≡ true
    → (are_in_range rows' ≡ true)
      × (t : Timeouts) × (read_timeouts d ≡ ok t)
      × ((j : EndpointKind)
          → timeouts_of j rows' ≡ (if same_endpoint k j then some t else timeouts_of j rows))
unfolding update_timeout_config
update_timeout_config_ranges k d rows e good =
    let (t, e1, k1) = >>=-returns (read_timeouts d) _ e in
    rw (← ok-injective k1) (
      put-are_in_range k t rows (read_timeouts-is_in_range d e1) good,
      t,
      e1,
      λ j. timeouts_of-put k j t rows,
    )
