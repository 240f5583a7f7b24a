-- ===== src/Usage/Poll/Chain.antt =====
-- The observed months of one key form a chain: each begins where the one before began or ended.
use token_board.Base.{
  ℕ, ◌≤◌, ◌<◌, ◌≡◌, refl, ap, ◌⊎◌, inl, inr, Option, none, some, arith, ltb, Bool-cases,
}
use token_board.Time.{whole_second}
use token_board.Time.Stamps.{instant, format_utc, format_optional}
use token_board.Usage.{Month}
use token_board.Usage.Poll.{advanced_start, advanced_end, advance_monthly_period}

-- A stored month with both ends, in whole seconds, the start not after the end.
abbrev pub month : ℕ → ℕ → Month
month a b = record { start = instant a; end = instant b }

abbrev pub IsMonth : ℕ → ℕ → Type 0
IsMonth a b = (a ≤ b) × (whole_second a ≡ a) × (whole_second b ≡ b)

-- The start of the next month: the old end once it is reached, and until then the old start.
abbrev pub Follows : ℕ → ℕ → ℕ → ℕ → Type 0
Follows a b moment a' = ((a' ≡ a) × (moment < b)) ⊎ ((a' ≡ b) × (b ≤ moment))

advanced_start_lem : (a b moment : ℕ) → Follows a b moment (advanced_start a (some b) moment)
unfolding advanced_start
advanced_start_lem a b moment = ground arith

advanced_end_lem :
    (start b : ℕ) (resets : Option ℕ)
    → start ≤ b
    → (e : ℕ) × (advanced_end start resets (some b) ≡ some e) × (start ≤ e)
unfolding advanced_end
advanced_end_lem start b none h = (b, refl, h)
advanced_end_lem start b (some r) h = elim (Bool-cases (ltb start r)) [
  | inl later ↦ (r, rw later, ground arith)
  | inr earlier ↦ (b, rw earlier, h)
]

stored_month :
    (start e : ℕ)
    → whole_second start ≡ start
    → (record { start = format_utc start; end = format_optional (some e) })
      ≡ month start (whole_second e)
unfolding format_utc format_optional
stored_month start e w = ap (λ x. month x (whole_second e)) w

-- Every observation of a key with a well-formed month leaves a well-formed month, whose start is
-- the old start before the old end is reached, and the old end from then on: the observed periods
-- neither overlap nor leave a gap, whatever reset the upstream reports.
pub advance_monthly_period_chain :
    (a b moment : ℕ) (resets : Option ℕ)
    → IsMonth a b
    → (a' : ℕ) × (b' : ℕ) × (advance_monthly_period (some (month a b)) moment resets
        ≡ some (month a' b'))
      × IsMonth a' b'
      × Follows a b moment a'
unfolding advance_monthly_period
advance_monthly_period_chain a b moment resets (h, wa, wb) =
    chained (advanced_start a (some b) moment) (advanced_start_lem a b moment)
      (advanced_end_lem (advanced_start a (some b) moment) b resets)
  where
    chained :
        (start : ℕ)
        → Follows a b moment start
        → (start ≤ b → (e : ℕ) × (advanced_end start resets (some b) ≡ some e) × (start ≤ e))
        → (a' : ℕ) × (b' : ℕ) × (some (record {
          start = format_utc start;
          end = format_optional (advanced_end start resets (some b));
        })
            ≡ some (month a' b'))
          × IsMonth a' b'
          × Follows a b moment a'
    chained start f ends =
        let (e, e_eq, e_le) = ends (ground arith) in
        let ws : whole_second start ≡ start = ground arith in
        (
          start,
          whole_second e,
          rw e_eq (ap some (stored_month start e ws)),
          (omega arith, ws, omega arith),
          f,
        )
