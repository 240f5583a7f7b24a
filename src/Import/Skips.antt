-- ===== src/Import/Skips.antt =====
-- The stored cursor: a file that was imported whole is not parsed again by a later pass.
use token_board.Base.{ℕ, ◌≡◌, true, false, List, ◌==◌, All}
use token_board.Import.Scan.{
  Stat, states_of, state_at, is_unchanged, Visit, Pass, Step, next, return, raise, Outcome,
  returned, raised,
}

module _ {F : Type 0} where
  -- The stored cursor is the local one, and it says of the file that it is unchanged.
  record Remembers (key : ℕ) (stat : Stat) (p : Pass F) : Type 0 where
    stored : states_of p.database.cursor ≡ p.states
    unchanged : is_unchanged false (state_at key p.states) stat ≡ true

  abbrev StepRemembers : ℕ → Stat → Step F → Type 0
  StepRemembers key stat (next q) = Remembers key stat q
  StepRemembers key stat (return q) = Remembers key stat q
  StepRemembers key stat (raise q) = Remembers key stat q

  -- The pass as it ends.
  abbrev pub end_of_pass : Outcome F → Pass F
  end_of_pass (returned q) = q
  end_of_pass (raised q) = q

module _ {F : Type 0} (nought : F) (speed : ℕ → ℕ → F) (software : ℕ) where
  abbrev pub OtherKeys : ℕ → List Visit → Type 0
  OtherKeys key = All (λ (v : Visit). (v.state_key == key) ≡ false)
