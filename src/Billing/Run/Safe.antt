-- ===== src/Billing/Run/Safe.antt =====
-- A table and a later one: every step of a billing run keeps the rows and the unique keys.
use token_board.Base.{
  ℕ, ◌≡◌, refl, inl, inr, false, Option, none, List, [], ◌∷◌, map, All, ◌==◌, Bool-cases,
}
use token_board.Billing.{Charge, find_charge, is_charge}
use token_board.Billing.Stream.Frozen.{Kept, AllKept, AllKept-refl, AllKept-trans, HasUniqueIds}
use token_board.Billing.Stream.Unique.{HasUniqueKeys, IsTable}

module _ {F : Type 0} where
  -- From a table with unique ids and keys a step leads to such a table, and keeps every row.
  abbrev pub Safe : List (Charge F) → List (Charge F) → Type 0
  Safe cs ds = IsTable cs → AllKept cs ds × IsTable ds

  pub Safe-refl : (cs : List (Charge F)) → Safe cs cs
  Safe-refl cs t = (AllKept-refl cs, t)

  pub Safe-trans : (cs ds es : List (Charge F)) → Safe cs ds → Safe ds es → Safe cs es
  Safe-trans cs ds es h k t =
      let (kept, t') = h t in let (kept', t'') = k t' in (AllKept-trans cs ds es kept kept', t'')

  module _ (g : Charge F → Charge F) (keeps : (c : Charge F) → Kept c (g c)) where
    map-AllKept : (cs : List (Charge F)) → AllKept cs (map g cs)
    map-AllKept [] = tt
    map-AllKept (c ∷ cs) = (keeps c, map-AllKept cs)

    map-find :
        (owner : ℕ) (credential : Option ℕ) (start : ℕ) (cs : List (Charge F))
        → find_charge owner credential start cs ≡ none
        → find_charge owner credential start (map g cs) ≡ none
    unfolding find_charge
    map-find owner credential start [] h = refl
    map-find owner credential start (c ∷ cs) h =
        elim (Bool-cases (is_charge owner credential start c)) [
          | inl hit ↦ let h' = rw hit at h in cc
          | inr miss ↦
              rw ((keeps c).same_owner, (keeps c).same_credential, (keeps c).same_start, miss)
                (map-find owner credential start cs (rw miss at h))
        ]

    map-ids :
        (k : ℕ) (cs : List (Charge F))
        → All (λ (d : Charge F). (d.id == k) ≡ false) cs
        → All (λ (d : Charge F). (d.id == k) ≡ false) (map g cs)
    map-ids k [] h = tt
    map-ids k (c ∷ cs) h = (rw (keeps c).same_id h.0, map-ids k cs h.1)

    map-HasUniqueIds : (cs : List (Charge F)) → HasUniqueIds cs → HasUniqueIds (map g cs)
    map-HasUniqueIds [] u = tt
    map-HasUniqueIds (c ∷ cs) u =
        (rw (keeps c).same_id (map-ids c.id cs u.0), map-HasUniqueIds cs u.1)

    map-HasUniqueKeys : (cs : List (Charge F)) → HasUniqueKeys cs → HasUniqueKeys (map g cs)
    map-HasUniqueKeys [] u = tt
    map-HasUniqueKeys (c ∷ cs) u = (
      rw ((keeps c).same_owner, (keeps c).same_credential, (keeps c).same_start)
          (map-find c.owner c.credential c.period_start cs u.0),
      map-HasUniqueKeys cs u.1,
    )

    pub map-Safe : (cs : List (Charge F)) → Safe cs (map g cs)
    map-Safe cs t = (
      map-AllKept cs,
      record { ids = map-HasUniqueIds cs t.ids; keys = map-HasUniqueKeys cs t.keys },
    )
