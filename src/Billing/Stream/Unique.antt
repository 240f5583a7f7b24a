-- ===== src/Billing/Stream/Unique.antt =====
-- The table's keys through a billing step: ids and (owner, credential, period) stay unique.
use token_board.Base.{
  ℕ, suc, ◌<◌, ◌≡◌, refl, ◌∙◌, All, All-map, All-append, inl, inr, true, false, Option, none, some,
  List, [], ◌∷◌, ◌++◌, arith, ◌==◌, Bool-cases, Option-cases, max, if◌then◌else◌,
}
use token_board.Billing.{Charge, find_charge, is_charge, same_option}
use token_board.Billing.Rates.{Normalized}
use token_board.Billing.Stream.{
  Pricing, Stream, Progress, next_id, fill_charge, update_charge, insert_charge, complete_charge,
  bill_period,
}
use token_board.Billing.Stream.Frozen.{HasUniqueIds}
use token_board.Billing.Stream.Rounds.{bill_period-absent, bill_period-open, bill_period-frozen}

same_option-sym : (a b : Option ℕ) → same_option a b ≡ same_option b a
same_option-sym none none = refl
same_option-sym none (some b) = refl
same_option-sym (some a) none = refl
same_option-sym (some a) (some b) = ground arith

same_option_refl : (a : Option ℕ) → same_option a a ≡ true
same_option_refl none = refl
same_option_refl (some a) = ground arith

pub is_charge_self :
    {F : Type 0} (c : Charge F) → is_charge c.owner c.credential c.period_start c ≡ true
is_charge_self c = ground (arith, same_option_refl c.credential)

module _ {F : Type 0} where
  -- No two rows share an owner, a credential and a period start.
  abbrev pub HasUniqueKeys : List (Charge F) → Type 0
  HasUniqueKeys [] = Unit
  HasUniqueKeys (c ∷ cs) =
      (find_charge c.owner c.credential c.period_start cs ≡ none) × HasUniqueKeys cs

  pub find-append :
      (owner : ℕ) (credential : Option ℕ) (start : ℕ) (cs : List (Charge F)) (x : Charge F)
      → find_charge owner credential start cs ≡ none
      → find_charge owner credential start (cs ++ x ∷ [])
        ≡ (if is_charge owner credential start x then some x else none)
  unfolding find_charge
  find-append owner credential start [] x h = refl
  find-append owner credential start (c ∷ cs) x h =
      elim (Bool-cases (is_charge owner credential start c)) [
        | inl hit ↦ let h' = rw hit at h in cc
        | inr miss ↦ rw miss (find-append owner credential start cs x (rw miss at h))
      ]

  -- Another key is not found in a table where the new key was not.
  other_key :
      (c x : Charge F)
      → is_charge x.owner x.credential x.period_start c ≡ false
      → is_charge c.owner c.credential c.period_start x ≡ false
  other_key c x h = ground (arith, same_option-sym c.credential x.credential)

  append-HasUniqueKeys :
      (cs : List (Charge F)) (x : Charge F)
      → find_charge x.owner x.credential x.period_start cs ≡ none
      → HasUniqueKeys cs
      → HasUniqueKeys (cs ++ x ∷ [])
  unfolding find_charge
  append-HasUniqueKeys [] x h u = (refl, tt)
  append-HasUniqueKeys (c ∷ cs) x h u =
      elim (Bool-cases (is_charge x.owner x.credential x.period_start c)) [
        | inl hit ↦ let h' = rw hit at h in cc
        | inr miss ↦ (
          find-append c.owner c.credential c.period_start cs x u.0 ∙ rw (other_key c x miss),
          append-HasUniqueKeys cs x (rw miss at h) u.1,
        )
      ]

  pub find-fill_none :
      (owner : ℕ) (credential : Option ℕ) (start id now : ℕ) (n : Normalized F)
      (cs : List (Charge F))
      → find_charge owner credential start cs ≡ none
      → find_charge owner credential start (update_charge id (fill_charge now n) cs) ≡ none
  unfolding find_charge update_charge fill_charge
  find-fill_none owner credential start id now n [] h = refl
  find-fill_none owner credential start id now n (c ∷ cs) h =
      ground (arith, find-fill_none owner credential start id now n cs)

  pub find-fill :
      (owner : ℕ) (credential : Option ℕ) (start now : ℕ) (n : Normalized F) (row : Charge F)
      (cs : List (Charge F))
      → find_charge owner credential start cs ≡ some row
      → find_charge owner credential start (update_charge row.id (fill_charge now n) cs)
        ≡ some (fill_charge now n row)
  unfolding find_charge update_charge fill_charge
  find-fill owner credential start now n row [] h = cc
  find-fill owner credential start now n row (c ∷ cs) h =
      ground (arith, find-fill owner credential start now n row cs)

  fill-HasUniqueKeys :
      (id now : ℕ) (n : Normalized F) (cs : List (Charge F))
      → HasUniqueKeys cs
      → HasUniqueKeys (update_charge id (fill_charge now n) cs)
  unfolding update_charge fill_charge
  fill-HasUniqueKeys id now n [] u = tt
  fill-HasUniqueKeys id now n (c ∷ cs) u =
      let absent = find-fill_none c.owner c.credential c.period_start id now n cs u.0 in
      elim (Bool-cases (c.id == id)) [
        | inl hit ↦ rw hit (absent, fill-HasUniqueKeys id now n cs u.1)
        | inr miss ↦ rw miss (absent, fill-HasUniqueKeys id now n cs u.1)
      ]

  ids_below_next : (cs : List (Charge F)) → All (λ (c : Charge F). c.id < next_id cs) cs
  unfolding next_id
  ids_below_next [] = tt
  ids_below_next (c ∷ cs) = (
    omega arith,
    All-map {P = λ (d : Charge F). d.id < next_id cs}
        {Q = λ (d : Charge F). d.id < max (suc c.id) (next_id cs)} (λ d h. omega arith) cs
        (ids_below_next cs),
  )

  append-HasUniqueIds :
      (cs : List (Charge F)) (x : Charge F)
      → All (λ (c : Charge F). c.id < x.id) cs
      → HasUniqueIds cs
      → HasUniqueIds (cs ++ x ∷ [])
  append-HasUniqueIds [] x h u = (tt, tt)
  append-HasUniqueIds (c ∷ cs) x h u = (
    All-append (λ (d : Charge F). (d.id == c.id) ≡ false) cs (x ∷ []) u.0 (ground arith, tt),
    append-HasUniqueIds cs x h.1 u.1,
  )

  fill-All_id :
      (k id now : ℕ) (n : Normalized F) (cs : List (Charge F))
      → All (λ (d : Charge F). (d.id == k) ≡ false) cs
      → All (λ (d : Charge F). (d.id == k) ≡ false) (update_charge id (fill_charge now n) cs)
  unfolding update_charge fill_charge
  fill-All_id k id now n [] h = tt
  fill-All_id k id now n (c ∷ cs) h = elim (Bool-cases (c.id == id)) [
    | inl hit ↦ rw hit (h.0, fill-All_id k id now n cs h.1)
    | inr miss ↦ rw miss (h.0, fill-All_id k id now n cs h.1)
  ]

  fill-HasUniqueIds :
      (id now : ℕ) (n : Normalized F) (cs : List (Charge F))
      → HasUniqueIds cs
      → HasUniqueIds (update_charge id (fill_charge now n) cs)
  unfolding update_charge fill_charge
  fill-HasUniqueIds id now n [] u = tt
  fill-HasUniqueIds id now n (c ∷ cs) u = elim (Bool-cases (c.id == id)) [
    | inl hit ↦ rw hit (fill-All_id c.id id now n cs u.0, fill-HasUniqueIds id now n cs u.1)
    | inr miss ↦ rw miss (fill-All_id c.id id now n cs u.0, fill-HasUniqueIds id now n cs u.1)
  ]

  -- The table's primary key and its unique index.
  pub record IsTable (cs : List (Charge F)) : Type 0 where
    pub ids : HasUniqueIds cs
    pub keys : HasUniqueKeys cs

  insert_charge-IsTable :
      (p : Pricing F) (s : Stream) (now : ℕ) (period : ℕ × ℕ) (st : Progress F)
      → find_charge s.owner s.credential period.0 st.charges ≡ none
      → IsTable st.charges
      → IsTable (insert_charge p s now period st).charges
  unfolding insert_charge
  insert_charge-IsTable p s now period st absent t = record {
    ids = append-HasUniqueIds st.charges _ (ids_below_next st.charges) t.ids;
    keys = append-HasUniqueKeys st.charges _ absent t.keys;
  }

  complete_charge-IsTable :
      (now : ℕ) (row : Charge F) (n : Normalized F) (st : Progress F)
      → IsTable st.charges
      → IsTable (complete_charge now row n st).charges
  unfolding complete_charge
  complete_charge-IsTable now row n st t = elim (Bool-cases n.can_finalize) [
    | inl ready ↦ rw ready (record {
      ids = fill-HasUniqueIds row.id now n st.charges t.ids;
      keys = fill-HasUniqueKeys row.id now n st.charges t.keys;
    })
    | inr pending ↦ rw pending t
  ]

  -- A billing step never gives a period a second row: ids and the key of owner, credential and
  -- period start stay unique.
  pub bill_period-IsTable :
      (p : Pricing F) (s : Stream) (now : ℕ) (period : ℕ × ℕ) (st : Progress F)
      → IsTable st.charges
      → IsTable (bill_period p s now period st).charges
  bill_period-IsTable p s now period st t =
      elim (Option-cases (find_charge s.owner s.credential period.0 st.charges)) [
        | inl absent ↦
            rw (bill_period-absent p s now period st absent)
              (insert_charge-IsTable p s now period st absent t)
        | inr (row, found) ↦ elim (Option-cases row.finalized) [
          | inl open_row ↦
              rw (bill_period-open p s now period st row found open_row)
                (complete_charge-IsTable now row _ st t)
          | inr (date, frozen) ↦ rw (bill_period-frozen p s now period st row date found frozen) t
        ]
      ]
