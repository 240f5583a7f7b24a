-- ===== src/Billing/Stream/Frozen.antt =====
-- No billing step rewrites what an older step has recorded.
use token_board.Base.{
  ℕ, ◌≡◌, ◌≢◌, refl, sym, ap, ◌∙◌, All, All-map, inl, inr, true, false, Option, none, some, List,
  [], ◌∷◌, ◌++◌, arith, ◌==◌, Bool-cases, Option-cases,
}
use mathlib.Core.Path.{subst}
use mathlib.Core.Option.{some-injective}
use token_board.Billing.{Charge, find_charge, is_charge}
use token_board.Billing.Rates.{Normalized}
use token_board.Billing.Stream.{
  Pricing, Stream, Progress, fill_charge, update_charge, insert_charge, complete_charge,
  bill_period,
}
use token_board.Billing.Stream.Rounds.{bill_period-absent, bill_period-open, bill_period-frozen}

module _ {F : Type 0} where
  -- A row later on: its key, period, price and currency are the same, and so are its cost, rate date
  -- and freezing date once it is frozen.
  pub record Kept (c d : Charge F) : Type 0 where
    pub same_id : d.id ≡ c.id
    pub same_owner : d.owner ≡ c.owner
    pub same_credential : d.credential ≡ c.credential
    pub same_start : d.period_start ≡ c.period_start
    pub same_end : d.period_end ≡ c.period_end
    pub same_price : d.recurring_charge ≡ c.recurring_charge
    pub same_currency : d.currency ≡ c.currency
    pub frozen_cost : c.finalized ≢ none → d.normalized ≡ c.normalized
    pub frozen_rate : c.finalized ≢ none → d.fx_rate_date ≡ c.fx_rate_date
    pub frozen_date : c.finalized ≢ none → d.finalized ≡ c.finalized

  -- Row by row, and the new rows behind the old ones.
  abbrev pub AllKept : List (Charge F) → List (Charge F) → Type 0
  AllKept [] ds = Unit
  AllKept (c ∷ cs) [] = ⊥
  AllKept (c ∷ cs) (d ∷ ds) = Kept c d × AllKept cs ds

  pub Kept-refl : (c : Charge F) → Kept c c
  Kept-refl c = record {
    same_id = refl;
    same_owner = refl;
    same_credential = refl;
    same_start = refl;
    same_end = refl;
    same_price = refl;
    same_currency = refl;
    frozen_cost = λ _. refl;
    frozen_rate = λ _. refl;
    frozen_date = λ _. refl;
  }

  pub AllKept-append : (cs ds : List (Charge F)) → AllKept cs (cs ++ ds)
  AllKept-append [] ds = tt
  AllKept-append (c ∷ cs) ds = (Kept-refl c, AllKept-append cs ds)

  pub AllKept-refl : (cs : List (Charge F)) → AllKept cs cs
  AllKept-refl [] = tt
  AllKept-refl (c ∷ cs) = (Kept-refl c, AllKept-refl cs)

  still_frozen : (c d : Charge F) → Kept c d → c.finalized ≢ none → d.finalized ≢ none
  still_frozen c d h f e = f (sym (h.frozen_date f) ∙ e)

  Kept-trans : (c d e : Charge F) → Kept c d → Kept d e → Kept c e
  Kept-trans c d e h k = record {
    same_id = k.same_id ∙ h.same_id;
    same_owner = k.same_owner ∙ h.same_owner;
    same_credential = k.same_credential ∙ h.same_credential;
    same_start = k.same_start ∙ h.same_start;
    same_end = k.same_end ∙ h.same_end;
    same_price = k.same_price ∙ h.same_price;
    same_currency = k.same_currency ∙ h.same_currency;
    frozen_cost = λ f. k.frozen_cost (still_frozen c d h f) ∙ h.frozen_cost f;
    frozen_rate = λ f. k.frozen_rate (still_frozen c d h f) ∙ h.frozen_rate f;
    frozen_date = λ f. k.frozen_date (still_frozen c d h f) ∙ h.frozen_date f;
  }

  pub AllKept-trans : (cs ds es : List (Charge F)) → AllKept cs ds → AllKept ds es → AllKept cs es
  AllKept-trans [] ds es h k = tt
  AllKept-trans (c ∷ cs) [] es h k = absurd h
  AllKept-trans (c ∷ cs) (d ∷ ds) [] h k = absurd k
  AllKept-trans (c ∷ cs) (d ∷ ds) (e ∷ es) h k =
      (Kept-trans c d e h.0 k.0, AllKept-trans cs ds es h.1 k.1)

  -- Each id is that of one row.
  abbrev pub HasUniqueIds : List (Charge F) → Type 0
  HasUniqueIds [] = Unit
  HasUniqueIds (c ∷ cs) = All (λ (d : Charge F). (d.id == c.id) ≡ false) cs × HasUniqueIds cs

  -- An UPDATE by id that keeps every row with the id.
  update_charge-AllKept :
      (id : ℕ) (f : Charge F → Charge F) (cs : List (Charge F))
      → All (λ (c : Charge F). (c.id == id) ≡ true → Kept c (f c)) cs
      → AllKept cs (update_charge id f cs)
  unfolding update_charge
  update_charge-AllKept id f [] h = tt
  update_charge-AllKept id f (c ∷ cs) h = elim (Bool-cases (c.id == id)) [
    | inl hit ↦ rw hit (h.0 hit, update_charge-AllKept id f cs h.1)
    | inr miss ↦ rw miss (Kept-refl c, update_charge-AllKept id f cs h.1)
  ]

  -- A row that is open when it is filled in loses nothing.
  fill_charge-Kept :
      (now : ℕ) (n : Normalized F) (c : Charge F)
      → c.finalized ≡ none
      → Kept c (fill_charge now n c)
  unfolding fill_charge
  fill_charge-Kept now n c open_row = record {
    same_id = refl;
    same_owner = refl;
    same_credential = refl;
    same_start = refl;
    same_end = refl;
    same_price = refl;
    same_currency = refl;
    frozen_cost = λ f. absurd (f open_row);
    frozen_rate = λ f. absurd (f open_row);
    frozen_date = λ f. absurd (f open_row);
  }

  -- What holds of all rows holds of a row that was found.
  pub find_charge-All :
      (P : Charge F → Type 0) (owner : ℕ) (credential : Option ℕ) (start : ℕ) (cs : List (Charge F))
      {row : Charge F}
      → All P cs
      → find_charge owner credential start cs ≡ some row
      → P row
  unfolding find_charge
  find_charge-All P owner credential start [] a h = cc
  find_charge-All P owner credential start (c ∷ cs) {row} a h =
      elim (Bool-cases (is_charge owner credential start c)) [
        | inl hit ↦ subst P (some-injective _ _ (rw hit at h)) a.0
        | inr miss ↦ find_charge-All P owner credential start cs {row = row} a.1 (rw miss at h)
      ]

  -- With unique ids, no frozen row shares the id of an open row that was found.
  abbrev IsOpenAt : List (Charge F) → Charge F → Type 0
  IsOpenAt cs row = All (λ (c : Charge F). (c.id == row.id) ≡ true → c.finalized ≡ none) cs

  found_row :
      (owner : ℕ) (credential : Option ℕ) (start : ℕ) (cs : List (Charge F)) {row : Charge F}
      → HasUniqueIds cs
      → find_charge owner credential start cs ≡ some row
      → row.finalized ≡ none
      → IsOpenAt cs row
  unfolding find_charge
  found_row owner credential start [] u h f = tt
  found_row owner credential start (c ∷ cs) {row} u h f =
      elim (Bool-cases (is_charge owner credential start c)) [
        | inl hit ↦
            let e : c ≡ row = some-injective _ _ (rw hit at h) in
            subst (IsOpenAt (c ∷ cs)) {x = c} e (
              (λ _. ap (λ (r : Charge F). r.finalized) e ∙ f),
              All-map {P = λ (d : Charge F). (d.id == c.id) ≡ false}
                  {Q = λ (d : Charge F). (d.id == c.id) ≡ true → d.finalized ≡ none} (λ d k l. cc)
                  cs u.0,
            )
        | inr miss ↦
            let found = rw miss at h in
            let other =
              find_charge-All (λ d. (d.id == c.id) ≡ false) owner credential start cs {row = row}
                u.0 found in
            (
              (λ e. absurd (ground arith)),
              found_row owner credential start cs {row = row} u.1 found f,
            )
      ]

  complete_charge-AllKept :
      (s : Stream) (start now : ℕ) (row : Charge F) (n : Normalized F) (st : Progress F)
      → HasUniqueIds st.charges
      → find_charge s.owner s.credential start st.charges ≡ some row
      → row.finalized ≡ none
      → AllKept st.charges (complete_charge now row n st).charges
  unfolding complete_charge
  complete_charge-AllKept s start now row n st u h f = elim (Bool-cases n.can_finalize) [
    | inl ready ↦ rw ready (
        update_charge-AllKept row.id (fill_charge now n) st.charges (
          All-map {P = λ (c : Charge F). (c.id == row.id) ≡ true → c.finalized ≡ none}
            {Q = λ (c : Charge F). (c.id == row.id) ≡ true → Kept c (fill_charge now n c)}
            (λ c k l. fill_charge-Kept now n c (k l)) st.charges
            (found_row s.owner s.credential start st.charges u h f)))
    | inr pending ↦ rw pending (AllKept-refl st.charges)
  ]

  insert_charge-AllKept :
      (p : Pricing F) (s : Stream) (now : ℕ) (period : ℕ × ℕ) (st : Progress F)
      → AllKept st.charges (insert_charge p s now period st).charges
  unfolding insert_charge
  insert_charge-AllKept p s now period st = AllKept-append st.charges _

  -- One round of the billing loop keeps every recorded row: no key, price or currency changes, no
  -- frozen row changes at all, and new rows only stand behind the old ones.
  pub bill_period-AllKept :
      (p : Pricing F) (s : Stream) (now : ℕ) (period : ℕ × ℕ) (st : Progress F)
      → HasUniqueIds st.charges
      → AllKept st.charges (bill_period p s now period st).charges
  bill_period-AllKept p s now period st u =
      elim (Option-cases (find_charge s.owner s.credential period.0 st.charges)) [
        | inl absent ↦
            rw (bill_period-absent p s now period st absent)
              (insert_charge-AllKept p s now period st)
        | inr (row, found) ↦ elim (Option-cases row.finalized) [
          | inl open_row ↦
              rw (bill_period-open p s now period st row found open_row)
                (complete_charge-AllKept s period.0 now row _ st u found open_row)
          | inr (date, frozen) ↦
              rw (bill_period-frozen p s now period st row date found frozen)
                (AllKept-refl st.charges)
        ]
      ]
