-- ===== src/Deletion/Rows.antt =====
-- What a deletion leaves of one table.
use token_board.Base.{
  ℕ, ◌≡◌, refl, Bool, true, false, ◌&&◌, ◌||◌, List, [], ◌∷◌, map, ◌==◌, Bool-cases, arith, inl,
  inr,
}
use token_board.Deletion.{Row, is_in, is_owned, is_credential_of, delete_where, holds}

abbrev pub has_row : ℕ → List Row → Bool
has_row x [] = false
has_row x (r ∷ rs) = (r.id == x) || has_row x rs

-- All rows pass a test.
abbrev pub all_pass {ℓ} : {A : Type ℓ} → (A → Bool) → List A → Bool
all_pass test [] = true
all_pass test (x ∷ xs) = test x && all_pass test xs

-- The rows that a deletion leaves pass what the rows passed and the deletion implies.
pub all_pass-delete {ℓ} :
    {A : Type ℓ} (gone test then_test : A → Bool) (xs : List A)
    → ((x : A) → gone x ≡ false → test x ≡ true → then_test x ≡ true)
    → all_pass test xs ≡ true
    → all_pass then_test (delete_where gone xs) ≡ true
unfolding delete_where
all_pass-delete gone test then_test [] h k = refl
all_pass-delete gone test then_test (x ∷ xs) h k =
    let rest = all_pass-delete gone test then_test xs h (ground arith) in
    elim (Bool-cases (gone x)) [
      | inl out ↦ rw out rest
      | inr stays ↦ let good = h x stays (ground arith) in rw stays (ground arith)
    ]

pub all_pass-map {ℓ κ} :
    {A : Type ℓ} {B : Type κ} (f : A → B) (test : A → Bool) (then_test : B → Bool) (xs : List A)
    → ((x : A) → test x ≡ true → then_test (f x) ≡ true)
    → all_pass test xs ≡ true
    → all_pass then_test (map f xs) ≡ true
all_pass-map f test then_test [] h k = refl
all_pass-map f test then_test (x ∷ xs) h k =
    let good = h x (ground arith) in
    let rest = all_pass-map f test then_test xs h (ground arith) in ground arith

-- A row stays where none with its id is deleted.
pub has_row-delete :
    (gone : Row → Bool) (x : ℕ) (rs : List Row)
    → ((r : Row) → r.id ≡ x → gone r ≡ false)
    → has_row x (delete_where gone rs) ≡ has_row x rs
unfolding delete_where
has_row-delete gone x [] h = refl
has_row-delete gone x (r ∷ rs) h =
    let rest = has_row-delete gone x rs h in
    elim (Bool-cases (r.id == x)) [
      | inl same ↦ rw (h r (ground arith)) (ground arith)
      | inr other ↦ elim (Bool-cases (gone r)) [
        | inl out ↦ rw out (ground arith)
        | inr stays ↦ rw stays (ground arith)
      ]
    ]

-- The rows that stay, when the rows of an owner go.
pub has_row-is_owned :
    (owner x : ℕ) (rs : List Row)
    → is_owned owner x rs ≡ false
    → has_row x rs ≡ true
    → has_row x (delete_where (λ (r : Row). holds (λ p. p == owner) r.parent) rs) ≡ true
unfolding delete_where
has_row-is_owned owner x [] h k = k
has_row-is_owned owner x (r ∷ rs) h k = ground (arith, has_row-is_owned owner x rs)

pub has_row-is_credential_of :
    (account x : ℕ) (us cs : List Row)
    → is_credential_of account x us cs ≡ false
    → has_row x cs ≡ true
    → has_row x (delete_where (λ (c : Row). holds (λ u. is_owned account u us) c.parent) cs) ≡ true
unfolding delete_where
has_row-is_credential_of account x us [] h k = k
has_row-is_credential_of account x us (c ∷ cs) h k =
    ground (arith, has_row-is_credential_of account x us cs)

pub is_in-delete :
    (account x : ℕ) (is : List ℕ)
    → (x == account) ≡ false
    → is_in x is ≡ true
    → is_in x (delete_where (λ a. a == account) is) ≡ true
unfolding delete_where
is_in-delete account x [] h k = k
is_in-delete account x (i ∷ is) h k = ground (arith, is_in-delete account x is)

pub is_in-deleted :
    (account : ℕ) (is : List ℕ) → is_in account (delete_where (λ a. a == account) is) ≡ false
unfolding delete_where
is_in-deleted account [] = refl
is_in-deleted account (i ∷ is) = ground (arith, is_in-deleted account is)
