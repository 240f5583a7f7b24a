-- ===== src/Base/Results.antt =====
-- A Python call that may raise: its value, or the exception's class.
use mathlib.Core.Path.{◌≡◌, refl}

pub data Exception : Type 0 where
  value_error type_error attribute_error overflow_error integrity_error upgrade_error cancelled :
      Exception

pub data Result {ℓ} (A : Type ℓ) : Type ℓ where
  err : Exception → Result A
  ok : A → Result A

-- The value of a call that returned.
pub ok-injective {ℓ} : {A : Type ℓ} {x y : A} → ok x ≡ ok y → x ≡ y
ok-injective same = cc

-- The calls of one block, in order, up to the first that raises.
module _ {ℓ κ} {A : Type ℓ} {B : Type κ} where
  infixl 5 ◌>>=◌ ◌>>◌
  abbrev pub ◌>>=◌ : Result A → (A → Result B) → Result B
  call >>= next = elim call [ err raised ↦ err raised | ok value ↦ next value ]

  abbrev pub ◌>>◌ : Result A → Result B → Result B
  call >> next = elim call [ err raised ↦ err raised | ok _ ↦ next ]

  -- A block that returns has both of its calls return.
  pub >>=-returns :
      (call : Result A) (next : A → Result B) {result : B}
      → (call >>= next) ≡ ok result
      → (value : A) × (call ≡ ok value) × (next value ≡ ok result)
  >>=-returns (err raised) next returned = cc
  >>=-returns (ok value) next returned = (value, refl, returned)
