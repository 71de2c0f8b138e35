-- ===== src/Prelude/Errors.antt =====
-- Python exceptions as values. An exception carries the constant part of its message.
-- `recursion_error` says that the fuel of a model's recursion ran out.
use Prim.Native.String.{String}
use mathlib.Core.Path.{◌≡◌, refl}
use mathlib.Core.Logic.{◌⊎◌, inl, inr}

pub data Exception : Type 0 where
  value_error runtime_error type_error : String → Exception
  index_error struct_error key_error overflow_error recursion_error : Exception

-- What a call raises, or else returns.
pub data Result {ℓ} (A : Type ℓ) : Type ℓ where
  err : Exception → Result A
  ok : A → Result A

module _ {ℓ} {A : Type ℓ} where
  pub ok-injective : {x y : A} → ok x ≡ ok y → x ≡ y
  ok-injective same = cc

  pub Result-cases :
      (r : Result A) → ((x : A) × (r ≡ ok x)) ⊎ ((raised : Exception) × (r ≡ err raised))
  Result-cases (err raised) = inr (raised, refl)
  Result-cases (ok x) = inl (x, refl)

module _ {ℓ κ} {A : Type ℓ} {B : Type κ} where
  infixl 5 ◌>>=◌
  -- The first exception ends a block.
  abbrev pub ◌>>=◌ : Result A → (A → Result B) → Result B
  err raised >>= next = err raised
  ok x >>= next = next x

  -- A block that returned has a first part that returned.
  pub >>=-eq-ok :
      (first : Result A) (next : A → Result B) {y : B}
      → (first >>= next) ≡ ok y
      → (x : A) × (first ≡ ok x) × (next x ≡ ok y)
  >>=-eq-ok (err raised) next returned = cc
  >>=-eq-ok (ok x) next returned = (x, refl, returned)

module _ {κ} {B : Type κ} where
  infixl 5 ◌>>◌
  abbrev pub ◌>>◌ : Result (Unit {0}) → Result B → Result B
  check >> next = check >>= λ _. next
