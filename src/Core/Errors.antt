-- ===== src/Core/Errors.antt =====
-- Exceptions as values: the classes of api/errors.py and Python's ValueError. The text of a message
-- is not kept.
use bookie_breaker_bookie_em.Base.{◌≡◌, refl, ap, Bool, true, false}

pub data Error : Type 0 where
  value_error : Error
  -- pydantic's, of a request
  validation_error : Error
  invalid_parameter not_found duplicate_resource unprocessable : Error
  dependency dependency_timeout : Error
  -- any other exception: a database or transport failure
  unexpected : Error

pub data Result {ℓ} (A : Type ℓ) : Type ℓ where
  ok : A → Result A
  err : Error → Result A

abbrev pub IsOk {ℓ} : {A : Type ℓ} → Result A → Type 0
IsOk (ok a) = Unit
IsOk (err e) = ⊥

-- `if test: raise e`
abbrev pub raise_if : Bool → Error → Result (Unit {0})
raise_if true e = err e
raise_if false e = ok tt

module _ {ℓ} {A : Type ℓ} where
  pub ok-injective : {a b : A} → ok a ≡ ok b → a ≡ b
  ok-injective {a} h = ap (from a) h
    where
      from : A → Result A → A
      from d (ok x) = x
      from d (err e) = d

infixl 5 ◌>>=◌ ◌>>◌
-- An exception ends the chain.
abbrev pub ◌>>=◌ {ℓ κ} : {A : Type ℓ} {B : Type κ} → Result A → (A → Result B) → Result B
err raised >>= k = err raised
ok a >>= k = k a

module _ {ℓ κ} {A : Type ℓ} {B : Type κ} where
  -- Inversion of a chain that ends with a result.
  pub >>=-eq-ok :
      (m : Result A) (k : A → Result B) {last : B}
      → (m >>= k) ≡ ok last
      → (a : A) × (m ≡ ok a) × (k a ≡ ok last)
  >>=-eq-ok (err raised) k h = cc
  >>=-eq-ok (ok a) k h = (a, refl, h)

abbrev pub ◌>>◌ {ℓ} : {B : Type ℓ} → Result (Unit {0}) → Result B → Result B
checked >> rest = checked >>= λ _. rest
