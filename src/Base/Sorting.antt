-- ===== src/Base/Sorting.antt =====
-- Python's `sorted` and SQL's ORDER BY: a stable insertion sort by a test that tells whether one
-- element may stand before another.
pub mod Laws
use bookie_breaker_bookie_em.Base.{◌≡◌, Bool, true, false, ◌&&◌, List, [], ◌∷◌, All, if◌then◌else◌}

module _ {ℓ} {A : Type ℓ} (before : A → A → Bool) where
  unfoldable pub insert_by : A → List A → List A
  insert_by x [] = x ∷ []
  insert_by x (y ∷ ys) = if before x y then x ∷ y ∷ ys else y ∷ insert_by x ys

  unfoldable pub sort_by : List A → List A
  unfolding insert_by
  sort_by [] = []
  sort_by (x ∷ xs) = insert_by x (sort_by xs)

  -- Each element may stand before all later ones.
  abbrev pub IsOrdered : List A → Type ℓ
  IsOrdered [] = Unit
  IsOrdered (x ∷ xs) = All (λ y. before x y ≡ true) xs × IsOrdered xs

  -- No two elements may stand on either side of each other.
  abbrev pub IsUntied : List A → Type ℓ
  IsUntied [] = Unit
  IsUntied (x ∷ xs) = All (λ y. (before x y && before y x) ≡ false) xs × IsUntied xs

  -- No later element may stand before an earlier one.
  abbrev pub IsStrict : List A → Type ℓ
  IsStrict [] = Unit
  IsStrict (x ∷ xs) = All (λ y. before y x ≡ false) xs × IsStrict xs

-- A total preorder.
pub record IsOrder {ℓ} {A : Type ℓ} (before : A → A → Bool) : Type ℓ where
  pub trans : (x y z : A) → before x y ≡ true → before y z ≡ true → before x z ≡ true
  pub total : (x y : A) → before x y ≡ false → before y x ≡ true
