-- ===== src/Base/Sorting/Laws.antt =====
-- What a sorted list is, and that a filter goes through the sort.
use bookie_breaker_bookie_em.Base.{
  ◌+◌, ◌≡◌, refl, sym, ap, ◌∙◌, ◌⊎◌, inl, inr, Bool, true, false, ◌&&◌, List, [], ◌∷◌, filter,
  length, count, All, All-filter, if◌then◌else◌, Bool-cases, arith,
}
use bookie_breaker_bookie_em.Base.Sorting.{
  insert_by, sort_by, IsOrdered, IsUntied, IsStrict, IsOrder,
}

module _ {ℓ κ} {A : Type ℓ} (before : A → A → Bool) (P : A → Type κ) where
  pub All-insert_by : (x : A) (ys : List A) → P x → All P ys → All P (insert_by before x ys)
  unfolding insert_by
  All-insert_by x [] px h = (px, tt)
  All-insert_by x (y ∷ ys) px (py, h) =
      elim (before x y) as (λ b. All P (if b then x ∷ y ∷ ys else y ∷ insert_by before x ys)) [
        | true ↦ (px, (py, h))
        | false ↦ (py, All-insert_by x ys px h)
      ]

  pub All-sort_by : (xs : List A) → All P xs → All P (sort_by before xs)
  unfolding sort_by
  All-sort_by [] h = tt
  All-sort_by (x ∷ xs) (px, h) = All-insert_by x (sort_by before xs) px (All-sort_by xs h)

module _ {ℓ} {A : Type ℓ} (before : A → A → Bool) where
  pub count-insert_by :
      (p : A → Bool) (x : A) (ys : List A) → count p (insert_by before x ys) ≡ count p (x ∷ ys)
  unfolding insert_by
  count-insert_by p x [] = refl
  count-insert_by p x (y ∷ ys) = ground (arith, count-insert_by p x ys)

  -- A sort neither loses nor invents an element.
  pub count-sort_by : (p : A → Bool) (xs : List A) → count p (sort_by before xs) ≡ count p xs
  unfolding sort_by
  count-sort_by p [] = refl
  count-sort_by p (x ∷ xs) =
      ground (arith, count-insert_by p x (sort_by before xs), count-sort_by p xs)

  pub length-insert_by : (x : A) (ys : List A) → length (insert_by before x ys) ≡ length ys + 1
  unfolding insert_by
  length-insert_by x [] = omega arith
  length-insert_by x (y ∷ ys) = ground (arith, length-insert_by x ys)

  pub length-sort_by : (xs : List A) → length (sort_by before xs) ≡ length xs
  unfolding sort_by
  length-sort_by [] = refl
  length-sort_by (x ∷ xs) = omega (arith, length-insert_by x (sort_by before xs), length-sort_by xs)

  -- An element that may stand before all others comes first.
  insert_by_first :
      (x : A) (ys : List A) → All (λ y. before x y ≡ true) ys → insert_by before x ys ≡ x ∷ ys
  unfolding insert_by
  insert_by_first x [] h = refl
  insert_by_first x (y ∷ ys) (e, h) = rw e refl

module _ {ℓ} {A : Type ℓ} {before : A → A → Bool} (order : IsOrder before) where
  All-before :
      (x y : A) (ys : List A)
      → before x y ≡ true
      → All (λ z. before y z ≡ true) ys
      → All (λ z. before x z ≡ true) ys
  All-before x y [] e h = tt
  All-before x y (z ∷ ys) e (f, h) = (order.trans x y z e f, All-before x y ys e h)

  insert_by-IsOrdered :
      (x : A) (ys : List A) → IsOrdered before ys → IsOrdered before (insert_by before x ys)
  unfolding insert_by
  insert_by-IsOrdered x [] h = (tt, tt)
  insert_by-IsOrdered x (y ∷ ys) (first, h) = elim (Bool-cases (before x y)) [
    | inl e ↦ rw e (((e, All-before x y ys e first), (first, h)))
    | inr e ↦ rw e (
      All-insert_by before (λ z. before y z ≡ true) x ys (order.total x y e) first,
      insert_by-IsOrdered x ys h,
    )
  ]

  pub sort_by-IsOrdered : (xs : List A) → IsOrdered before (sort_by before xs)
  unfolding sort_by
  sort_by-IsOrdered [] = tt
  sort_by-IsOrdered (x ∷ xs) = insert_by-IsOrdered x (sort_by before xs) (sort_by-IsOrdered xs)

  filter-insert_by :
      (p : A → Bool) (x : A) (ys : List A)
      → IsOrdered before ys
      → filter p (insert_by before x ys)
        ≡ (if p x then insert_by before x (filter p ys) else filter p ys)
  unfolding insert_by
  filter-insert_by p x [] h = refl
  filter-insert_by p x (y ∷ ys) (first, h) = elim (Bool-cases (before x y)) [
    | inl e ↦ rw e (ap (λ r. if p x then r else filter p (y ∷ ys)) (sym (leading e)))
    | inr e ↦ rw e (later e (p y) (p x) (filter-insert_by p x ys h))
  ]
    where
      leading : before x y ≡ true → insert_by before x (filter p (y ∷ ys)) ≡ x ∷ filter p (y ∷ ys)
      leading e =
          insert_by_first before x (filter p (y ∷ ys))
            (All-filter (λ z. before x z ≡ true) p (y ∷ ys) (e, All-before x y ys e first))

      later :
          before x y ≡ false
          → (b c : Bool)
          → filter p (insert_by before x ys)
            ≡ (if c then insert_by before x (filter p ys) else filter p ys)
          → (if b then y ∷ filter p (insert_by before x ys) else filter p (insert_by before x ys))
            ≡ (if c
                then insert_by before x (if b then y ∷ filter p ys else filter p ys)
                else if b
                then y ∷ filter p ys
                else filter p ys)
      later e true true ih = rw e (ap (λ r. y ∷ r) ih)
      later e true false ih = ap (λ r. y ∷ r) ih
      later e false true ih = ih
      later e false false ih = ih

  -- A filter of a sorted list is the sort of the filtered list.
  pub filter-sort_by :
      (p : A → Bool) (xs : List A) → filter p (sort_by before xs) ≡ sort_by before (filter p xs)
  unfolding sort_by
  filter-sort_by p [] = refl
  filter-sort_by p (x ∷ xs) = elim (Bool-cases (p x)) [
    | inl e ↦
        filter-insert_by p x (sort_by before xs) (sort_by-IsOrdered xs)
        ∙ rw e (ap (insert_by before x) (filter-sort_by p xs))
    | inr e ↦
        filter-insert_by p x (sort_by before xs) (sort_by-IsOrdered xs) ∙ rw e (filter-sort_by p xs)
  ]

  All-strict :
      (x y : A) (ys : List A)
      → before x y ≡ true
      → All (λ z. before z y ≡ false) ys
      → All (λ z. before z x ≡ false) ys
  All-strict x y [] e h = tt
  All-strict x y (z ∷ ys) e (f, h) = (later (Bool-cases (before z x)), All-strict x y ys e h)
    where
      later : (before z x ≡ true) ⊎ (before z x ≡ false) → before z x ≡ false
      later (inl g) = cc (order.trans z x y g e)
      later (inr g) = g

  insert_by-IsStrict :
      (x : A) (ys : List A)
      → All (λ y. (before x y && before y x) ≡ false) ys
      → IsStrict before ys
      → IsStrict before (insert_by before x ys)
  unfolding insert_by
  insert_by-IsStrict x [] u h = (tt, tt)
  insert_by-IsStrict x (y ∷ ys) (untied, u) (first, h) = elim (Bool-cases (before x y)) [
    | inl e ↦ rw e (((rw e at untied, All-strict x y ys e first), (first, h)))
    | inr e ↦
        rw e
          (All-insert_by before (λ z. before z y ≡ false) x ys e first, insert_by-IsStrict x ys u h)
  ]

  -- Without ties, the sorted list is strict.
  pub sort_by-IsStrict : (xs : List A) → IsUntied before xs → IsStrict before (sort_by before xs)
  unfolding sort_by
  sort_by-IsStrict [] u = tt
  sort_by-IsStrict (x ∷ xs) (untied, u) =
      insert_by-IsStrict x (sort_by before xs)
        (All-sort_by before (λ y. (before x y && before y x) ≡ false) xs untied)
        (sort_by-IsStrict xs u)
