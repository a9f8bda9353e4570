-- ===== src/Base/Dict.antt =====
-- Python's dict with texts for keys: the keys keep the order of their insertion, and an assignment to
-- a key that is there replaces its value.
use bookie_breaker_bookie_em.Base.{
  ◌+◌, ◌≤◌, ◌≡◌, refl, sym, ap, ◌∙◌, ◌⊎◌, inl, inr, Bool, true, false, Option, none, some, List, [],
  ◌∷◌, map, filter, length, All, last?, String, str_eq, eq_iff, if◌then◌else◌, Bool-cases, arith,
}

abbrev pub Dict : Type 0 → Type 0
Dict A = List (String × A)

module _ {A : Type 0} where
  -- `d[key] = x`
  unfoldable pub assign : String → A → Dict A → Dict A
  assign key x [] = (key, x) ∷ []
  assign key x (e ∷ es) = if str_eq e.0 key then (e.0, x) ∷ es else e ∷ assign key x es

  -- `for x in xs: d[key_of(x)] = x`
  unfoldable pub assign_all : (A → String) → List A → Dict A → Dict A
  unfolding assign
  assign_all key_of [] d = d
  assign_all key_of (x ∷ xs) d = assign_all key_of xs (assign (key_of x) x d)

  abbrev pub values : Dict A → List A
  values = map (λ e. e.1)

-- Equal texts are equal to the same texts.
pub str_eq_same : (a b c : String) → str_eq a b ≡ true → str_eq a c ≡ str_eq b c
str_eq_same a b c h = ap (λ x. str_eq x c) ((eq_iff a b).0 h)

pub str_eq_comm : (a b : String) → str_eq a b ≡ str_eq b a
str_eq_comm a b = ground (arith, eq_iff a b, eq_iff b a)

module _ {A : Type 0} where
  -- the values under a key
  abbrev pub under : String → Dict A → List A
  under key [] = []
  under key (e ∷ es) = if str_eq e.0 key then e.1 ∷ under key es else under key es

  -- one value at most under each key
  abbrev pub HasOne : Dict A → Type 0
  HasOne d = (j : String) → length (under j d) ≤ 1

  HasOne-tail : (e : String × A) (es : Dict A) → HasOne (e ∷ es) → HasOne es
  HasOne-tail e es h j = ground (arith, h j)

  emptied : (xs : List A) → length xs + 1 ≤ 1 → xs ≡ []
  emptied [] h = refl
  emptied (x ∷ xs) h = absurd (omega arith)

  -- An assignment puts the value under its key, and leaves the others.
  under-assign :
      (key k : String) (x : A) (d : Dict A)
      → HasOne d
      → under key (assign k x d) ≡ (if str_eq k key then x ∷ [] else under key d)
  unfolding assign
  under-assign key k x [] h = refl
  under-assign key k x (e ∷ es) h = elim (Bool-cases (str_eq e.0 k)) [
    | inl same ↦
        rw (same, sym (str_eq_same e.0 k key same)) (replaced (Bool-cases (str_eq e.0 key)))
    | inr other ↦
        rw other
          (later other (Bool-cases (str_eq e.0 key)) (under-assign key k x es (HasOne-tail e es h)))
  ]
    where
      replaced :
          (str_eq e.0 key ≡ true) ⊎ (str_eq e.0 key ≡ false)
          → (if str_eq e.0 key then x ∷ under key es else under key es)
            ≡ (if str_eq e.0 key then x ∷ [] else under key (e ∷ es))
      replaced (inl b) = rw b (ap (λ r. x ∷ r) (emptied (under key es) (ground (arith, h key, b))))
      replaced (inr b) = rw b refl

      later :
          str_eq e.0 k ≡ false
          → (str_eq e.0 key ≡ true) ⊎ (str_eq e.0 key ≡ false)
          → under key (assign k x es) ≡ (if str_eq k key then x ∷ [] else under key es)
          → (if str_eq e.0 key then e.1 ∷ under key (assign k x es) else under key (assign k x es))
            ≡ (if str_eq k key then x ∷ [] else under key (e ∷ es))
      later other (inr b) ih = rw b ih
      later other (inl b) ih =
          let apart : str_eq k key ≡ false =
            str_eq_comm k key ∙ sym (str_eq_same e.0 key k b) ∙ other in
          rw (b, apart) (ap (λ r. e.1 ∷ r) (ih ∙ rw apart refl))

  assign-HasOne : (k : String) (x : A) (d : Dict A) → HasOne d → HasOne (assign k x d)
  assign-HasOne k x d h j = elim (Bool-cases (str_eq k j)) [
    | inl e ↦ rw (under-assign j k x d h, e) (omega arith)
    | inr e ↦ rw (under-assign j k x d h, e) (h j)
  ]

  -- `[x]`, or `[]` for `None`
  abbrev pub list_of : Option A → List A
  list_of none = []
  list_of (some x) = x ∷ []

  abbrev or_kept : Option A → List A → List A
  or_kept none kept = kept
  or_kept (some x) kept = x ∷ []

  or_kept-last :
      (x : A) (xs kept : List A) → or_kept (last? xs) (x ∷ []) ≡ or_kept (last? (x ∷ xs)) kept
  or_kept-last x [] kept = refl
  or_kept-last x (y ∷ ys) kept = last_some y ys
    where
      last_some :
          (z : A) (zs : List A) → or_kept (last? (z ∷ zs)) (x ∷ []) ≡ or_kept (last? (z ∷ zs)) kept
      last_some z [] = refl
      last_some z (v ∷ zs) = last_some v zs

  -- A loop of assignments leaves the last element of each key under it.
  under-assign_all :
      (key_of : A → String) (key : String) (xs : List A) (d : Dict A)
      → HasOne d
      → under key (assign_all key_of xs d)
        ≡ or_kept (last? (filter (λ x. str_eq (key_of x) key) xs)) (under key d)
  unfolding assign_all
  under-assign_all key_of key [] d h = refl
  under-assign_all key_of key (x ∷ xs) d h =
      under-assign_all key_of key xs (assign (key_of x) x d) (assign-HasOne (key_of x) x d h)
      ∙ elim (Bool-cases (str_eq (key_of x) key)) [
        | inl e ↦
            rw (under-assign key (key_of x) x d h, e)
              (or_kept-last x (filter (λ y. str_eq (key_of y) key) xs) (under key d))
        | inr e ↦ rw (under-assign key (key_of x) x d h, e) refl
      ]

  -- Every value stands under its own key.
  abbrev IsKeyed : (A → String) → Dict A → Type 0
  IsKeyed key_of d = All (λ e. e.0 ≡ key_of e.1) d

  assign-IsKeyed :
      (key_of : A → String) (x : A) (d : Dict A)
      → IsKeyed key_of d
      → IsKeyed key_of (assign (key_of x) x d)
  unfolding assign
  assign-IsKeyed key_of x [] h = (refl, tt)
  assign-IsKeyed key_of x (e ∷ es) (own, h) =
      put (str_eq e.0 (key_of x)) ((eq_iff e.0 (key_of x)).0) (assign-IsKeyed key_of x es h)
    where
      put :
          (b : Bool)
          → (b ≡ true → e.0 ≡ key_of x)
          → IsKeyed key_of (assign (key_of x) x es)
          → IsKeyed key_of (if b then (e.0, x) ∷ es else e ∷ assign (key_of x) x es)
      put true same ih = (same refl, h)
      put false same ih = (own, ih)

  assign_all-IsKeyed :
      (key_of : A → String) (xs : List A) (d : Dict A)
      → IsKeyed key_of d
      → IsKeyed key_of (assign_all key_of xs d)
  unfolding assign_all
  assign_all-IsKeyed key_of [] d h = h
  assign_all-IsKeyed key_of (x ∷ xs) d h =
      assign_all-IsKeyed key_of xs (assign (key_of x) x d) (assign-IsKeyed key_of x d h)

  filter-values :
      (key_of : A → String) (key : String) (d : Dict A)
      → IsKeyed key_of d
      → filter (λ x. str_eq (key_of x) key) (values d) ≡ under key d
  filter-values key_of key [] h = refl
  filter-values key_of key (e ∷ es) (own, h) = rw (sym own, filter-values key_of key es h) refl

  -- Of the elements with one key, the values of the dict are the last one.
  pub values-assign_all :
      (key_of : A → String) (key : String) (xs : List A)
      → filter (λ x. str_eq (key_of x) key) (values (assign_all key_of xs []))
        ≡ list_of (last? (filter (λ x. str_eq (key_of x) key) xs))
  values-assign_all key_of key xs =
      filter-values key_of key (assign_all key_of xs []) (assign_all-IsKeyed key_of xs [] tt)
      ∙ under-assign_all key_of key xs [] (λ j. omega arith)
      ∙ from_none (last? (filter (λ x. str_eq (key_of x) key) xs))
    where
      from_none : (o : Option A) → or_kept o [] ≡ list_of o
      from_none none = refl
      from_none (some x) = refl
