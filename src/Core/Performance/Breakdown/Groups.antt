-- ===== src/Core/Performance/Breakdown/Groups.antt =====
-- compute_breakdown sorts every bet into exactly one group.
use bookie_breaker_bookie_em.Base.{
  ℕ, suc, ◌≤◌, ◌≡◌, refl, sym, ap, ◌∙◌, ◌⊎◌, inl, inr, Bool, true, false, List, [], ◌∷◌, ◌++◌,
  filter, any, count, append_assoc, append-nil, String, str_eq, if◌then◌else◌, Bool-cases, arith,
}
use bookie_breaker_bookie_em.Base.Dict.{str_eq_same, str_eq_comm}
use bookie_breaker_bookie_em.Core.Performance.Breakdown.{
  Groups, append_under, group_loop, keys, members_of,
}

module _ {A : Type 0} where
  members_of-append_under :
      (key k : String) (x : A) (gs : Groups A)
      → members_of key (append_under k x gs)
        ≡ (if str_eq k key then members_of key gs ++ x ∷ [] else members_of key gs)
  unfolding members_of append_under
  members_of-append_under key k x [] = refl
  members_of-append_under key k x (g ∷ gs) = elim (Bool-cases (str_eq g.0 k)) [
    | inl e ↦ rw (e, sym (str_eq_same g.0 k key e)) (at (str_eq g.0 key))
    | inr e ↦ rw (e, members_of-append_under key k x gs) (other e (Bool-cases (str_eq g.0 key)))
  ]
    where
      at :
          (b : Bool)
          → (if b then g.1 ++ x ∷ [] else members_of key gs) ≡ (
              if b
              then (if b then g.1 else members_of key gs) ++ x ∷ []
              else if b
              then g.1
              else members_of key gs)
      at true = refl
      at false = refl

      other :
          str_eq g.0 k ≡ false
          → (str_eq g.0 key ≡ true) ⊎ (str_eq g.0 key ≡ false)
          → (if str_eq g.0 key
              then g.1
              else if str_eq k key
              then members_of key gs ++ x ∷ []
              else members_of key gs)
            ≡ (if str_eq k key
                then (if str_eq g.0 key then g.1 else members_of key gs) ++ x ∷ []
                else if str_eq g.0 key
                then g.1
                else members_of key gs)
      other e (inl h) = rw (h, str_eq_comm k key ∙ sym (str_eq_same g.0 key k h) ∙ e) refl
      other e (inr h) = rw h refl

  -- A group holds the elements with its key, in their order.
  pub members_of-group_loop :
      (key_of : A → String) (key : String) (xs : List A) (gs : Groups A)
      → members_of key (group_loop key_of xs gs)
        ≡ members_of key gs ++ filter (λ x. str_eq (key_of x) key) xs
  unfolding group_loop
  members_of-group_loop key_of key [] gs = sym (append-nil (members_of key gs))
  members_of-group_loop key_of key (x ∷ xs) gs =
      members_of-group_loop key_of key xs (append_under (key_of x) x gs)
      ∙ ap (λ r. r ++ filter (λ y. str_eq (key_of y) key) xs)
          (members_of-append_under key (key_of x) x gs)
      ∙ appended (str_eq (key_of x) key)
    where
      appended :
          (b : Bool)
          → (if b then members_of key gs ++ x ∷ [] else members_of key gs)
              ++ filter (λ y. str_eq (key_of y) key) xs
            ≡ members_of key gs
              ++ (if b
                  then x ∷ filter (λ y. str_eq (key_of y) key) xs
                  else filter (λ y. str_eq (key_of y) key) xs)
      appended true =
          append_assoc (members_of key gs) (x ∷ []) (filter (λ y. str_eq (key_of y) key) xs)
      appended false = refl

  abbrev pub key_count : String → Groups A → ℕ
  key_count key gs = count (λ k. str_eq k key) (keys gs)

  key_count-append_under :
      (key k : String) (x : A) (gs : Groups A)
      → key_count key gs ≤ 1
      → key_count key (append_under k x gs) ≡ (if str_eq k key then 1 else key_count key gs)
  unfolding append_under
  key_count-append_under key k x [] h = ground arith
  key_count-append_under key k x (g ∷ gs) h = elim (Bool-cases (str_eq g.0 k)) [
    | inl e ↦ rw (e, sym (str_eq_same g.0 k key e)) (first (str_eq g.0 key) h)
    | inr e ↦
        rw e (
          later e (Bool-cases (str_eq g.0 key)) h
            (λ small. key_count-append_under key k x gs small))
  ]
    where
      first :
          (b : Bool)
          → (if b then suc (key_count key gs) else key_count key gs) ≤ 1
          → (if b then suc (key_count key gs) else key_count key gs)
            ≡ (if b then 1 else if b then suc (key_count key gs) else key_count key gs)
      first true small = omega arith
      first false small = refl

      later :
          str_eq g.0 k ≡ false
          → (str_eq g.0 key ≡ true) ⊎ (str_eq g.0 key ≡ false)
          → key_count key (g ∷ gs) ≤ 1
          → (key_count key gs ≤ 1
              → key_count key (append_under k x gs)
                ≡ (if str_eq k key then 1 else key_count key gs))
          → (if str_eq g.0 key
              then suc (key_count key (append_under k x gs))
              else key_count key (append_under k x gs))
            ≡ (if str_eq k key then 1 else key_count key (g ∷ gs))
      later e (inl h) small ih =
          let apart : str_eq k key ≡ false =
            str_eq_comm k key ∙ sym (str_eq_same g.0 key k h) ∙ e in
          ground (arith, h, apart, ih)
      later e (inr h) small ih = ground (arith, h, ih)

  -- A key stands once, where an element has it.
  pub key_count-group_loop :
      (key_of : A → String) (key : String) (xs : List A) (gs : Groups A)
      → key_count key gs ≤ 1
      → key_count key (group_loop key_of xs gs)
        ≡ (if any (λ x. str_eq (key_of x) key) xs then 1 else key_count key gs)
  unfolding group_loop
  key_count-group_loop key_of key [] gs h = refl
  key_count-group_loop key_of key (x ∷ xs) gs h = ground (
    arith,
    key_count-append_under key (key_of x) x gs h,
    key_count-group_loop key_of key xs (append_under (key_of x) x gs),
  )
