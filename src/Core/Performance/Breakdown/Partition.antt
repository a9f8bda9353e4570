-- ===== src/Core/Performance/Breakdown/Partition.antt =====
-- The groups of compute_breakdown partition the bets.
use mathlib.Core.Path.{fun_ext, subst}
use bookie_breaker_bookie_em.Base.{
  ℕ, ◌+◌, ◌≡◌, refl, sym, ap, ◌∙◌, Bool, true, false, ◌&&◌, ◌||◌, List, [], ◌∷◌, map, filter, any,
  All, All-map, count, length, count-filter, count-map, map-ext, String, str_eq, eq_iff,
  if◌then◌else◌, arith,
}
use bookie_breaker_bookie_em.Base.Dict.{str_eq_comm}
use bookie_breaker_bookie_em.Base.Sorting.{sort_by, IsOrdered}
use bookie_breaker_bookie_em.Base.Sorting.Laws.{count-sort_by, sort_by-IsOrdered}
use bookie_breaker_bookie_em.Domain.{won, lost, push}
use bookie_breaker_bookie_em.Float.{Float}
use bookie_breaker_bookie_em.Core.Performance.{GradedBet, has_status}
use bookie_breaker_bookie_em.Core.Performance.Breakdown.{
  GroupBy, BreakdownGroup, group_key, group_loop, keys, members_of, text_le, breakdown_of,
  compute_breakdown,
}
use bookie_breaker_bookie_em.Core.Performance.Breakdown.Order.{text_le-IsOrder}
use bookie_breaker_bookie_em.Core.Performance.Breakdown.Groups.{
  members_of-group_loop, key_count-group_loop,
}

abbrev pub sum_by {ℓ} : {A : Type ℓ} → (A → ℕ) → List A → ℕ
sum_by g [] = 0
sum_by g (x ∷ xs) = g x + sum_by g xs

sum_by-map {ℓ κ} :
    {A : Type ℓ} {B : Type κ} (g : B → ℕ) (h : A → B) (xs : List A)
    → sum_by g (map h xs) ≡ sum_by (λ x. g (h x)) xs
sum_by-map g h [] = refl
sum_by-map g h (x ∷ xs) = ap (λ r. g (h x) + r) (sum_by-map g h xs)

module _ {A : Type 0} (r : String → A → Bool) (p : A → Bool) where
  -- One element more adds to the keys that it has.
  sum_by-step :
      (x : A) (xs : List A) (ks : List String)
      → sum_by (λ k. count (λ y. r k y && p y) (x ∷ xs)) ks
        ≡ sum_by (λ k. count (λ y. r k y && p y) xs) ks + (if p x then count (λ k. r k x) ks else 0)
  sum_by-step x xs [] = ground arith
  sum_by-step x xs (k ∷ ks) = ground (arith, sum_by-step x xs ks)

  sum_by-none : (ks : List String) → sum_by (λ k. count (λ y. r k y && p y) []) ks ≡ 0
  sum_by-none [] = refl
  sum_by-none (k ∷ ks) = omega (arith, sum_by-none ks)

  -- Where every element has one key, counting by key counts every element once.
  count_by_key :
      (ks : List String) (xs : List A)
      → All (λ x. count (λ k. r k x) ks ≡ 1) xs
      → sum_by (λ k. count (λ y. r k y && p y) xs) ks ≡ count p xs
  count_by_key ks [] h = sum_by-none ks
  count_by_key ks (x ∷ xs) (one, h) = ground (arith, sum_by-step x xs ks, one, count_by_key ks xs h)

module _ {A : Type 0} (key_of : A → String) where
  -- Every element of a list has the key of some element.
  own_key : (xs : List A) → All (λ x. any (λ y. str_eq (key_of y) (key_of x)) xs ≡ true) xs
  own_key [] = tt
  own_key (x ∷ xs) = (
    rw ((eq_iff (key_of x) (key_of x)).1 refl) refl,
    All-map (λ z. any (λ y. str_eq (key_of y) (key_of z)) xs ≡ true)
        (λ z. any (λ y. str_eq (key_of y) (key_of z)) (x ∷ xs) ≡ true)
        (λ z h. rw h (or_true (str_eq (key_of x) (key_of z)))) xs (own_key xs),
  )
    where
      or_true : (b : Bool) → (b || true) ≡ true
      or_true true = refl
      or_true false = refl

  abbrev sorted_keys : List A → List String
  sorted_keys xs = sort_by text_le (keys (group_loop key_of xs []))

  pub count-sorted_keys :
      (key : String) (xs : List A)
      → count (λ k. str_eq k key) (sorted_keys xs)
        ≡ (if any (λ x. str_eq (key_of x) key) xs then 1 else 0)
  count-sorted_keys key xs =
      count-sort_by text_le (λ k. str_eq k key) (keys (group_loop key_of xs []))
      ∙ key_count-group_loop key_of key xs [] (omega arith)

  one_key : (xs : List A) → All (λ x. count (λ k. str_eq (key_of x) k) (sorted_keys xs) ≡ 1) xs
  one_key xs =
      All-map (λ x. any (λ y. str_eq (key_of y) (key_of x)) xs ≡ true)
        (λ x. count (λ k. str_eq (key_of x) k) (sorted_keys xs) ≡ 1)
        (λ x h.
          ap (λ test. count test (sorted_keys xs)) (fun_ext (λ k. str_eq_comm (key_of x) k))
          ∙ count-sorted_keys (key_of x) xs
          ∙ rw h refl)
        xs (own_key xs)

  -- What the groups count of a test, together.
  pub sum_by-members :
      (p : A → Bool) (xs : List A)
      → sum_by (λ k. count p (members_of k (group_loop key_of xs []))) (sorted_keys xs) ≡ count p xs
  unfolding members_of
  sum_by-members p xs =
      ap (λ g. sum_by g (sorted_keys xs))
        (fun_ext (λ k.
          ap (count p) (members_of-group_loop key_of k xs [])
          ∙ count-filter (λ x. str_eq (key_of x) k) p xs))
      ∙ count_by_key (λ k x. str_eq (key_of x) k) p (sorted_keys xs) xs (one_key xs)

map_back :
    {A B : Type 0} (g : B → A) (f : A → B)
    → ((a : A) → g (f a) ≡ a)
    → (xs : List A) → map g (map f xs) ≡ xs
map_back g f e [] = refl
map_back g f e (x ∷ xs) = rw (e x, map_back g f e xs) refl

module _ {W : Type 0} ⦃f : Float W⦄ (month_of : ℕ → String) where
  -- What the rows of a breakdown add up to.
  sum_by-rows :
      (group_by : GroupBy) (g : BreakdownGroup W → ℕ) (p : GradedBet W → Bool)
      → ((key : String) (members : List (GradedBet W))
          → g (breakdown_of key members) ≡ count p members)
      → (bets : List (GradedBet W))
      → sum_by g (compute_breakdown month_of bets group_by) ≡ count p bets
  unfolding compute_breakdown
  sum_by-rows group_by g p e bets =
      let key_of = group_key month_of group_by in
      sum_by-map g (λ key. breakdown_of key (members_of key (group_loop key_of bets [])))
        (sorted_keys key_of bets)
      ∙ ap (λ h. sum_by h (sorted_keys key_of bets))
          (fun_ext (λ key. e key (members_of key (group_loop key_of bets []))))
      ∙ sum_by-members key_of p bets

  -- A breakdown puts every graded bet into exactly one group: over the groups, the numbers of bets add
  -- up to the number of bets given, and so do the wins, the losses and the pushes; a text is the key
  -- of one group where some bet has this key under the grouping asked for, and of no group otherwise;
  -- and the groups stand in the order of their keys.
  pub compute_breakdown_partition :
      (bets : List (GradedBet W)) (group_by : GroupBy) (key : String)
      → (sum_by (λ g. g.total_bets) (compute_breakdown month_of bets group_by) ≡ length bets)
        × (sum_by (λ g. g.wins) (compute_breakdown month_of bets group_by)
            ≡ count (has_status won) bets)
        × (sum_by (λ g. g.losses) (compute_breakdown month_of bets group_by)
            ≡ count (has_status lost) bets)
        × (sum_by (λ g. g.pushes) (compute_breakdown month_of bets group_by)
            ≡ count (has_status push) bets)
        × (count (λ g. str_eq g.group key) (compute_breakdown month_of bets group_by)
            ≡ (if any (λ b. str_eq (group_key month_of group_by b) key) bets then 1 else 0))
        × IsOrdered text_le (map (λ g. g.group) (compute_breakdown month_of bets group_by))
  unfolding compute_breakdown
  compute_breakdown_partition bets group_by key =
      let key_of = group_key month_of group_by in
      (
        sum_by-rows group_by (λ g. g.total_bets) (λ _. true) (λ k members. sym (count_all members))
              bets
            ∙ count_all bets,
        sum_by-rows group_by (λ g. g.wins) (has_status won) (λ k members. refl) bets,
        sum_by-rows group_by (λ g. g.losses) (has_status lost) (λ k members. refl) bets,
        sum_by-rows group_by (λ g. g.pushes) (has_status push) (λ k members. refl) bets,
        count-map (λ g. str_eq g.group key) (λ k. str_eq k key)
              (λ k. breakdown_of k (members_of k (group_loop key_of bets []))) (λ k. refl)
              (sorted_keys key_of bets)
            ∙ count-sorted_keys key_of key bets,
        subst (IsOrdered text_le)
            (sym (
              map_back (λ g. g.group)
                (λ k. breakdown_of k (members_of k (group_loop key_of bets []))) (λ k. refl)
                (sorted_keys key_of bets)))
            (sort_by-IsOrdered text_le-IsOrder (keys (group_loop key_of bets []))),
      )
    where
      count_all : (bs : List (GradedBet W)) → count (λ _. true) bs ≡ length bs
      count_all [] = refl
      count_all (b ∷ bs) = omega (arith, count_all bs)

  -- The row of each group aggregates exactly the bets with its key, in their order, and the rows stand
  -- in the order of the sorted keys.
  pub compute_breakdown_rows :
      (bets : List (GradedBet W)) (group_by : GroupBy)
      → compute_breakdown month_of bets group_by
        ≡ map
            (λ key.
              breakdown_of key (filter (λ b. str_eq (group_key month_of group_by b) key) bets))
            (sort_by text_le (keys (group_loop (group_key month_of group_by) bets [])))
  unfolding compute_breakdown members_of
  compute_breakdown_rows bets group_by =
      let key_of = group_key month_of group_by in
      map-ext (λ key. breakdown_of key (members_of key (group_loop key_of bets [])))
        (λ key. breakdown_of key (filter (λ b. str_eq (key_of b) key) bets))
        (λ key. ap (breakdown_of key) (members_of-group_loop key_of key bets []))
        (sorted_keys key_of bets)
