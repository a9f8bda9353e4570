-- ===== src/Core/Performance/Bins/Counts.antt =====
-- How the settled bets are counted into the calibration bins.
use bookie_breaker_bookie_em.Base.{
  ℕ, zero, suc, ◌+◌, ◌<◌, ◌≡◌, refl, ◌∙◌, true, ◌&&◌, ◌==◌, List, [], ◌∷◌, ◌++◌, map, filter, count,
  length, length-filter, count-filter, All, All-filter, get_or, length-append, if◌then◌else◌, arith,
}
use bookie_breaker_bookie_em.Base.Int.{ℤ, pos, negsuc, neg_part}
use bookie_breaker_bookie_em.Float.{Float, HasTrunc, HasOrder, zero_f}
use bookie_breaker_bookie_em.Core.Errors.{ok}
use bookie_breaker_bookie_em.Core.Performance.{GradedBet, settled}
use bookie_breaker_bookie_em.Core.Performance.Bins.{
  CalibrationBin, empty_buckets, append_at, position, at_most_last, bucket_of, fill_buckets, bin_of,
  bins_from, calibration_bins, total_count,
}

abbrev size_at : {A : Type 0} → List (List A) → ℕ → ℕ
size_at bs i = length (get_or bs i [])

abbrev total_size : {A : Type 0} → List (List A) → ℕ
total_size [] = 0
total_size (b ∷ bs) = length b + total_size bs

-- One more element at an index: the number of buckets stays, and the sizes elsewhere.
abbrev Appended : {A : Type 0} → ℕ → List (List A) → List (List A) → Type 0
Appended i bs filled =
    (length filled ≡ length bs)
    × (total_size filled ≡ suc (total_size bs))
    × ((j : ℕ) → size_at filled j ≡ (if i == j then suc (size_at bs j) else size_at bs j))

module _ {A : Type 0} where
  append_at_lem :
      (i : ℕ) (x : A) (bs : List (List A))
      → i < length bs
      → (filled : List (List A)) × (append_at i x bs ≡ ok filled) × Appended i bs filled
  unfolding append_at
  append_at_lem i x [] h = absurd (omega arith)
  append_at_lem zero x (b ∷ bs) h =
      ((b ++ x ∷ []) ∷ bs, refl, (omega arith, omega (arith, length-append b (x ∷ [])), sizes))
    where
      sizes :
          (j : ℕ)
          → size_at ((b ++ x ∷ []) ∷ bs) j
            ≡ (if 0 == j then suc (size_at (b ∷ bs) j) else size_at (b ∷ bs) j)
      sizes zero = omega (arith, length-append b (x ∷ []))
      sizes (suc j) = ground arith
  append_at_lem (suc i) x (b ∷ bs) h =
      let (filled, e, (l, t, s)) = append_at_lem i x bs (omega arith) in
      (b ∷ filled, rw e refl, (omega (arith, l), omega (arith, t), sizes filled s))
    where
      sizes :
          (filled : List (List A))
          → ((j : ℕ) → size_at filled j ≡ (if i == j then suc (size_at bs j) else size_at bs j))
          → (j : ℕ)
          → size_at (b ∷ filled) j
            ≡ (if suc i == j then suc (size_at (b ∷ bs) j) else size_at (b ∷ bs) j)
      sizes filled s zero = ground arith
      sizes filled s (suc j) = ground (arith, s j)

module _ (A : Type 0) where
  empty_buckets_lem :
      (n : ℕ) → (length (empty_buckets {A = A} n) ≡ n) × (total_size (empty_buckets {A = A} n) ≡ 0)
  empty_buckets_lem zero = (refl, refl)
  empty_buckets_lem (suc n) =
      let (l, t) = empty_buckets_lem n in (omega (arith, l), omega (arith, t))

  empty_buckets-size : (n j : ℕ) → size_at (empty_buckets {A = A} n) j ≡ 0
  empty_buckets-size zero j = refl
  empty_buckets-size (suc n) zero = refl
  empty_buckets-size (suc n) (suc j) = empty_buckets-size n j

position_lt : (m : ℕ) (z : ℤ) → neg_part z ≡ 0 → position (suc m) (at_most_last (suc m) z) < suc m
position_lt m (pos k) h = ground arith
position_lt m (negsuc k) h = absurd (omega arith)

module _ {W : Type 0} ⦃f : Float W⦄ (trunc : HasTrunc W) (order : HasOrder W) where
  -- A bet with a positive probability falls into one of the bins.
  bucket_of-lt :
      (m : ℕ) (b : GradedBet W)
      → f.lt zero_f b.predicted_probability ≡ true
      → bucket_of (suc m) b < suc m
  unfolding bucket_of
  bucket_of-lt m b h =
      position_lt m (f.trunc (f.mul b.predicted_probability (f.of_int (pos (suc m))))) (
        trunc.trunc_pos (f.mul b.predicted_probability (f.of_int (pos (suc m))))
          (order.mul_pos b.predicted_probability (f.of_int (pos (suc m))) h (trunc.of_int_pos m)))

  -- Every bet is appended to its bucket.
  fill_buckets_lem :
      (m : ℕ) (bets : List (GradedBet W)) (bs : List (List (GradedBet W)))
      → All (λ b. f.lt zero_f b.predicted_probability ≡ true) bets
      → length bs ≡ suc m
      → (filled : List (List (GradedBet W))) × (fill_buckets (suc m) bets bs ≡ ok filled)
        × (length filled ≡ suc m)
        × (total_size filled ≡ length bets + total_size bs)
        × ((j : ℕ) → size_at filled j ≡ count (λ b. bucket_of (suc m) b == j) bets + size_at bs j)
  unfolding fill_buckets
  fill_buckets_lem m [] bs h l = (bs, refl, l, omega arith, λ j. omega arith)
  fill_buckets_lem m (b ∷ bets) bs (p, h) l =
      let i = bucket_of (suc m) b in
      let (bs', e, (l', t', s')) = append_at_lem i b bs (omega (arith, l, bucket_of-lt m b p)) in
      let (filled, e'', l'', t'', s'') = fill_buckets_lem m bets bs' h (omega (arith, l, l')) in
      (filled, rw e e'', l'', omega (arith, t', t''), λ j. ground (arith, s'' j, s' j))

module _ {W : Type 0} ⦃f : Float W⦄ where
  abbrev pub bin_count : List (CalibrationBin W) → ℕ → ℕ
  bin_count bins i = get_or (map (λ b. b.bet_count) bins) i 0

  length-bins_from :
      (n i : ℕ) (bs : List (List (GradedBet W))) → length (bins_from n i bs) ≡ length bs
  unfolding bins_from
  length-bins_from n i [] = refl
  length-bins_from n i (b ∷ bs) = omega (arith, length-bins_from n (i + 1) bs)

  total_count-bins_from :
      (n i : ℕ) (bs : List (List (GradedBet W))) → total_count (bins_from n i bs) ≡ total_size bs
  unfolding bins_from bin_of
  total_count-bins_from n i [] = refl
  total_count-bins_from n i (b ∷ bs) = omega (arith, total_count-bins_from n (i + 1) bs)

  bin_count-bins_from :
      (n i : ℕ) (bs : List (List (GradedBet W))) (j : ℕ)
      → bin_count (bins_from n i bs) j ≡ size_at bs j
  unfolding bins_from bin_of
  bin_count-bins_from n i [] j = refl
  bin_count-bins_from n i (b ∷ bs) zero = refl
  bin_count-bins_from n i (b ∷ bs) (suc j) = bin_count-bins_from n (i + 1) bs j

module _ {W : Type 0} ⦃f : Float W⦄ (trunc : HasTrunc W) (order : HasOrder W) where
  -- For n >= 1 and bets with positive probabilities, calibration_bins returns exactly n bins, with
  -- no IndexError. Every bin counts the WON and LOST bets whose index, int(p * n) and at most n - 1,
  -- is its own, and the counts add up to the number of WON and LOST bets. The laws of `float` that
  -- this needs are hypotheses.
  pub calibration_bins_counts :
      (m j : ℕ) (bets : List (GradedBet W))
      → All (λ b. f.lt zero_f b.predicted_probability ≡ true) bets
      → (bins : List (CalibrationBin W)) × (calibration_bins bets (suc m) ≡ ok bins)
        × (length bins ≡ suc m)
        × (total_count bins ≡ count settled bets)
        × (bin_count bins j ≡ count (λ b. settled b && bucket_of (suc m) b == j) bets)
  unfolding calibration_bins
  calibration_bins_counts m j bets h =
      let start = empty_buckets {A = GradedBet W} (suc m) in
      let (l₀, t₀) = empty_buckets_lem (GradedBet W) (suc m) in
      let (filled, e, l, t, s) =
        fill_buckets_lem trunc order m (filter settled bets) start
          (All-filter (λ b. f.lt zero_f b.predicted_probability ≡ true) settled bets h) l₀ in
      (
        bins_from (suc m) 0 filled,
        rw e refl,
        length-bins_from (suc m) 0 filled ∙ l,
        omega (arith, total_count-bins_from (suc m) 0 filled, t, t₀, length-filter settled bets),
        omega (
          arith,
          bin_count-bins_from (suc m) 0 filled j,
          s j,
          empty_buckets-size (GradedBet W) (suc m) j,
          count-filter settled (λ b. bucket_of (suc m) b == j) bets,
        ),
      )
