-- ===== src/Core/Performance/Bins.antt =====
-- calibration_bins, expected_calibration_error and brier_score.
pub mod Counts
use bookie_breaker_bookie_em.Base.{
  ℕ, zero, suc, ◌+◌, ◌-◌, ◌==◌, Bool, true, false, Option, none, some, List, [], ◌∷◌, ◌++◌, map,
  filter, count, length, leb, ltb, if◌then◌else◌,
}
use bookie_breaker_bookie_em.Base.Int.{ℤ, pos, negsuc}
use bookie_breaker_bookie_em.Domain.{won}
use bookie_breaker_bookie_em.Float.{Float, zero_f, one_f}
use bookie_breaker_bookie_em.Core.Errors.{Result, ok, err, unexpected, ◌>>=◌}
use bookie_breaker_bookie_em.Core.Performance.{GradedBet, has_status, settled, mean}

pub record CalibrationBin (W : Type 0) : Type 0 where
  pub lower : W
  pub upper : W
  pub bet_count : ℕ
  pub avg_predicted_probability : Option W
  pub actual_win_rate : Option W

-- `[[] for _ in range(n)]`
abbrev pub empty_buckets {ℓ} : {A : Type ℓ} → ℕ → List (List A)
empty_buckets zero = []
empty_buckets (suc n) = [] ∷ empty_buckets n

-- `buckets[i].append(x)`; an index past the end is an IndexError
unfoldable pub append_at {ℓ} : {A : Type ℓ} → ℕ → A → List (List A) → Result (List (List A))
append_at i x [] = err unexpected
append_at zero x (b ∷ bs) = ok ((b ++ x ∷ []) ∷ bs)
append_at (suc i) x (b ∷ bs) = append_at i x bs >>= λ rest. ok (b ∷ rest)

-- a negative index counts from the end
abbrev pub position : ℕ → ℤ → ℕ
position n (pos i) = i
position n (negsuc i) = if leb (suc i) n then n - suc i else n

-- `min(i, n - 1)`
abbrev pub at_most_last : ℕ → ℤ → ℤ
at_most_last n (negsuc i) = negsuc i
at_most_last zero (pos i) = negsuc 0
at_most_last (suc n) (pos i) = if ltb n i then pos n else pos i

module _ {W : Type 0} ⦃f : Float W⦄ where
  unfoldable pub bucket_of : ℕ → GradedBet W → ℕ
  bucket_of n b =
      position n (at_most_last n (f.trunc (f.mul b.predicted_probability (f.of_int (pos n)))))

  unfoldable pub fill_buckets :
      ℕ → List (GradedBet W) → List (List (GradedBet W)) → Result (List (List (GradedBet W)))
  unfolding bucket_of append_at
  fill_buckets n [] buckets = ok buckets
  fill_buckets n (b ∷ bs) buckets =
      append_at (bucket_of n b) b buckets >>= λ filled. fill_buckets n bs filled

  -- `sum(1.0 for b in contents if b.status == "WON") / len(contents) if contents else None`
  unfoldable pub accuracy : List (GradedBet W) → Option W
  accuracy [] = none
  accuracy (b ∷ bs) = some (
      f.div (f.sum (map (λ _. one_f) (filter (has_status won) (b ∷ bs))))
        (f.of_int (pos (length (b ∷ bs)))))

  unfoldable pub bin_of : ℕ → ℕ → List (GradedBet W) → CalibrationBin W
  unfolding accuracy mean
  bin_of n i contents = record {
    lower = f.div (f.of_int (pos i)) (f.of_int (pos n));
    upper = f.div (f.of_int (pos (i + 1))) (f.of_int (pos n));
    bet_count = length contents;
    avg_predicted_probability = mean (map (λ b. b.predicted_probability) contents);
    actual_win_rate = accuracy contents;
  }

  -- `enumerate(buckets)`
  unfoldable pub bins_from : ℕ → ℕ → List (List (GradedBet W)) → List (CalibrationBin W)
  unfolding bin_of
  bins_from n i [] = []
  bins_from n i (contents ∷ rest) = bin_of n i contents ∷ bins_from n (i + 1) rest

  unfoldable pub calibration_bins : List (GradedBet W) → ℕ → Result (List (CalibrationBin W))
  unfolding fill_buckets bins_from
  calibration_bins bets n_bins =
      fill_buckets n_bins (filter settled bets) (empty_buckets n_bins) >>= λ buckets.
      ok (bins_from n_bins 0 buckets)

  abbrev pub total_count : List (CalibrationBin W) → ℕ
  total_count [] = 0
  total_count (b ∷ bs) = b.bet_count + total_count bs

  -- a term of the sum, where the bin has one
  abbrev pub gap_of : ℕ → ℕ → Option W → Option W → List W → List W
  gap_of total bet_count none confidence rest = rest
  gap_of total bet_count (some rate) none rest = rest
  gap_of total bet_count (some rate) (some confidence) rest =
      if bet_count == 0
      then rest
      else f.mul (f.div (f.of_int (pos bet_count)) (f.of_int (pos total)))
          (f.abs (f.sub rate confidence))
        ∷ rest

  unfoldable pub gaps : ℕ → List (CalibrationBin W) → List W
  gaps total [] = []
  gaps total (b ∷ bs) =
      gap_of total b.bet_count b.actual_win_rate b.avg_predicted_probability (gaps total bs)

  abbrev pub error_of : List (CalibrationBin W) → Option W
  error_of bins =
      if total_count bins == 0 then none else some (f.sum (gaps (total_count bins) bins))

  unfoldable pub expected_calibration_error : List (GradedBet W) → ℕ → Result (Option W)
  unfolding calibration_bins gaps
  expected_calibration_error bets n_bins =
      calibration_bins bets n_bins >>= λ bins. ok (error_of bins)

  -- `1.0 if b.status == "WON" else 0.0`
  abbrev pub outcome : GradedBet W → W
  outcome b = if has_status won b then one_f else zero_f

  unfoldable pub brier_score : List (GradedBet W) → Option W
  unfolding mean
  brier_score bets =
      mean (map (λ b. f.square (f.sub b.predicted_probability (outcome b))) (filter settled bets))
