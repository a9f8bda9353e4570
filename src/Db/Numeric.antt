-- ===== src/Db/Numeric.antt =====
-- The database's NUMERIC(p, s) columns hold exact decimals: an amount is the integer that counts its
-- units of 10^-s. How the driver and PostgreSQL turn a `float` into such a column and back is a
-- parameter of the model.
use bookie_breaker_bookie_em.Base.{
  ℕ, suc, ◌+◌, ◌*◌, ◌/◌, ◌^◌, Bool, false, not, Option, none, some, List, [], ◌∷◌, length,
}
use bookie_breaker_bookie_em.Base.Int.{ℤ, pos, negsuc, pos_part, neg_part, sub_ℕ, sum_ℤ, ltb_ℤ}
use bookie_breaker_bookie_em.Float.Fixed.{Fixed}

pub record Numeric (W : Type 0) : Type 0 where
  -- `none` where the column refuses the value: out of range, or not a number
  pub stored : ℕ → W → Option ℤ
  pub loaded : ℕ → ℤ → W
  -- `column >= value`
  pub at_least : ℕ → ℤ → W → Bool

-- The number of units nearest to n / d, a tie away from zero, as NUMERIC rounds.
unfoldable pub round_half_up : ℕ → ℕ → ℕ
round_half_up n d = (n * 2 + d) / (d * 2)

unfoldable pub round_div : ℤ → ℕ → ℤ
unfolding round_half_up
round_div (pos n) d = pos (round_half_up n d)
round_div (negsuc n) d = sub_ℕ 0 (round_half_up (suc n) d)

-- SQL's `avg` over a column, as stored with the column's own scale; NULL over no rows.
unfoldable pub avg : List ℤ → Option ℤ
unfolding round_div
avg [] = none
avg (x ∷ xs) = some (round_div (sum_ℤ (x ∷ xs)) (length (x ∷ xs)))

unfoldable pub rescale : ℕ → ℕ → ℤ → ℤ
rescale up down a = sub_ℕ (pos_part a * up / down) (neg_part a * up / down)

-- For tests: fixed-point numbers in columns with s decimals.
instance abbrev pub fixed_numeric : Numeric Fixed
fixed_numeric = record {
  stored = λ s x. elim x [ none ↦ none | some a ↦ some (rescale (10 ^ s) (10 ^ 4) a) ];
  loaded = λ s a. some (rescale (10 ^ 4) (10 ^ s) a);
  at_least = λ s a x. elim x [
    | none ↦ false
    | some b ↦ not (ltb_ℤ (rescale (10 ^ 4) 1 a) (rescale (10 ^ s) 1 b))
  ];
}

-- What a test unfolds to compute with these columns.
unfoldable pub numeric_runs : Unit {0}
unfolding rescale avg round_div
numeric_runs = tt
