-- ===== src/Core/Odds.antt =====
-- core/odds.py: American and decimal odds, and implied probabilities.
use bookie_breaker_bookie_em.Base.{if◌then◌else◌}
use bookie_breaker_bookie_em.Base.Int.{ℤ, pos, ltb_ℤ, eq_ℤ, neg_ℤ}
use bookie_breaker_bookie_em.Float.{Float, one_f, two_f_const, hundred_f}
use bookie_breaker_bookie_em.Core.Errors.{Result, ok, value_error, ◌>>=◌, ◌>>◌, raise_if}

module _ {W : Type 0} ⦃f : Float W⦄ where
  unfoldable pub american_to_decimal : ℤ → Result W
  american_to_decimal odds_american = do
    raise_if (eq_ℤ odds_american (pos 0)) value_error
    ok (
        if ltb_ℤ (pos 0) odds_american
        then f.add one_f (f.div (f.of_int odds_american) hundred_f)
        else f.add one_f (f.div hundred_f (f.of_int (neg_ℤ odds_american))))

  unfoldable pub decimal_to_american : W → Result ℤ
  decimal_to_american odds_decimal = do
    raise_if (f.le odds_decimal one_f) value_error
    ok (
        if f.le two_f_const odds_decimal
        then f.round (f.mul (f.sub odds_decimal one_f) hundred_f)
        else neg_ℤ (f.round (f.div hundred_f (f.sub odds_decimal one_f))))

  unfoldable pub implied_probability : ℤ → Result W
  unfolding american_to_decimal
  implied_probability odds_american = do
    decimal ← american_to_decimal odds_american
    ok (f.div one_f decimal)

  unfoldable pub implied_probability_decimal : W → Result W
  implied_probability_decimal odds_decimal = do
    raise_if (f.le odds_decimal one_f) value_error
    ok (f.div one_f odds_decimal)
