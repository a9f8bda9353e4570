-- ===== src/Core/Grading/Money.antt =====
-- What a settled bet pays (profit_loss of core/grading.py).
use bookie_breaker_bookie_em.Base.{◌≡◌, refl, ◌⊎◌, inl, inr, true, arith}
use bookie_breaker_bookie_em.Domain.{Status, won, lost}
use bookie_breaker_bookie_em.Float.{Float, HasOrder, zero_f, one_f}
use bookie_breaker_bookie_em.Core.Grading.{profit_loss}

module _ {W : Type 0} ⦃f : Float W⦄ (order : HasOrder W) where
  open order use {lt-le, lt_le_trans, le_refl_zero, sub_pos, mul_pos, neg_pos}

  -- With a positive stake at decimal odds above 1: a win never costs anything, a loss costs the
  -- stake and is negative, any other status pays nothing, and no status costs more than the stake.
  pub profit_loss_bounds :
      (status : Status) (stake odds_decimal : W)
      → f.lt zero_f stake ≡ true
      → f.lt one_f odds_decimal ≡ true
      → let pl = profit_loss status stake odds_decimal in
        (status ≡ won → f.le zero_f pl ≡ true)
        × (status ≡ lost → (pl ≡ f.neg stake) × (f.lt pl zero_f ≡ true))
        × ((f.le zero_f pl ≡ true) ⊎ (pl ≡ f.neg stake))
  unfolding profit_loss
  profit_loss_bounds won stake odds p q =
      let gain = mul_pos stake (f.sub odds one_f) p (sub_pos odds one_f q) in
      (λ _. gain, ground arith, inl gain)
  profit_loss_bounds lost stake odds p q = (ground arith, λ _. (refl, neg_pos stake p), inr refl)
  profit_loss_bounds _ stake odds p q = (ground arith, ground arith, inl le_refl_zero)
