-- ===== src/Core/Performance/Metrics.antt =====
-- compute_performance.
use bookie_breaker_bookie_em.Base.{ℕ, Option, none, some, List, map, count, length, if◌then◌else◌}
use bookie_breaker_bookie_em.Base.Int.{ℤ}
use bookie_breaker_bookie_em.Domain.{won, lost, push}
use bookie_breaker_bookie_em.Float.{Float, zero_f}
use bookie_breaker_bookie_em.Core.Errors.{Result, ok, ◌>>=◌}
use bookie_breaker_bookie_em.Core.Odds.{decimal_to_american}
use bookie_breaker_bookie_em.Core.Performance.{
  GradedBet, has_status, known_clvs, win_rate, roi, mean, as_percent,
}
use bookie_breaker_bookie_em.Core.Performance.Streaks.{streaks}
use bookie_breaker_bookie_em.Core.Performance.Bins.{brier_score, expected_calibration_error}

pub record PerformanceMetrics (W : Type 0) : Type 0 where
  pub total_bets : ℕ
  pub wins : ℕ
  pub losses : ℕ
  pub pushes : ℕ
  pub win_rate : W
  pub roi : W
  pub total_wagered_units : W
  pub total_profit_units : W
  pub avg_odds_american : Option ℤ
  pub avg_edge_percentage : Option W
  pub avg_clv : Option W
  pub current_streak : ℤ
  pub longest_win_streak : ℕ
  pub longest_loss_streak : ℕ
  pub brier_score : Option W
  pub calibration_error : Option W

module _ {W : Type 0} ⦃f : Float W⦄ where
  -- `decimal_to_american(mean_decimal) if mean_decimal else None`
  abbrev pub american_of_mean : Option W → Result (Option ℤ)
  american_of_mean none = ok none
  american_of_mean (some x) =
      if f.beq x zero_f then ok none else decimal_to_american x >>= λ odds. ok (some odds)

  unfoldable pub metrics_of : List (GradedBet W) → Option ℤ → Option W → PerformanceMetrics W
  unfolding known_clvs win_rate roi mean streaks brier_score
  metrics_of bets avg_odds calibration_error = record {
    total_bets = length bets;
    wins = count (has_status won) bets;
    losses = count (has_status lost) bets;
    pushes = count (has_status push) bets;
    win_rate = win_rate (count (has_status won) bets) (count (has_status lost) bets);
    roi = roi (f.sum (map (λ b. b.profit_loss) bets)) (f.sum (map (λ b. b.stake) bets));
    total_wagered_units = f.sum (map (λ b. b.stake) bets);
    total_profit_units = f.sum (map (λ b. b.profit_loss) bets);
    avg_odds_american = avg_odds;
    avg_edge_percentage = as_percent (mean (map (λ b. b.edge_at_placement) bets));
    avg_clv = mean (known_clvs bets);
    current_streak = (streaks bets).0;
    longest_win_streak = (streaks bets).1;
    longest_loss_streak = (streaks bets).2;
    brier_score = brier_score bets;
    calibration_error = calibration_error;
  }

  unfoldable pub compute_performance : List (GradedBet W) → Result (PerformanceMetrics W)
  unfolding decimal_to_american expected_calibration_error metrics_of
  compute_performance bets = do
    avg_odds ← american_of_mean (mean (map (λ b. b.odds_decimal) bets))
    calibration_error ← expected_calibration_error bets 10
    ok (metrics_of bets avg_odds calibration_error)
