-- ===== src/Api/Schemas/Performance.antt =====
-- The analytics as the API shows them. BreakdownEntry and CalibrationBinData have the fields of
-- BreakdownGroup and CalibrationBin, which the handlers copy by `vars`.
use bookie_breaker_bookie_em.Base.{ℕ, Option, List}
use bookie_breaker_bookie_em.Base.Int.{ℤ}
use bookie_breaker_bookie_em.Core.Performance.Bins.{CalibrationBin}
use bookie_breaker_bookie_em.Core.Performance.Breakdown.{GroupBy, BreakdownGroup}

pub data Window : Type 0 where
  daily weekly monthly all_time : Window

pub record PeriodData : Type 0 where
  pub from_ : Option ℕ
  pub to : ℕ
  pub window : Window

pub record PerformanceData (W : Type 0) : Type 0 where
  pub period : PeriodData
  pub total_bets : ℕ
  pub total_wins : ℕ
  pub total_losses : ℕ
  pub total_pushes : ℕ
  pub win_rate : W
  pub roi : W
  pub total_wagered_units : W
  pub total_profit_units : W
  pub total_wagered_dollars : W
  pub total_profit_dollars : W
  pub avg_odds_american : Option ℤ
  pub avg_edge_percentage : Option W
  pub avg_clv : Option W
  pub longest_win_streak : ℕ
  pub longest_loss_streak : ℕ
  pub brier_score : Option W
  pub calibration_error : Option W

pub record BreakdownData (W : Type 0) : Type 0 where
  pub group_by : GroupBy
  pub breakdowns : List (BreakdownGroup W)

pub record CalibrationData (W : Type 0) : Type 0 where
  pub period : PeriodData
  pub n_bins : ℕ
  pub total_graded : ℕ
  pub brier_score : Option W
  pub calibration_error : Option W
  pub bins : List (CalibrationBin W)
