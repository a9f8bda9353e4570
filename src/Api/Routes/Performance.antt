-- ===== src/Api/Routes/Performance.antt =====
-- api/routes/performance.py. Times are numbers of seconds here.
pub mod Counted
use bookie_breaker_bookie_em.Base.{
  ℕ, ◌-◌, Bool, Option, none, some, List, [], ◌∷◌, map, ltb, if◌then◌else◌, String,
}
use bookie_breaker_bookie_em.Domain.{League, Market}
use bookie_breaker_bookie_em.Float.{Float}
use bookie_breaker_bookie_em.Core.Errors.{Result, ok, ◌>>=◌}
use bookie_breaker_bookie_em.Core.Performance.{GradedBet}
use bookie_breaker_bookie_em.Core.Performance.Bins.{
  CalibrationBin, calibration_bins, expected_calibration_error, brier_score, total_count,
}
use bookie_breaker_bookie_em.Core.Performance.Breakdown.{GroupBy, compute_breakdown}
use bookie_breaker_bookie_em.Core.Performance.Metrics.{PerformanceMetrics, compute_performance}
use bookie_breaker_bookie_em.Db.Numeric.{Numeric}
use bookie_breaker_bookie_em.Db.Rows.{Database, PaperBetRecord, BetGradeRecord}
use bookie_breaker_bookie_em.Db.Repository.Ledger.{LedgerFilters, graded_bets}
use bookie_breaker_bookie_em.Api.Schemas.Performance.{
  Window, daily, weekly, monthly, all_time, PeriodData, PerformanceData, BreakdownData,
  CalibrationData,
}

-- _WINDOW_SPANS
abbrev pub window_start : ℕ → Window → Option ℕ
window_start now daily = some (now - 86_400)
window_start now weekly = some (now - 604_800)
window_start now monthly = some (now - 2_592_000)
window_start now all_time = none

-- `a or b` for optional times
abbrev pub or_time : Option ℕ → Option ℕ → Option ℕ
or_time none b = b
or_time (some a) b = some a

abbrev pub time_or : Option ℕ → ℕ → ℕ
time_or none d = d
time_or (some t) d = t

abbrev pub smaller : ℕ → Option ℕ → ℕ
smaller t none = t
smaller t (some u) = if ltb u t then u else t

module _ {W : Type 0} where
  abbrev pub graded_bet : PaperBetRecord W × BetGradeRecord W → GradedBet W
  graded_bet (bet, grade) = record {
    league = bet.league;
    market_type = bet.market_type;
    sportsbook_key = bet.sportsbook_key;
    stake = bet.stake;
    odds_decimal = bet.odds_decimal;
    predicted_probability = bet.predicted_probability;
    edge_at_placement = bet.edge_at_placement;
    status = bet.status;
    profit_loss = grade.profit_loss;
    clv = grade.clv;
    placed_at = bet.placed_at;
    graded_at = grade.graded_at;
    is_parlay = bet.is_parlay;
    is_live = bet.is_live;
  }

  -- `_to_graded`
  unfoldable pub to_graded : List (PaperBetRecord W × BetGradeRecord W) → List (GradedBet W)
  to_graded pairs = map graded_bet pairs

  -- the query's parameters
  abbrev pub performance_filters :
      Option League → Option Market → Option ℕ → Option ℕ → Option ℕ → LedgerFilters W
  performance_filters league market_type date_from date_to graded_from = record {
    league = league;
    market_type = market_type;
    result = none;
    status = none;
    date_from = date_from;
    date_to = date_to;
    min_edge = none;
    graded_from = graded_from;
    is_parlay = none;
    is_live = none;
  }

  -- `min(b.placed_at for b in graded) if graded else None`
  unfoldable pub first_placed : List (GradedBet W) → Option ℕ
  first_placed [] = none
  first_placed (b ∷ bs) = some (smaller b.placed_at (first_placed bs))

  abbrev pub period_of : ℕ → Option ℕ → Option ℕ → Window → List (GradedBet W) → PeriodData
  period_of now date_from date_to window graded = record {
    from_ = or_time date_from (or_time (window_start now window) (first_placed graded));
    to = time_or date_to now;
    window = window;
  }

module _ {W : Type 0} ⦃f : Float W⦄ where
  unfoldable pub performance_data : W → PeriodData → PerformanceMetrics W → PerformanceData W
  performance_data unit_size_dollars period m = record {
    period = period;
    total_bets = m.total_bets;
    total_wins = m.wins;
    total_losses = m.losses;
    total_pushes = m.pushes;
    win_rate = m.win_rate;
    roi = m.roi;
    total_wagered_units = m.total_wagered_units;
    total_profit_units = m.total_profit_units;
    total_wagered_dollars = f.mul m.total_wagered_units unit_size_dollars;
    total_profit_dollars = f.mul m.total_profit_units unit_size_dollars;
    avg_odds_american = m.avg_odds_american;
    avg_edge_percentage = m.avg_edge_percentage;
    avg_clv = m.avg_clv;
    longest_win_streak = m.longest_win_streak;
    longest_loss_streak = m.longest_loss_streak;
    brier_score = m.brier_score;
    calibration_error = m.calibration_error;
  }

  unfoldable pub calibration_data :
      ℕ → PeriodData → List (GradedBet W) → List (CalibrationBin W) → Option W → CalibrationData W
  unfolding brier_score
  calibration_data bins period graded computed calibration_error = record {
    period = period;
    n_bins = bins;
    total_graded = total_count computed;
    brier_score = brier_score graded;
    calibration_error = calibration_error;
    bins = computed;
  }

module _ {W : Type 0} ⦃f : Float W⦄ ⦃n : Numeric W⦄ where
  -- the graded bets that a handler aggregates
  unfoldable pub selected : LedgerFilters W → Database → List (GradedBet W)
  unfolding to_graded graded_bets
  selected filters db = to_graded (graded_bets filters db)

  unfoldable pub get_performance :
      W
      → ℕ
      → Database
      → Option League
      → Option Market
      → Option ℕ
      → Option ℕ
      → Window
      → Result (PerformanceData W)
  unfolding first_placed performance_data selected compute_performance
  get_performance unit_size_dollars now db league market_type date_from date_to window =
      let graded =
        selected
          (performance_filters league market_type date_from date_to (window_start now window)) db in
      compute_performance graded >>= λ metrics.
      ok
        (performance_data unit_size_dollars (period_of now date_from date_to window graded) metrics)

  unfoldable pub get_calibration :
      ℕ
      → Database
      → Option League
      → Option Market
      → Option ℕ
      → Option ℕ
      → Window
      → ℕ
      → Result (CalibrationData W)
  unfolding first_placed calibration_data selected calibration_bins expected_calibration_error
  get_calibration now db league market_type date_from date_to window bins =
      let graded =
        selected
          (performance_filters league market_type date_from date_to (window_start now window)) db in
      calibration_bins graded bins >>= λ computed.
      expected_calibration_error graded bins >>= λ calibration_error. ok (
        calibration_data bins (period_of now date_from date_to window graded) graded computed
          calibration_error)

  unfoldable pub get_breakdown :
      (ℕ → String) → Database → GroupBy → Option ℕ → Option ℕ → BreakdownData W
  unfolding selected compute_breakdown
  get_breakdown month_of db group_by date_from date_to = record {
    group_by = group_by;
    breakdowns =
        compute_breakdown month_of
          (selected (performance_filters none none date_from date_to none) db) group_by;
  }
