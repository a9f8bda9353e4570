-- ===== src/Tests/Analytics.antt =====
-- Tests of core/performance.py and of its endpoints.
use mathlib.Core.List.{reverse}
use bookie_breaker_bookie_em.Base.{
  ℕ, ◌/◌, ◌≤◌, ◌≡◌, refl, false, ◌&&◌, none, some, List, [], ◌∷◌, ◌++◌, ◌==◌, map, any, count,
  length, String, str_eq, if◌then◌else◌, show_ℕ,
}
use bookie_breaker_bookie_em.Base.Int.{pos, negsuc}
use bookie_breaker_bookie_em.Base.Sorting.{sort_by, IsOrdered}
use bookie_breaker_bookie_em.Domain.{Status, won, lost, push, spread, nba}
use bookie_breaker_bookie_em.Float.Fixed.{Fixed, fixed_float, fixed_runs}
use bookie_breaker_bookie_em.Float.Fixed.Laws.{Fixed-HasTrunc, Fixed-HasOrder}
use bookie_breaker_bookie_em.Core.Errors.{ok}
use bookie_breaker_bookie_em.Core.Performance.{GradedBet, has_status, settled}
use bookie_breaker_bookie_em.Core.Performance.Streaks.{settled_statuses, streaks}
use bookie_breaker_bookie_em.Core.Performance.Streaks.Runs.{replicate}
use bookie_breaker_bookie_em.Core.Performance.Streaks.Longest.{current, longest, streaks_runs}
use bookie_breaker_bookie_em.Core.Performance.Bins.{
  CalibrationBin, bucket_of, calibration_bins, total_count,
}
use bookie_breaker_bookie_em.Core.Performance.Bins.Counts.{bin_count, calibration_bins_counts}
use bookie_breaker_bookie_em.Core.Performance.Breakdown.{
  by_league, group_key, text_le, compute_breakdown,
}
use bookie_breaker_bookie_em.Core.Performance.Breakdown.Partition.{
  sum_by, compute_breakdown_partition,
}
use bookie_breaker_bookie_em.Db.Numeric.{fixed_numeric, numeric_runs}
use bookie_breaker_bookie_em.Core.Performance.Metrics.{metrics_of}
use bookie_breaker_bookie_em.Db.Repository.Ledger.{LedgerFilters}
use bookie_breaker_bookie_em.Api.Schemas.Performance.{PerformanceData, all_time}
use bookie_breaker_bookie_em.Api.Routes.Performance.{
  performance_filters, period_of, performance_data, selected, get_performance,
}
use bookie_breaker_bookie_em.Api.Routes.Performance.Counted.{Reported, get_performance-Reported}
use bookie_breaker_bookie_em.Tests.Data.{ten_thousandths, evens, one_unit}
use bookie_breaker_bookie_em.Tests.Stored.{graded_bet, graded_bet-IsConsistent}

abbrev graded : Status → ℕ → GradedBet Fixed
graded status at = record {
  league = nba;
  market_type = spread;
  sportsbook_key = "book";
  stake = one_unit;
  odds_decimal = evens;
  predicted_probability = ten_thousandths (pos 5_500);
  edge_at_placement = ten_thousandths (pos 300);
  status = status;
  profit_loss = one_unit;
  clv = none;
  placed_at = 1;
  graded_at = at;
  is_parlay = false;
  is_live = false;
}

-- a loss, then two wins with a push between them
abbrev bets : List (GradedBet Fixed)
bets = graded won 4 ∷ graded push 3 ∷ graded won 2 ∷ graded lost 1 ∷ []

streaks_runs_example :
    (2 ≤ longest won (streaks bets))
    × ((a : List Status) × (b : List Status) × (settled_statuses bets
          ≡ a ++ (replicate (longest won (streaks bets)) won ++ b)))
    × ((streaks bets).0 ≡ current (reverse (settled_statuses bets)))
unfolding settled_statuses sort_by
streaks_runs_example = streaks_runs bets won 2 (lost ∷ []) [] refl refl

calibration_bins_counts_example :
    (bins : List (CalibrationBin Fixed)) × (calibration_bins bets 10 ≡ ok bins)
    × (length bins ≡ 10)
    × (total_count bins ≡ count settled bets)
    × (bin_count bins 5 ≡ count (λ b. settled b && bucket_of 10 b == 5) bets)
unfolding fixed_runs
calibration_bins_counts_example =
    calibration_bins_counts Fixed-HasTrunc Fixed-HasOrder 9 5 bets
      (refl, (refl, (refl, (refl, tt))))

abbrev month_of : ℕ → String
month_of t = show_ℕ (t / 2_592_000)

compute_breakdown_partition_example :
    (sum_by (λ g. g.total_bets) (compute_breakdown month_of bets by_league) ≡ length bets)
    × (sum_by (λ g. g.wins) (compute_breakdown month_of bets by_league)
        ≡ count (has_status won) bets)
    × (sum_by (λ g. g.losses) (compute_breakdown month_of bets by_league)
        ≡ count (has_status lost) bets)
    × (sum_by (λ g. g.pushes) (compute_breakdown month_of bets by_league)
        ≡ count (has_status push) bets)
    × (count (λ g. str_eq g.group "NBA") (compute_breakdown month_of bets by_league)
        ≡ (if any (λ b. str_eq (group_key month_of by_league b) "NBA") bets then 1 else 0))
    × IsOrdered text_le (map (λ g. g.group) (compute_breakdown month_of bets by_league))
compute_breakdown_partition_example = compute_breakdown_partition month_of bets by_league "NBA"

abbrev filters : LedgerFilters Fixed
filters = performance_filters (some nba) none none none none

-- odds of 1.9 are -111, and a bet won at 0.55 misses by 0.45
abbrev answer : PerformanceData Fixed
answer = performance_data evens (period_of 30 none none all_time (selected filters graded_bet)) (
    metrics_of (selected filters graded_bet) (some (negsuc 110))
      (some (ten_thousandths (pos 4_500))))

get_performance-Reported_example :
    Reported filters graded_bet answer.total_bets answer.total_wins answer.total_losses
      answer.total_pushes
unfolding get_performance selected fixed_runs numeric_runs sort_by
get_performance-Reported_example =
    get_performance-Reported graded_bet evens 30 (some nba) none none none all_time answer
      graded_bet-IsConsistent refl
