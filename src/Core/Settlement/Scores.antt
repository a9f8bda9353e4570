-- ===== src/Core/Settlement/Scores.antt =====
-- Which leagues the regulation scores matter for (core/settlement.py, settlement_scores).
use bookie_breaker_bookie_em.Base.{some}
use bookie_breaker_bookie_em.Base.Int.{ℤ, pos}
use bookie_breaker_bookie_em.Core.Settlement.{ScoreSource}

abbrev pub final_scores : ScoreSource → ℤ × ℤ
final_scores s = (s.home_score, s.away_score)

-- a match that was level after ninety minutes and won in extra time
abbrev extra_time : ScoreSource
extra_time = record {
  home_score = pos 2;
  away_score = pos 1;
  regulation_home_score = some (pos 1);
  regulation_away_score = some (pos 1);
}
