-- ===== src/Core/Settlement.antt =====
-- core/settlement.py: which scores settle a market, and which leagues have three-way moneylines.
pub mod Scores
use bookie_breaker_bookie_em.Base.{Bool, true, false, Option, none, some}
use bookie_breaker_bookie_em.Base.Int.{ℤ}
use bookie_breaker_bookie_em.Domain.{
  League, nfl, nba, mlb, ncaa_fb, ncaa_bb, ncaa_bsb, fifa_wc, epl, nhl, ncaa_hky,
}

pub data Sport : Type 0 where
  football basketball baseball soccer hockey : Sport

unfoldable pub sport_by_league : League → Sport
sport_by_league nfl = football
sport_by_league ncaa_fb = football
sport_by_league nba = basketball
sport_by_league ncaa_bb = basketball
sport_by_league mlb = baseball
sport_by_league ncaa_bsb = baseball
sport_by_league fifa_wc = soccer
sport_by_league epl = soccer
sport_by_league nhl = hockey
sport_by_league ncaa_hky = hockey

-- membership in _THREE_WAY_MONEYLINE_SPORTS
abbrev three_way_sport : Sport → Bool
three_way_sport soccer = true
three_way_sport _ = false

unfoldable pub is_three_way_moneyline_league : League → Bool
unfolding sport_by_league
is_three_way_moneyline_league league = three_way_sport (sport_by_league league)

-- The score fields of an event payload or a game result.
pub record ScoreSource : Type 0 where
  pub home_score : ℤ
  pub away_score : ℤ
  pub regulation_home_score : Option ℤ
  pub regulation_away_score : Option ℤ

-- both regulation scores, where both are given
abbrev regulation : Option ℤ → Option ℤ → Option (ℤ × ℤ)
regulation (some h) (some a) = some (h, a)
regulation _ _ = none

abbrev or_final : ScoreSource → Option (ℤ × ℤ) → ℤ × ℤ
or_final s (some (h, a)) = (h, a)
or_final s none = (s.home_score, s.away_score)

abbrev scores_of_sport : Sport → ScoreSource → ℤ × ℤ
scores_of_sport soccer s = or_final s (regulation s.regulation_home_score s.regulation_away_score)
scores_of_sport _ s = (s.home_score, s.away_score)

unfoldable pub settlement_scores : ScoreSource → League → ℤ × ℤ
unfolding sport_by_league
settlement_scores source league = scores_of_sport (sport_by_league league) source
