-- ===== src/Services/Grader/Values.antt =====
-- The grade of a score market, before it is written: the first half of `_grade_one`.
use bookie_breaker_bookie_em.Base.{
  ℕ, Bool, not, ◌&&◌, Option, none, some, List, String, if◌then◌else◌,
}
use bookie_breaker_bookie_em.Base.Int.{ℤ, pos, eq_ℤ, ◌+ℤ◌, ◌-ℤ◌}
use bookie_breaker_bookie_em.Domain.{Status, Market, moneyline, eq_market, League, Side}
use bookie_breaker_bookie_em.Float.{Float}
use bookie_breaker_bookie_em.Clients.{LineSnapshot}
use bookie_breaker_bookie_em.Core.Errors.{Result, ok, ◌>>=◌}
use bookie_breaker_bookie_em.Core.Settlement.{
  ScoreSource, settlement_scores, is_three_way_moneyline_league,
}
use bookie_breaker_bookie_em.Core.Grading.{grade_bet, profit_loss}
use bookie_breaker_bookie_em.Core.Clv.{match_closing_line, compute_clv}
use bookie_breaker_bookie_em.Db.Rows.{PaperBetRecord}
use bookie_breaker_bookie_em.Db.Values.{GradeValues}

-- The arguments of grade_game: a completed game.
pub record Completed : Type 0 where
  pub scores : ScoreSource
  pub total : Option ℤ
  pub margin : Option ℤ
  pub home_team : Option String
  pub away_team : Option String
  pub game_result_id : Option ℕ

-- `_or_default`
abbrev pub or_default : Option ℤ → ℤ → ℤ
or_default none d = d
or_default (some v) d = v

-- `(settle_home, settle_away) != (home_score, away_score)`
abbrev pub regulation_used : ScoreSource → ℤ × ℤ → Bool
regulation_used s (h, a) = not (eq_ℤ h s.home_score && eq_ℤ a s.away_score)

abbrev pub margin_value : Completed → ℤ × ℤ → ℤ
margin_value g (h, a) =
    if regulation_used g.scores (h, a)
    then h -ℤ a
    else or_default g.margin (g.scores.home_score -ℤ g.scores.away_score)

abbrev pub total_value : Completed → ℤ × ℤ → ℤ
total_value g (h, a) =
    if regulation_used g.scores (h, a)
    then h +ℤ a
    else or_default g.total (g.scores.home_score +ℤ g.scores.away_score)

-- `is_three_way_moneyline_league(league) and market_type == "MONEYLINE"`
abbrev pub three_way : League → Market → Bool
three_way league market = is_three_way_moneyline_league league && eq_market market moneyline

module _ {W : Type 0} ⦃f : Float W⦄ where
  -- A market of a league graded on the scores that settle it, as for bets and for parlay legs.
  unfoldable pub grade_selection :
      Completed → League → Market → Option Side → Option W → Result (Status × String)
  grade_selection g league market side line_value =
      let settled = settlement_scores g.scores league in
      grade_bet market side line_value settled.0 settled.1 g.home_team g.away_team
        (three_way league market)

  -- closing_line_value, closing_odds and clv
  unfoldable pub closing_values :
      PaperBetRecord W → Option (LineSnapshot W) → Result (Option W × Option ℤ × Option W)
  closing_values bet none = ok (none, none, none)
  closing_values bet (some closing) =
      let compared : Result (Option W × Option ℤ × Option W) =
        compute_clv bet.odds_american closing.odds_american >>= λ clv.
        ok (closing.line_value, some closing.odds_american, some clv) in
      if eq_ℤ closing.odds_american (pos 0) then ok (none, none, none) else compared

  abbrev pub score_values :
      Completed
      → PaperBetRecord W
      → Status × String
      → Option W × Option ℤ × Option W
      → GradeValues W
  score_values g bet (status, description) (closing_line, closing_odds, clv) =
      let settled = settlement_scores g.scores bet.league in
      record {
        actual_result = description;
        actual_home_score = some settled.0;
        actual_away_score = some settled.1;
        actual_margin = some (margin_value g settled);
        actual_total = some (total_value g settled);
        game_result_id = g.game_result_id;
        profit_loss = profit_loss status bet.stake bet.odds_decimal;
        closing_line_value = closing_line;
        closing_odds = closing_odds;
        clv = clv;
        prop_columns = none;
      }

  unfoldable pub score_grade :
      Completed → PaperBetRecord W → List (LineSnapshot W) → Result (Status × GradeValues W)
  unfolding grade_selection closing_values
  score_grade g bet closing_lines = do
    graded ← grade_selection g bet.league bet.market_type bet.side bet.line_value
    closing ← closing_values bet (
        match_closing_line closing_lines bet.market_type bet.side bet.sportsbook_key bet.line_value)
    ok (graded.0, score_values g bet graded closing)
