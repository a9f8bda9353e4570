-- ===== src/Services/Grader/Props.antt =====
-- The grading of player props from the box score: `_grade_props`, `_apply_prop_grade` and
-- `_fetch_box_score`.
use bookie_breaker_bookie_em.Base.{
  ℕ, ◌+◌, Bool, true, false, Option, none, some, List, [], ◌∷◌, String, filter,
}
use bookie_breaker_bookie_em.Base.Int.{◌+ℤ◌, ◌-ℤ◌}
use bookie_breaker_bookie_em.Domain.{Status, player_prop, eq_market}
use bookie_breaker_bookie_em.Float.{Float}
use bookie_breaker_bookie_em.Core.Errors.{ok, err}
use bookie_breaker_bookie_em.Core.Grading.{profit_loss}
use bookie_breaker_bookie_em.Core.Props.{Resolved, resolved, unresolved, resolve_player_prop}
use bookie_breaker_bookie_em.Clients.{BoxScore}
use bookie_breaker_bookie_em.Db.Numeric.{Numeric}
use bookie_breaker_bookie_em.Db.Rows.{PaperBetRecord}
use bookie_breaker_bookie_em.Db.Values.{GradeValues}
use bookie_breaker_bookie_em.Services.Action.{Context, Action, pure, ◌>>=◌}
use bookie_breaker_bookie_em.Services.Grader.Values.{Completed, or_default}
use bookie_breaker_bookie_em.Services.Grader.Single.{commit_grade}

-- `1 if applied else 0`
abbrev pub one_if : Bool → ℕ
one_if true = 1
one_if false = 0

module _ {W : Type 0} where
  -- `_fetch_box_score`: every exception is logged and gives None.
  unfoldable pub fetch_box_score : Context W → ℕ → Option BoxScore
  fetch_box_score c game_id = elim (c.get_box_score game_id) [ ok box ↦ some box | err e ↦ none ]

  abbrev pub is_player_prop : PaperBetRecord W → Bool
  is_player_prop bet = eq_market bet.market_type player_prop

module _ {W : Type 0} ⦃f : Float W⦄ where
  -- The final scores, also where a league settles on regulation scores: box scores include extra time.
  unfoldable pub prop_values : Completed → PaperBetRecord W → Status → String → W → GradeValues W
  prop_values g bet status description actual =
      let home = g.scores.home_score in
      let away = g.scores.away_score in
      record {
        actual_result = description;
        actual_home_score = some home;
        actual_away_score = some away;
        actual_margin = some (or_default g.margin (home -ℤ away));
        actual_total = some (or_default g.total (home +ℤ away));
        game_result_id = g.game_result_id;
        profit_loss = profit_loss status bet.stake bet.odds_decimal;
        closing_line_value = none;
        closing_odds = none;
        clv = none;
        prop_columns = some (actual, bet.stat_type);
      }

  unfoldable pub resolve_bet : Context W → BoxScore → PaperBetRecord W → Resolved W
  resolve_bet c box bet =
      resolve_player_prop c.unicode box bet.player_external_id bet.stat_type bet.prop_type bet.side
        bet.line_value

module _ {W : Type 0} ⦃f : Float W⦄ ⦃n : Numeric W⦄ where
  unfoldable pub apply_prop_grade :
      Context W → Completed → PaperBetRecord W → Status → String → W → Bool → Action W Bool
  apply_prop_grade c g bet status description actual force =
      commit_grade c bet status (prop_values g bet status description actual) force

  -- A prop that the box score does not resolve stays OPEN.
  abbrev pub grade_resolved : Context W → Completed → PaperBetRecord W → Resolved W → Action W Bool
  grade_resolved c g bet (unresolved reason) = pure false
  grade_resolved c g bet (resolved status description actual) =
      apply_prop_grade c g bet status description actual false

  unfoldable pub grade_player_props :
      Context W → Completed → BoxScore → List (PaperBetRecord W) → Action W ℕ
  grade_player_props c g box [] = pure 0
  grade_player_props c g box (bet ∷ bets) = do
    applied ← grade_resolved c g bet (resolve_bet c box bet)
    rest ← grade_player_props c g box bets
    pure (one_if applied + rest)

  -- TEAM_PROP and GAME_PROP bets are skipped.
  unfoldable pub grade_props :
      Context W → Completed → Option BoxScore → List (PaperBetRecord W) → Action W ℕ
  grade_props c g none prop_bets = pure 0
  grade_props c g (some box) prop_bets =
      grade_player_props c g box (filter is_player_prop prop_bets)
