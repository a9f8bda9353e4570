-- ===== src/Tests/Grader.antt =====
-- Tests of services/grader.py.
use bookie_breaker_bookie_em.Base.{◌≡◌, refl, not, some, [], ◌∷◌, filter, All, arith}
use bookie_breaker_bookie_em.Domain.{moneyline, draw}
use bookie_breaker_bookie_em.Float.Fixed.{Fixed, fixed_float, fixed_runs}
use bookie_breaker_bookie_em.Core.Errors.{IsOk}
use bookie_breaker_bookie_em.Core.Grading.{grade_bet, settle, profit_loss}
use bookie_breaker_bookie_em.Core.Odds.{implied_probability}
use bookie_breaker_bookie_em.Core.Clv.{match_closing_line, compute_clv}
use bookie_breaker_bookie_em.Core.Settlement.{settlement_scores, is_three_way_moneyline_league}
use bookie_breaker_bookie_em.Db.Numeric.{fixed_numeric, numeric_runs}
use bookie_breaker_bookie_em.Db.Rows.{BetRow, Database, bet_from_row}
use bookie_breaker_bookie_em.Db.Repository.Queries.{open_bets_for_game, open_parlay_legs_for_game}
use bookie_breaker_bookie_em.Db.Repository.Consistent.{IsConsistent}
use bookie_breaker_bookie_em.Db.Repository.Consistent.Once.{IsGraded}
use bookie_breaker_bookie_em.Services.Action.{World}
use bookie_breaker_bookie_em.Db.Repository.Grading.{grading_runs}
use bookie_breaker_bookie_em.Services.Grader.Values.{score_grade, grade_selection, closing_values}
use bookie_breaker_bookie_em.Services.Grader.Single.{
  grade_one, commit_grade, repo_apply_grade, publish_bet_graded,
}
use bookie_breaker_bookie_em.Services.Grader.Props.{grade_props, grade_player_props}
use bookie_breaker_bookie_em.Services.Grader.Legs.{grade_parlay_legs, grade_legs, settle_parents}
use bookie_breaker_bookie_em.Services.Grader.Game.{
  is_prop_bet, grade_game, grade_open, grade_others, grade_score_bets, game_box, fetch_closing,
}
use bookie_breaker_bookie_em.Services.Grader.Reached.{grade_game-IsConsistent}
use bookie_breaker_bookie_em.Services.Grader.Cleared.{grade_game_clears}
use bookie_breaker_bookie_em.Services.Grader.Aborts.{grade_game_aborts}
use bookie_breaker_bookie_em.Tests.Data.{context, completed, world_of}
use bookie_breaker_bookie_em.Tests.Stored.{first_row, one_bet, one_bet-IsConsistent}

grade_game-IsConsistent_example :
    IsConsistent (grade_game context 7 completed (world_of one_bet)).1.db
grade_game-IsConsistent_example =
    grade_game-IsConsistent context 7 completed (world_of one_bet) one_bet-IsConsistent

-- the home team covers 3.5
abbrev after_game : World Fixed
after_game = (grade_game context 7 completed (world_of one_bet)).1

grade_game_clears_example :
    All
      (λ bet. IsGraded bet.id after_game.db)
      (filter (λ bet. not (is_prop_bet bet)) (open_bets_for_game {W = Fixed} 7 one_bet))
unfolding grade_game grade_open grade_others grade_score_bets game_box fetch_closing grade_one
    commit_grade repo_apply_grade publish_bet_graded score_grade grade_selection closing_values
    grade_bet settle match_closing_line compute_clv implied_probability profit_loss
    settlement_scores is_three_way_moneyline_league grade_props grade_player_props grade_parlay_legs
    grade_legs settle_parents open_bets_for_game open_parlay_legs_for_game grading_runs fixed_runs
    numeric_runs
grade_game_clears_example =
    grade_game_clears context 7 completed 1 (world_of one_bet) after_game refl

-- a draw on a moneyline of the NBA
abbrev bad_row : BetRow
bad_row = record first_row { market_type = moneyline; side = some draw }

abbrev bad_bet : Database
bad_bet = record one_bet { paper_bets = bad_row ∷ [] }

grade_game_aborts_example :
    (¬ (IsOk (grade_game context 7 completed (world_of bad_bet)).0))
    × ((grade_game context 7 completed (world_of bad_bet)).1.db.parlay_legs ≡ [])
unfolding open_bets_for_game bet_from_row is_three_way_moneyline_league fixed_runs numeric_runs
grade_game_aborts_example =
    grade_game_aborts context completed 7 [] (bet_from_row bad_row) [] (world_of bad_bet) refl
      (λ gradable. ground arith)
