-- ===== src/Services/Grader/Single.antt =====
-- The grade of one single bet: `_grade_one`, and the commit and the event that end every grade.
use bookie_breaker_bookie_em.Base.{ℕ, Bool, ◌&&◌, List, [], ◌∷◌, ◌++◌, if◌then◌else◌}
use bookie_breaker_bookie_em.Domain.{Status}
use bookie_breaker_bookie_em.Float.{Float}
use bookie_breaker_bookie_em.Core.Errors.{ok}
use bookie_breaker_bookie_em.Clients.{LineSnapshot}
use bookie_breaker_bookie_em.Db.Numeric.{Numeric}
use bookie_breaker_bookie_em.Db.Rows.{PaperBetRecord}
use bookie_breaker_bookie_em.Db.Values.{GradeValues}
use bookie_breaker_bookie_em.Db.Repository.Grading.{apply_grade}
use bookie_breaker_bookie_em.Services.Action.{
  committed, GradedEvent, Context, Action, pure, lift, ◌>>=◌, ◌>>◌,
}
use bookie_breaker_bookie_em.Services.Grader.Values.{Completed, score_grade}

module _ {W : Type 0} where
  -- bet_graded_payload
  unfoldable pub bet_graded_payload : PaperBetRecord W → Status → GradeValues W → GradedEvent W
  bet_graded_payload bet status values = record {
    bet_id = bet.id;
    game_id = bet.game_id;
    league = bet.league;
    market_type = bet.market_type;
    selection = bet.selection;
    sportsbook = bet.sportsbook_key;
    result = status;
    stake = bet.stake;
    profit_loss = values.profit_loss;
    clv = values.clv;
  }

  -- `if applied and self._redis is not None: await publish_bet_graded(...)`, which raises nothing
  unfoldable pub publish_bet_graded :
      Context W → Bool → PaperBetRecord W → Status → GradeValues W → Action W (Unit {0})
  unfolding bet_graded_payload
  publish_bet_graded c applied bet status values w = (
    ok tt,
    if applied && c.has_redis
        then record w { events = w.events ++ bet_graded_payload bet status values ∷ [] }
        else w,
  )

module _ {W : Type 0} ⦃f : Float W⦄ ⦃n : Numeric W⦄ where
  unfoldable pub repo_apply_grade : Context W → ℕ → Status → GradeValues W → Bool → Action W Bool
  repo_apply_grade c bet_id status values force w =
      committed
        (apply_grade w.next_id w.clock bet_id status values c.starting_bankroll_units force w.db) w

  -- apply_grade, then the event
  unfoldable pub commit_grade :
      Context W → PaperBetRecord W → Status → GradeValues W → Bool → Action W Bool
  unfolding repo_apply_grade publish_bet_graded
  commit_grade c bet status values force = do
    applied ← repo_apply_grade c bet.id status values force
    publish_bet_graded c applied bet status values
    pure applied

  unfoldable pub grade_one :
      Context W → Completed → PaperBetRecord W → List (LineSnapshot W) → Bool → Action W Bool
  grade_one c g bet closing_lines force = do
    graded ← lift (score_grade g bet closing_lines)
    commit_grade c bet graded.0 graded.1 force
