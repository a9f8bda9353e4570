-- ===== src/Services/Poller.antt =====
-- services/poller.py: the cycles of the fallback poller. Cancellation is not modelled.
pub mod Due
pub mod Sweep
use bookie_breaker_bookie_em.Base.{
  ℕ, ◌+◌, ◌-◌, Option, none, some, List, [], ◌∷◌, ◌++◌, str_eq, if◌then◌else◌,
}
use bookie_breaker_bookie_em.Float.{Float}
use bookie_breaker_bookie_em.Core.Errors.{Result, ok, err}
use bookie_breaker_bookie_em.Clients.{Game, GameResult}
use bookie_breaker_bookie_em.Db.Numeric.{Numeric}
use bookie_breaker_bookie_em.Db.Rows.{Database}
use bookie_breaker_bookie_em.Db.Repository.Queries.{
  distinct, open_game_ids_started_before, open_parlay_leg_game_ids_started_before,
}
use bookie_breaker_bookie_em.Services.Action.{World, Context, Action, pure, lift, ◌>>=◌, ◌>>◌}
use bookie_breaker_bookie_em.Services.Grader.Game.{grade_game}
use bookie_breaker_bookie_em.Services.Grader.Manual.{completed_game}

-- `dict.fromkeys((*game_ids, *leg_game_ids))`
unfoldable pub due_game_ids : ℕ → Database → List ℕ
unfolding distinct open_game_ids_started_before open_parlay_leg_game_ids_started_before
due_game_ids cutoff db =
    distinct
      (open_game_ids_started_before cutoff db ++ open_parlay_leg_game_ids_started_before cutoff db)

abbrev pub or_none_graded : Result ℕ → ℕ
or_none_graded (ok graded) = graded
or_none_graded (err e) = 0

module _ {W : Type 0} where
  -- `except Exception`: nothing is added, and what was committed stays.
  abbrev pub swallowed : Action W ℕ → Action W ℕ
  swallowed m w = (ok (or_none_graded (m w).0), (m w).1)

module _ {W : Type 0} ⦃f : Float W⦄ ⦃n : Numeric W⦄ where
  abbrev pub poll_result : Context W → ℕ → Game → Option GameResult → Action W ℕ
  poll_result c game_id game none = pure 0
  poll_result c game_id game (some result) =
      if str_eq game.status "FINAL"
      then grade_game c game_id (completed_game game result)
      else pure 0

  -- the body of the `try`
  unfoldable pub poll_game : Context W → ℕ → Action W ℕ
  poll_game c game_id = lift (c.get_game game_id) >>= λ game. poll_result c game_id game game.result

  unfoldable pub sweep : Context W → List ℕ → Action W ℕ
  unfolding poll_game
  sweep c [] = pure 0
  sweep c (game_id ∷ game_ids) = swallowed (poll_game c game_id) >>= λ graded.
      sweep c game_ids >>= λ rest. pure (graded + rest)

  -- `queried` is how the two queries for due games end: outside the `try`, so that an exception of
  -- the database ends the cycle.
  unfoldable pub run_once : Context W → ℕ → Result (Unit {0}) → Action W ℕ
  unfolding due_game_ids sweep
  run_once c grace_seconds queried =
      lift queried >> λ w. sweep c (due_game_ids (w.clock - grace_seconds) w.db) w

  -- The body of the loop of `run`, after the sleep: an exception of the cycle is logged and dropped.
  unfoldable pub poll_cycle : Context W → ℕ → Result (Unit {0}) → World W → World W
  unfolding run_once
  poll_cycle c grace_seconds queried w = (run_once c grace_seconds queried w).1
