-- ===== src/Events/Subscriber/Safe.antt =====
-- What an event does to the database.
use bookie_breaker_bookie_em.Base.{ℕ, ◌≡◌, refl, ap, not, String, filter, All}
use bookie_breaker_bookie_em.Float.{Float}
use bookie_breaker_bookie_em.Core.Errors.{Error, ok, err}
use bookie_breaker_bookie_em.Db.Numeric.{Numeric}
use bookie_breaker_bookie_em.Db.Repository.Queries.{open_bets_for_game}
use bookie_breaker_bookie_em.Db.Repository.Consistent.{IsConsistent}
use bookie_breaker_bookie_em.Db.Repository.Consistent.Once.{IsGraded}
use bookie_breaker_bookie_em.Db.Repository.Consistent.Reach.{Reach, Reach-IsConsistent}
use bookie_breaker_bookie_em.Services.Action.{World, Context}
use bookie_breaker_bookie_em.Services.Grader.Game.{is_prop_bet, grade_game}
use bookie_breaker_bookie_em.Services.Grader.Commits.{lift-Commits}
use bookie_breaker_bookie_em.Services.Grader.Reached.{grade_game-Commits}
use bookie_breaker_bookie_em.Services.Grader.Cleared.{grade_game_clears}
use bookie_breaker_bookie_em.Events.Subscriber.{
  Reader, Payload, completed_of, handle, Loop, LoopStep, started, subscribed, received, skipped,
  closed, failed_to_subscribe, lost, slept, cancelled, cancelled_asleep,
}
use bookie_breaker_bookie_em.Events.Subscriber.Backoff.{LoopRun, at_start, then_step}

module _ {W : Type 0} ⦃f : Float W⦄ ⦃n : Numeric W⦄ (read : Reader) where
  pub handle-Reach :
      (c : Context W) (raw : String) (w : World W)
      → Reach W c.starting_bankroll_units w.db (handle c read raw w).db
  unfolding handle
  handle-Reach c raw w =
      lift-Commits c (read raw) (λ p. grade_game c p.game_id (completed_of p))
        (λ p _. grade_game-Commits c p.game_id (completed_of p)) w

  step-IsConsistent :
      {s t : Loop W} → LoopStep read s t → IsConsistent s.world.db → IsConsistent t.world.db
  step-IsConsistent (subscribed s h) k = k
  step-IsConsistent (received s c raw h) k =
      Reach-IsConsistent W c.starting_bankroll_units k (handle-Reach c raw s.world)
  step-IsConsistent (skipped s h) k = k
  step-IsConsistent (closed s h) k = k
  step-IsConsistent (failed_to_subscribe s h) k = k
  step-IsConsistent (lost s h) k = k
  step-IsConsistent (slept s h) k = k
  step-IsConsistent (cancelled s h) k = k
  step-IsConsistent (cancelled_asleep s h) k = k

  -- Whatever messages the subscriber receives, readable or not, and however often it loses redis, a
  -- consistent database stays consistent.
  pub LoopRun-IsConsistent :
      {w : World W} {s : Loop W}
      → IsConsistent w.db
      → LoopRun read (started w) s
      → IsConsistent s.world.db
  LoopRun-IsConsistent h at_start = h
  LoopRun-IsConsistent h (then_step r step) = step-IsConsistent step (LoopRun-IsConsistent h r)

  -- A payload that cannot be read changes nothing.
  pub handle_unreadable :
      (c : Context W) (raw : String) (w : World W) (e : Error)
      → read raw ≡ err e
      → handle c read raw w ≡ w
  unfolding handle
  handle_unreadable c raw w e h = rw h refl

  -- After an event whose payload can be read and whose game's grading returns, every bet on a score
  -- market that was open on the game is graded.
  pub handle_clears :
      (c : Context W) (raw : String) (w graded : World W) (p : Payload) (k : ℕ)
      → read raw ≡ ok p
      → grade_game c p.game_id (completed_of p) w ≡ (ok k, graded)
      → All
          (λ bet. IsGraded bet.id (handle c read raw w).db)
          (filter (λ bet. not (is_prop_bet bet)) (open_bets_for_game {W = W} p.game_id w.db))
  unfolding handle
  handle_clears c raw w graded p k readable ran =
      rw (readable, ap (λ r. r.1) ran)
        (grade_game_clears c p.game_id (completed_of p) k w graded ran)
