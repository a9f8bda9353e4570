-- ===== src/Services/Poller/Sweep.antt =====
-- A game that fails stops neither the games before it nor those after it.
use mathlib.Core.Path.{subst}
use bookie_breaker_bookie_em.Base.{
  ℕ, ◌+◌, ◌-◌, ◌≡◌, refl, ap, sym, ◌∙◌, true, not, Option, none, some, List, [], ◌∷◌, ◌++◌, ◌⊎◌,
  filter, All, All-map, str_eq, Bool-cases, inl, inr,
}
use bookie_breaker_bookie_em.Float.{Float}
use bookie_breaker_bookie_em.Core.Errors.{Error, Result, ok, err}
use bookie_breaker_bookie_em.Clients.{Game, GameResult}
use bookie_breaker_bookie_em.Db.Numeric.{Numeric}
use bookie_breaker_bookie_em.Db.Repository.Queries.{open_bets_for_game}
use bookie_breaker_bookie_em.Db.Repository.Consistent.{IsConsistent}
use bookie_breaker_bookie_em.Db.Repository.Consistent.Once.{IsGraded, Reach-IsGraded}
use bookie_breaker_bookie_em.Db.Repository.Consistent.Reach.{here, Reach-IsConsistent}
use bookie_breaker_bookie_em.Services.Action.{World, Context, pure}
use bookie_breaker_bookie_em.Services.Grader.Game.{is_prop_bet, grade_game}
use bookie_breaker_bookie_em.Services.Grader.Manual.{completed_game}
use bookie_breaker_bookie_em.Services.Grader.Commits.{Commits, trans, >>=-Commits, lift-Commits}
use bookie_breaker_bookie_em.Services.Grader.Reached.{grade_game-Commits}
use bookie_breaker_bookie_em.Services.Grader.Cleared.{grade_game_clears}
use bookie_breaker_bookie_em.Services.Poller.{
  due_game_ids, or_none_graded, poll_result, poll_game, sweep, run_once, poll_cycle,
}

module _ {W : Type 0} ⦃f : Float W⦄ ⦃n : Numeric W⦄ (c : Context W) where
  poll_result-Commits :
      (game_id : ℕ) (game : Game) (result : Option GameResult)
      → Commits c (poll_result c game_id game result)
  poll_result-Commits game_id game none w = here
  poll_result-Commits game_id game (some result) w =
      elim (Bool-cases (str_eq game.status "FINAL")) [
        | inl e ↦ rw e (grade_game-Commits c game_id (completed_game game result) w)
        | inr e ↦ rw e here
      ]

  poll_game-Commits : (game_id : ℕ) → Commits c (poll_game c game_id)
  unfolding poll_game
  poll_game-Commits game_id =
      lift-Commits c (c.get_game game_id) (λ game. poll_result c game_id game game.result)
        (λ game _. poll_result-Commits game_id game game.result)

  pub sweep-Commits : (game_ids : List ℕ) → Commits c (sweep c game_ids)
  unfolding sweep
  sweep-Commits [] w = here
  sweep-Commits (game_id ∷ game_ids) w = trans (poll_game-Commits game_id w) (
      >>=-Commits c (sweep c game_ids)
        (λ rest. pure (or_none_graded (poll_game c game_id w).0 + rest)) (sweep-Commits game_ids)
        (λ _ _. here) (poll_game c game_id w).1)

  -- The sweep returns, whatever the games do.
  pub sweep_returns : (game_ids : List ℕ) (w : World W) → (k : ℕ) × ((sweep c game_ids w).0 ≡ ok k)
  unfolding sweep
  sweep_returns [] w = (0, refl)
  sweep_returns (game_id ∷ game_ids) w =
      let (k, e) = sweep_returns game_ids (poll_game c game_id w).1 in
      (or_none_graded (poll_game c game_id w).0 + k, rw e refl)

  -- The world after a sweep is the world after its parts.
  sweep_world-cons :
      (game_id : ℕ) (game_ids : List ℕ) (w : World W)
      → (sweep c (game_id ∷ game_ids) w).1 ≡ (sweep c game_ids (poll_game c game_id w).1).1
  unfolding sweep
  sweep_world-cons game_id game_ids w =
      rw ((sweep_returns game_ids (poll_game c game_id w).1).1) refl

  sweep_world-nil : (w : World W) → (sweep c [] w).1 ≡ w
  unfolding sweep
  sweep_world-nil w = refl

  sweep_world-append :
      (before after : List ℕ) (w : World W)
      → (sweep c (before ++ after) w).1 ≡ (sweep c after (sweep c before w).1).1
  sweep_world-append [] after w = ap (λ u. (sweep c after u).1) (sym (sweep_world-nil w))
  sweep_world-append (game_id ∷ before) after w =
      sweep_world-cons game_id (before ++ after) w
      ∙ sweep_world-append before after (poll_game c game_id w).1
      ∙ ap (λ u. (sweep c after u).1) (sym (sweep_world-cons game_id before w))

  poll_game-final :
      (game_id : ℕ) (game : Game) (result : GameResult) (u : World W)
      → c.get_game game_id ≡ ok game
      → game.result ≡ some result
      → str_eq game.status "FINAL" ≡ true
      → poll_game c game_id u ≡ grade_game c game_id (completed_game game result) u
  unfolding poll_game
  poll_game-final game_id game result u answered has_result final =
      rw (answered, ap (λ r. poll_result c game_id game r u) has_result, final) refl

  sweep_clears :
      (before : List ℕ) (game_id : ℕ) (after : List ℕ) (k : ℕ) (w graded : World W) (game : Game)
      (result : GameResult)
      → c.get_game game_id ≡ ok game
      → game.result ≡ some result
      → str_eq game.status "FINAL" ≡ true
      → grade_game c game_id (completed_game game result) (sweep c before w).1 ≡ (ok k, graded)
      → All
          (λ bet. IsGraded bet.id (sweep c (before ++ game_id ∷ after) w).1.db)
          (filter
            (λ bet. not (is_prop_bet bet))
            (open_bets_for_game {W = W} game_id (sweep c before w).1.db))
  sweep_clears before game_id after k w graded game result answered has_result final ran =
      let u = (sweep c before w).1 in
      let polled : (poll_game c game_id u).1 ≡ graded =
        ap (λ p. p.1) (poll_game-final game_id game result u answered has_result final ∙ ran) in
      let ended : (sweep c (before ++ game_id ∷ after) w).1 ≡ (sweep c after graded).1 =
        sweep_world-append before (game_id ∷ after) w
        ∙ sweep_world-cons game_id after u
        ∙ ap (λ v. (sweep c after v).1) polled in
      All-map (λ bet. IsGraded bet.id graded.db)
        (λ bet. IsGraded bet.id (sweep c (before ++ game_id ∷ after) w).1.db)
        (λ bet h.
          subst (λ v. IsGraded bet.id v.db) (sym ended)
            (Reach-IsGraded c.starting_bankroll_units bet.id h (sweep-Commits after graded)))
        (filter (λ bet. not (is_prop_bet bet)) (open_bets_for_game {W = W} game_id u.db))
        (grade_game_clears c game_id (completed_game game result) k u graded ran)

  -- In a cycle of the poller whose queries for due games answer, every game that is due, that
  -- statistics-service calls FINAL with a result, and whose grading returns, has its open bets on
  -- score markets graded at the end of the cycle, whatever happens to the games that the cycle takes
  -- before it and after it: an exception for one of them is swallowed.
  pub run_once_clears :
      (grace_seconds : ℕ) (before : List ℕ) (game_id : ℕ) (after : List ℕ) (k : ℕ)
      (w graded : World W) (game : Game) (result : GameResult)
      → due_game_ids (w.clock - grace_seconds) w.db ≡ before ++ game_id ∷ after
      → c.get_game game_id ≡ ok game
      → game.result ≡ some result
      → str_eq game.status "FINAL" ≡ true
      → grade_game c game_id (completed_game game result) (sweep c before w).1 ≡ (ok k, graded)
      → All
          (λ bet. IsGraded bet.id (run_once c grace_seconds (ok tt) w).1.db)
          (filter
            (λ bet. not (is_prop_bet bet))
            (open_bets_for_game {W = W} game_id (sweep c before w).1.db))
  unfolding run_once
  run_once_clears grace before game_id after k w graded game result due answered has final ran =
      rw due (sweep_clears before game_id after k w graded game result answered has final ran)

  pub run_once-Commits :
      (grace_seconds : ℕ) (queried : Result (Unit {0}))
      → Commits c (run_once c grace_seconds queried)
  unfolding run_once
  run_once-Commits grace_seconds queried =
      lift-Commits c queried (λ _ w. sweep c (due_game_ids (w.clock - grace_seconds) w.db) w)
        (λ _ _ w. sweep-Commits (due_game_ids (w.clock - grace_seconds) w.db) w)

  -- A cycle raises only what the two queries for due games raise, and has then changed nothing; when
  -- they answer, it returns a number, whatever happens to the games. In both cases the loop goes on
  -- with a database that is consistent if it was.
  pub run_once-IsConsistent :
      (grace_seconds : ℕ) (queried : Result (Unit {0})) (w : World W)
      → IsConsistent w.db
      → IsConsistent (poll_cycle c grace_seconds queried w).db
        × (((e : Error) × (queried ≡ err e) × (run_once c grace_seconds queried w ≡ (err e, w)))
            ⊎ ((k : ℕ) × (queried ≡ ok tt) × ((run_once c grace_seconds queried w).0 ≡ ok k)))
  unfolding poll_cycle run_once
  run_once-IsConsistent grace_seconds queried w h = (
    Reach-IsConsistent W c.starting_bankroll_units h (run_once-Commits grace_seconds queried w),
    outcome queried,
  )
    where
      outcome :
          (q : Result (Unit {0}))
          → ((e : Error) × (q ≡ err e) × (run_once c grace_seconds q w ≡ (err e, w)))
            ⊎ ((k : ℕ) × (q ≡ ok tt) × ((run_once c grace_seconds q w).0 ≡ ok k))
      outcome (err e) = inl (e, refl, refl)
      outcome (ok _) =
          let (k, e) = sweep_returns (due_game_ids (w.clock - grace_seconds) w.db) w in
          inr (k, refl, e)
