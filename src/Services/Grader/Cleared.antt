-- ===== src/Services/Grader/Cleared.antt =====
-- What a call of grade_game that returns has graded, and what one that raises has left.
use bookie_breaker_bookie_em.Base.{
  ℕ, ◌+◌, ◌≤◌, ◌<◌, ◌≡◌, refl, ap, Bool, false, not, ◌&&◌, List, [], ◌∷◌, map, filter, count, All,
  All-map, All-filter, arith, Bool-cases, inl, inr,
}
use mathlib.Core.Path.{subst}
use bookie_breaker_bookie_em.Domain.{Status}
use bookie_breaker_bookie_em.Float.{Float}
use bookie_breaker_bookie_em.Clients.{LineSnapshot}
use bookie_breaker_bookie_em.Core.Errors.{Result, ok, err}
use bookie_breaker_bookie_em.Core.Grading.Decided.{IsDecided}
use bookie_breaker_bookie_em.Db.Numeric.{Numeric}
use bookie_breaker_bookie_em.Db.Rows.{
  BetRow, Database, PaperBetRecord, ParlayLegRecord, bet_from_row,
}
use bookie_breaker_bookie_em.Db.Values.{GradeValues}
use bookie_breaker_bookie_em.Db.Repository.Grading.{apply_grade}
use bookie_breaker_bookie_em.Db.Repository.Queries.{open_bets_for_game, open_parlay_legs_for_game}
use bookie_breaker_bookie_em.Db.Repository.Consistent.{has_id}
use bookie_breaker_bookie_em.Db.Repository.Consistent.Once.{IsGraded, Reach-IsGraded}
use bookie_breaker_bookie_em.Db.Repository.Consistent.Stored.{
  IsStored, Reach-IsStored, apply_grade-IsGraded,
}
use bookie_breaker_bookie_em.Services.Action.{
  committed, World, Context, Action, pure, bind_result, ◌>>=◌, ◌>>◌,
}
use bookie_breaker_bookie_em.Services.Grader.Values.{Completed, score_grade}
use bookie_breaker_bookie_em.Services.Grader.Decided.{score_grade-IsDecided}
use bookie_breaker_bookie_em.Services.Grader.Single.{
  repo_apply_grade, publish_bet_graded, commit_grade, grade_one,
}
use bookie_breaker_bookie_em.Services.Grader.Props.{one_if}
use bookie_breaker_bookie_em.Services.Grader.Game.{
  fetch_closing, is_prop_bet, grade_score_bets, game_box, grade_others, grade_all, grade_open,
  grade_game,
}
use bookie_breaker_bookie_em.Services.Grader.Reached.{
  grade_one-Commits, score_bets-Commits, others-Commits,
}

module _ {W : Type 0} where
  -- Inversion of an action that returns.
  pub bind-eq-ok :
      {A B : Type 0} (r : Result A) (k : A → Action W B) (w w' : World W) (b : B)
      → bind_result r k w ≡ (ok b, w')
      → (a : A) × (r ≡ ok a) × (k a w ≡ (ok b, w'))
  bind-eq-ok (ok a) k w w' b h = (a, refl, h)
  bind-eq-ok (err e) k w w' b h = cc

  pub pair_of :
      {A : Type 0} (p : Result A × World W) {a : A} {w : World W}
      → p.0 ≡ ok a
      → p.1 ≡ w
      → p ≡ (ok a, w)
  pair_of p h e = ground arith

  pub committed-eq-ok :
      {A : Type 0} (r : Result (A × Database)) (w : World W) (applied : A)
      → (committed r w).0 ≡ ok applied
      → r ≡ ok (applied, (committed r w).1.db)
  committed-eq-ok (ok (a, db)) w applied h = ground arith
  committed-eq-ok (err e) w applied h = cc

module _ {W : Type 0} ⦃f : Float W⦄ ⦃n : Numeric W⦄ (c : Context W) where
  commit_grade-IsGraded :
      (bet : PaperBetRecord W) (status : Status) (values : GradeValues W) (force r : Bool)
      (w w' : World W)
      → IsDecided status
      → IsStored bet.id w.db
      → commit_grade c bet status values force w ≡ (ok r, w')
      → IsGraded bet.id w'.db
  unfolding commit_grade repo_apply_grade publish_bet_graded
  commit_grade-IsGraded bet status values force r w w' d s h =
      let (applied, ran, rest) = bind-eq-ok tried.0 then_publish tried.1 w' r h in
      rw (← ap (λ p. p.1.db) rest, publish_db applied tried.1)
        (apply_grade-IsGraded c.starting_bankroll_units w.next_id w.clock bet.id status values force
          applied w.db tried.1.db d s
          (committed-eq-ok
            (apply_grade w.next_id w.clock bet.id status values c.starting_bankroll_units force
              w.db)
            w applied ran))
    where
      tried : Result Bool × World W
      tried = repo_apply_grade c bet.id status values force w

      then_publish : Bool → Action W Bool
      then_publish applied = publish_bet_graded c applied bet status values >> pure applied

      publish_db : (applied : Bool) (u : World W) → (then_publish applied u).1.db ≡ u.db
      publish_db applied u = elim (Bool-cases (applied && c.has_redis)) [
        | inl on ↦ rw on
        | inr off ↦ rw off
      ]

  pub grade_one-IsGraded :
      (g : Completed) (bet : PaperBetRecord W) (lines : List (LineSnapshot W)) (force r : Bool)
      (w w' : World W)
      → IsStored bet.id w.db
      → grade_one c g bet lines force w ≡ (ok r, w')
      → IsGraded bet.id w'.db
  unfolding grade_one
  grade_one-IsGraded g bet lines force r w w' s h =
      let (graded, graded_eq, ran) =
        bind-eq-ok (score_grade g bet lines) (λ graded. commit_grade c bet graded.0 graded.1 force)
          w w' r h in
      commit_grade-IsGraded bet graded.0 graded.1 force r w w'
        (score_grade-IsDecided g bet lines graded graded_eq) s ran

  score_bets-IsGraded :
      (g : Completed) (bets : List (PaperBetRecord W)) (k : ℕ) (w w' : World W)
      → All (λ bet. IsStored bet.id w.db) bets
      → grade_score_bets c g bets w ≡ (ok k, w')
      → All (λ bet. IsGraded bet.id w'.db) bets
  unfolding grade_score_bets
  score_bets-IsGraded g [] k w w' s h = tt
  score_bets-IsGraded g (bet ∷ bets) k w w' (s, ss) h =
      let (applied, one_eq, ran) = bind-eq-ok one.0 others one.1 w' k h in
      let (rest, rest_eq, done) =
        bind-eq-ok (grade_score_bets c g bets one.1).0 (sum applied)
          (grade_score_bets c g bets one.1).1 w' k ran in
      let same : (grade_score_bets c g bets one.1).1 ≡ w' = ap (λ p. p.1) done in
      let graded : IsGraded bet.id one.1.db =
        grade_one-IsGraded g bet (fetch_closing c bet.game_external_id) false applied w one.1 s
          (pair_of one one_eq refl) in
      (
        rw (← same) (
            Reach-IsGraded c.starting_bankroll_units bet.id graded
              (score_bets-Commits c g bets one.1)),
        score_bets-IsGraded g bets rest one.1 w'
            (All-map (λ b. IsStored b.id w.db) (λ b. IsStored b.id one.1.db)
              (λ b stored.
                Reach-IsStored c.starting_bankroll_units b.id stored
                  (grade_one-Commits c g bet (fetch_closing c bet.game_external_id) false w))
              bets ss)
            (pair_of (grade_score_bets c g bets one.1) rest_eq same),
      )
    where
      one : Result Bool × World W
      one = grade_one c g bet (fetch_closing c bet.game_external_id) false w

      sum : Bool → ℕ → Action W ℕ
      sum applied rest = pure (one_if applied + rest)

      others : Bool → Action W ℕ
      others applied = grade_score_bets c g bets >>= sum applied

  stored_rows :
      (p : BetRow → Bool) (rows stored : List BetRow)
      → ((i : ℕ) → count (has_id i) rows ≤ count (has_id i) stored)
      → All (λ bet. 0 < count (has_id bet.id) stored) (map (bet_from_row {W = W}) (filter p rows))
  unfolding bet_from_row
  stored_rows p [] stored h = tt
  stored_rows p (b ∷ bs) stored h = elim (Bool-cases (p b)) [
    | inl kept ↦ rw kept (ground (arith, h b.id), stored_rows p bs stored later)
    | inr skipped ↦ rw skipped (stored_rows p bs stored later)
  ]
    where
      later : (i : ℕ) → count (has_id i) bs ≤ count (has_id i) stored
      later i = ground (arith, h i)

  open_bets-IsStored :
      (game_id : ℕ) (db : Database)
      → All (λ bet. IsStored bet.id db) (open_bets_for_game {W = W} game_id db)
  unfolding open_bets_for_game
  open_bets-IsStored game_id db = stored_rows _ db.paper_bets db.paper_bets (λ i. omega arith)

  score_bets : List (PaperBetRecord W) → List (PaperBetRecord W)
  score_bets bets = filter (λ bet. not (is_prop_bet bet)) bets

  grade_all-IsGraded :
      (game_id : ℕ) (g : Completed) (bets : List (PaperBetRecord W))
      (legs : List (ParlayLegRecord W)) (k : ℕ) (w w' : World W)
      → All (λ bet. IsStored bet.id w.db) (score_bets bets)
      → grade_all c game_id g bets legs w ≡ (ok k, w')
      → All (λ bet. IsGraded bet.id w'.db) (score_bets bets)
  unfolding score_bets
  grade_all-IsGraded game_id g bets legs k w w' s h =
      let first = grade_score_bets c g (score_bets bets) w in
      let (graded, first_eq, rest) =
        bind-eq-ok first.0 (grade_others c g (game_box c game_id bets legs) bets legs) first.1 w' k
          h in
      All-map (λ b. IsGraded b.id first.1.db) (λ b. IsGraded b.id w'.db)
        (λ b done.
          subst (λ u. IsGraded b.id u.1.db) rest
            (Reach-IsGraded c.starting_bankroll_units b.id done
              (others-Commits c g (game_box c game_id bets legs) bets legs graded first.1)))
        (score_bets bets)
        (score_bets-IsGraded g (score_bets bets) graded w first.1 s (pair_of first first_eq refl))

  grade_open-IsGraded :
      (game_id : ℕ) (g : Completed) (bets : List (PaperBetRecord W))
      (legs : List (ParlayLegRecord W)) (k : ℕ) (w w' : World W)
      → All (λ bet. IsStored bet.id w.db) (score_bets bets)
      → grade_open c game_id g bets legs w ≡ (ok k, w')
      → All (λ bet. IsGraded bet.id w'.db) (score_bets bets)
  unfolding grade_open score_bets
  grade_open-IsGraded game_id g [] [] k w w' s h = tt
  grade_open-IsGraded game_id g [] (leg ∷ legs) k w w' s h =
      grade_all-IsGraded game_id g [] (leg ∷ legs) k w w' s h
  grade_open-IsGraded game_id g (bet ∷ bets) legs k w w' s h =
      grade_all-IsGraded game_id g (bet ∷ bets) legs k w w' s h

  -- Once grade_game returns, every bet on a score market that was open on the game is graded.
  pub grade_game_clears :
      (game_id : ℕ) (g : Completed) (k : ℕ) (w w' : World W)
      → grade_game c game_id g w ≡ (ok k, w')
      → All
          (λ bet. IsGraded bet.id w'.db)
          (filter (λ bet. not (is_prop_bet bet)) (open_bets_for_game {W = W} game_id w.db))
  unfolding grade_game score_bets
  grade_game_clears game_id g k w w' h =
      grade_open-IsGraded game_id g (open_bets_for_game game_id w.db)
        (open_parlay_legs_for_game game_id w.db) k w w'
        (All-filter (λ bet. IsStored bet.id w.db) (λ bet. not (is_prop_bet bet))
          (open_bets_for_game {W = W} game_id w.db) (open_bets-IsStored game_id w.db))
        h
