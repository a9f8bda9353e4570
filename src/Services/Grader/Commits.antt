-- ===== src/Services/Grader/Commits.antt =====
-- What a call of the grader does to the database is a sequence of the repository's transactions,
-- also when the call raises.
use bookie_breaker_bookie_em.Base.{ℕ, ◌≡◌, refl, Bool, true, false, Bool-cases, inl, inr}
use bookie_breaker_bookie_em.Domain.{Status}
use bookie_breaker_bookie_em.Float.{Float}
use bookie_breaker_bookie_em.Core.Errors.{Result, ok, err}
use bookie_breaker_bookie_em.Core.Grading.Decided.{IsDecided}
use bookie_breaker_bookie_em.Db.Numeric.{Numeric}
use bookie_breaker_bookie_em.Db.Rows.{Database, PaperBetRecord}
use bookie_breaker_bookie_em.Db.Values.{GradeValues}
use bookie_breaker_bookie_em.Db.Repository.Grading.{apply_grade}
use bookie_breaker_bookie_em.Db.Repository.Consistent.Reach.{leg_graded, graded, Reach, here, next}
use bookie_breaker_bookie_em.Services.Action.{
  committed, World, Context, Action, pure, lift, bind_result, ◌>>=◌, ◌>>◌,
}
use bookie_breaker_bookie_em.Services.Grader.Single.{
  repo_apply_grade, publish_bet_graded, commit_grade,
}
use bookie_breaker_bookie_em.Services.Grader.Legs.{repo_grade_leg}

module _ {W : Type 0} ⦃f : Float W⦄ ⦃n : Numeric W⦄ where
  -- Also a call that raises has committed all that it wrote.
  abbrev pub Commits : {A : Type 0} → Context W → Action W A → Type 0
  Commits c m = (w : World W) → Reach W c.starting_bankroll_units w.db (m w).1.db

  pub trans :
      {starting : W} {s t u : Database}
      → Reach W starting s t
      → Reach W starting t u
      → Reach W starting s u
  trans p here = p
  trans p (next q step) = next (trans p q) step

  module _ (c : Context W) where
    bind_result-commits :
        {A B : Type 0} (start : Database) (r : Result A) (k : A → Action W B) (w : World W)
        → Reach W c.starting_bankroll_units start w.db
        → ((a : A) → r ≡ ok a → Reach W c.starting_bankroll_units w.db (k a w).1.db)
        → Reach W c.starting_bankroll_units start (bind_result r k w).1.db
    bind_result-commits start (ok a) k w p h = trans p (h a refl)
    bind_result-commits start (err e) k w p h = p

    pub >>=-Commits :
        {A B : Type 0} (m : Action W A) (k : A → Action W B)
        → Commits c m
        → ((a : A) → Commits c (k a))
        → Commits c (m >>= k)
    >>=-Commits m k p h w = bind_result-commits w.db (m w).0 k (m w).1 (p w) (λ a _. h a (m w).1)

    pub lift-Commits :
        {A B : Type 0} (r : Result A) (k : A → Action W B)
        → ((a : A) → r ≡ ok a → Commits c (k a))
        → Commits c (lift r >>= k)
    lift-Commits r k h w = bind_result-commits w.db r k w here (λ a e. h a e w)

    committed-commits :
        (w : World W) (grade_id now bet_id : ℕ) (status : Status) (values : GradeValues W)
        (force : Bool) (r : Result (Bool × Database))
        → IsDecided status
        → apply_grade grade_id now bet_id status values c.starting_bankroll_units force w.db ≡ r
        → Reach W c.starting_bankroll_units w.db (committed r w).1.db
    committed-commits w id now i status v force (ok (r, db)) d e =
        next here (graded id now i status v force r d e)
    committed-commits w id now i status v force (err e) d _ = here

    publish_then : PaperBetRecord W → Status → GradeValues W → Bool → Action W Bool
    publish_then bet status values applied =
        publish_bet_graded c applied bet status values >> pure applied

    publishes :
        (applied : Bool) (bet : PaperBetRecord W) (status : Status) (values : GradeValues W)
        → Commits c (publish_then bet status values applied)
    unfolding publish_then publish_bet_graded
    publishes true bet status values w = elim (Bool-cases c.has_redis) [
      | inl on ↦ rw on here
      | inr off ↦ rw off here
    ]
    publishes false bet status values w = here

    pub commit_grade-Commits :
        (bet : PaperBetRecord W) (status : Status) (values : GradeValues W) (force : Bool)
        → IsDecided status
        → Commits c (commit_grade c bet status values force)
    unfolding commit_grade repo_apply_grade publish_then
    commit_grade-Commits bet status values force d =
        >>=-Commits (repo_apply_grade c bet.id status values force) (publish_then bet status values)
          (λ w. committed-commits w w.next_id w.clock bet.id status values force _ d refl)
          (λ applied. publishes applied bet status values)

    pub grade_leg-Commits :
        (leg_id : ℕ) (status : Status) → Commits c (repo_grade_leg leg_id status)
    unfolding repo_grade_leg
    grade_leg-Commits leg_id status w = next here (leg_graded leg_id status)
