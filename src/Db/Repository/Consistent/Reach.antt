-- ===== src/Db/Repository/Consistent/Reach.antt =====
-- Any interleaving of the repository's transactions, by any number of graders and requests, as a
-- step relation; each method commits as a whole or leaves no step.
use bookie_breaker_bookie_em.Base.{ℕ, ◌≡◌, refl, Bool, false, List, [], arith}
use bookie_breaker_bookie_em.Domain.{Status, opened, eq_status}
use bookie_breaker_bookie_em.Float.{Float}
use bookie_breaker_bookie_em.Core.Errors.{ok}
use bookie_breaker_bookie_em.Db.Numeric.{Numeric}
use bookie_breaker_bookie_em.Db.Rows.{Database, PaperBetRecord, ParlayLegRecord}
use bookie_breaker_bookie_em.Db.Values.{BetValues, LegValues, GradeValues}
use bookie_breaker_bookie_em.Db.Repository.Grading.{apply_grade, grade_leg}
use bookie_breaker_bookie_em.Db.Repository.Inserts.{insert_idempotent, insert_parlay}
use bookie_breaker_bookie_em.Db.Repository.Consistent.{IsConsistent}
use bookie_breaker_bookie_em.Db.Repository.Consistent.Graded.{
  apply_grade-IsConsistent, grade_leg-IsConsistent,
}
use bookie_breaker_bookie_em.Db.Repository.Consistent.Placed.{
  insert_idempotent-IsConsistent, insert_parlay-IsConsistent,
}

abbrev pub empty : Database
empty = record { paper_bets = []; bet_grades = []; parlay_legs = []; bankroll_snapshots = [] }

pub empty-IsConsistent : IsConsistent empty
empty-IsConsistent = record {
  unique_ids = λ i. omega arith;
  unique_keys = λ k. omega arith;
  one_grade = λ i. refl;
  unique_legs = λ i index. omega arith;
}

module _ (W : Type 0) ⦃f : Float W⦄ ⦃n : Numeric W⦄ (starting : W) where
  -- One committed transaction. Graders never write the status OPEN.
  pub data Step : Database → Database → Type 0 where
    placed :
        {db db' : Database} (id now : ℕ) (v : BetValues W) (result : PaperBetRecord W × Bool)
        → insert_idempotent id now v db ≡ ok (result, db')
        → Step db db'
    placed_parlay :
        {db db' : Database} (id first now : ℕ) (v : BetValues W) (legs : List (LegValues W))
        (result : PaperBetRecord W × List (ParlayLegRecord W) × Bool)
        → insert_parlay id first now v legs db ≡ ok (result, db')
        → Step db db'
    leg_graded :
        {db : Database} (leg_id : ℕ) (status : Status) → Step db (grade_leg leg_id status db).1
    graded :
        {db db' : Database} (id now bet_id : ℕ) (status : Status) (v : GradeValues W)
        (force r : Bool)
        → eq_status status opened ≡ false
        → apply_grade id now bet_id status v starting force db ≡ ok (r, db')
        → Step db db'

  pub data Reach (db : Database) : Database → Type 0 where
    here : Reach db db
    next : {t u : Database} → Reach db t → Step t u → Reach db u

  Step-IsConsistent : {db db' : Database} → Step db db' → IsConsistent db → IsConsistent db'
  Step-IsConsistent {db = db} {db' = db'} (placed id now v result e) h =
      insert_idempotent-IsConsistent id now v db db' result h e
  Step-IsConsistent {db = db} {db' = db'} (placed_parlay id first now v legs result e) h =
      insert_parlay-IsConsistent id first now v legs db db' result h e
  Step-IsConsistent {db = db} (leg_graded leg_id status) h =
      grade_leg-IsConsistent leg_id status db h
  Step-IsConsistent {db = db} (graded id now bet_id status v force r d e) h =
      apply_grade-IsConsistent id now bet_id status v starting force db d h r e

  -- Whatever transactions are committed, in whatever order, a consistent database stays consistent.
  pub Reach-IsConsistent : {db db' : Database} → IsConsistent db → Reach db db' → IsConsistent db'
  Reach-IsConsistent h here = h
  Reach-IsConsistent h (next r s) = Step-IsConsistent s (Reach-IsConsistent h r)
