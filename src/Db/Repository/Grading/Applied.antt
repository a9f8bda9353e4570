-- ===== src/Db/Repository/Grading/Applied.antt =====
-- What a call of apply_grade has done, by its result.
use bookie_breaker_bookie_em.Base.{
  ℕ, ◌≡◌, ◌⊎◌, inl, inr, Bool, true, false, Option, List, [], ◌∷◌, ◌++◌, map, any, String, arith,
  Bool-cases,
}
use bookie_breaker_bookie_em.Base.Int.{ℤ}
use bookie_breaker_bookie_em.Domain.{Status}
use bookie_breaker_bookie_em.Float.{Float}
use bookie_breaker_bookie_em.Core.Errors.{Result, ok, ◌>>=◌, >>=-eq-ok}
use bookie_breaker_bookie_em.Db.Numeric.{Numeric}
use bookie_breaker_bookie_em.Db.Rows.{BetRow, GradeRow, SnapshotRow, Database}
use bookie_breaker_bookie_em.Db.Values.{GradeValues}
use bookie_breaker_bookie_em.Db.Repository.Grading.{
  claimed, claim, write_grade, grade_row, snapshot, apply_grade,
}

module _ {W : Type 0} ⦃f : Float W⦄ ⦃n : Numeric W⦄ (grade_id now bet_id : ℕ) (status : Status)
    (values : GradeValues W) (starting : W) (force : Bool) (db : Database) where
  abbrev pub claimed_bets : List BetRow
  claimed_bets = map (claim force bet_id status now) db.paper_bets

  -- A claim that succeeded: the parts of the transaction, and the database that it leaves.
  pub record Applied (db' : Database) : Type 0 where
    pub found : any (claimed force bet_id) db.paper_bets ≡ true
    pub new : GradeRow
    pub columns : Option (Option ℤ × Option String)
    pub grades : List GradeRow
    pub taken : SnapshotRow
    pub new_eq : grade_row grade_id bet_id now values ≡ ok (new, columns)
    pub grades_eq : write_grade force columns new db.bet_grades ≡ ok grades
    pub taken_eq : snapshot now starting claimed_bets grades ≡ ok taken
    pub after : db' ≡ record db {
      paper_bets = claimed_bets;
      bet_grades = grades;
      bankroll_snapshots = db.bankroll_snapshots ++ taken ∷ [];
    }

  pub apply_grade_inv :
      (db' : Database) (r : Bool)
      → apply_grade grade_id now bet_id status values starting force db ≡ ok (r, db')
      → ((r ≡ true) × Applied db')
        ⊎ ((r ≡ false) × (db' ≡ db) × (any (claimed force bet_id) db.paper_bets ≡ false))
  unfolding apply_grade
  apply_grade_inv db' r h = elim (Bool-cases (any (claimed force bet_id) db.paper_bets)) [
    | inr nothing ↦
        let same : ◌≡◌ {A = Result (Bool × Database)} (ok (false, db)) (ok (r, db')) =
          rw nothing at h in
        inr (ground arith, ground arith, nothing)
    | inl found ↦
        let ran : graded ≡ ok (r, db') = rw found at h in
        let (row, row_eq, wrote) = >>=-eq-ok (grade_row grade_id bet_id now values) write ran in
        let (grades, grades_eq, took) = >>=-eq-ok _ snap wrote in
        let (taken, taken_eq, done) = >>=-eq-ok _ (finish grades) took in
        inl (
          ground arith,
          record {
            found = found;
            new = row.0;
            columns = row.1;
            grades = grades;
            taken = taken;
            new_eq = row_eq;
            grades_eq = grades_eq;
            taken_eq = taken_eq;
            after = ground arith;
          },
        )
  ]
    where
      finish : List GradeRow → SnapshotRow → Result (Bool × Database)
      finish grades taken = ok (
        true,
        record db {
          paper_bets = claimed_bets;
          bet_grades = grades;
          bankroll_snapshots = db.bankroll_snapshots ++ taken ∷ [];
        },
      )

      snap : List GradeRow → Result (Bool × Database)
      snap grades = snapshot now starting claimed_bets grades >>= finish grades

      write : GradeRow × Option (Option ℤ × Option String) → Result (Bool × Database)
      write (new, columns) = write_grade force columns new db.bet_grades >>= snap

      graded : Result (Bool × Database)
      graded = grade_row grade_id bet_id now values >>= write
