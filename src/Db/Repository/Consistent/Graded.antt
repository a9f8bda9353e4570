-- ===== src/Db/Repository/Consistent/Graded.antt =====
-- grade_leg and apply_grade keep the database consistent.
use bookie_breaker_bookie_em.Base.{
  ℕ, ◌≤◌, ◌≡◌, ◌≢◌, inl, inr, Bool, true, false, Option, List, [], ◌∷◌, ◌++◌, map, String, count,
  count-append, count-map, any, arith, Bool-cases, ◌∙◌,
}
use native.Mathlib.Decide.{ℕ_discrete}
use bookie_breaker_bookie_em.Base.Int.{ℤ}
use bookie_breaker_bookie_em.Domain.{Status, opened, eq_status}
use bookie_breaker_bookie_em.Float.{Float}
use bookie_breaker_bookie_em.Core.Errors.{ok, ok-injective}
use bookie_breaker_bookie_em.Db.Numeric.{Numeric}
use bookie_breaker_bookie_em.Db.Rows.{LegRow, GradeRow, Database}
use bookie_breaker_bookie_em.Db.Values.{GradeValues}
use bookie_breaker_bookie_em.Db.Repository.Grading.{
  claim, grade_row, grades_bet, write_grade, apply_grade, set_leg_status, leg_claimed, grade_leg,
}
use bookie_breaker_bookie_em.Db.Repository.Grading.Applied.{Applied, apply_grade_inv}
use bookie_breaker_bookie_em.Db.Repository.Consistent.{IsConsistent, is_graded, at_index}
use bookie_breaker_bookie_em.Db.Repository.Consistent.Claims.{
  count_id-claim, count_key-claim, count_graded-claim_ne, count_graded-claim_self, claimed-exists,
  count-upsert_self, count-upsert_ne, count-zero_of_any, graded-le,
}

module _ {W : Type 0} ⦃f : Float W⦄ ⦃n : Numeric W⦄ where
  -- The row is written for the bet that was asked for.
  bet_id-grade_row :
      (id bet_id now : ℕ) (v : GradeValues W) (new : GradeRow)
      (columns : Option (Option ℤ × Option String))
      → grade_row id bet_id now v ≡ ok (new, columns)
      → new.bet_id ≡ bet_id
  unfolding grade_row
  bet_id-grade_row id bet_id now v new columns h = ground arith

-- One row of the bet after the write, if there was at most one before; other bets keep theirs.
module _ (columns : Option (Option ℤ × Option String)) (new : GradeRow) (old : List GradeRow)
    {grades : List GradeRow} where
  written_self :
      (force : Bool)
      → write_grade force columns new old ≡ ok grades
      → count (grades_bet new.bet_id) old ≤ 1
      → count (grades_bet new.bet_id) grades ≡ 1
  unfolding write_grade
  written_self true w h = rw (← ok-injective w) (count-upsert_self columns new old h)
  written_self false w h = elim (Bool-cases (any (grades_bet new.bet_id) old)) [
    | inl taken ↦ cc (rw taken at w)
    | inr free ↦
        let e : old ++ new ∷ [] ≡ grades = ok-injective (rw free at w) in
        rw (← e, count-append) (ground (arith, count-zero_of_any new.bet_id old free))
  ]

  written_ne :
      (force : Bool) (i : ℕ)
      → write_grade force columns new old ≡ ok grades
      → i ≢ new.bet_id
      → count (grades_bet i) grades ≡ count (grades_bet i) old
  unfolding write_grade
  written_ne true i w ne = rw (← ok-injective w) (count-upsert_ne columns new i old ne)
  written_ne false i w ne = elim (Bool-cases (any (grades_bet new.bet_id) old)) [
    | inl taken ↦ cc (rw taken at w)
    | inr free ↦
        let e : old ++ new ∷ [] ≡ grades = ok-injective (rw free at w) in
        rw (← e, count-append) (ground arith)
  ]

module _ {W : Type 0} ⦃f : Float W⦄ ⦃n : Numeric W⦄ (grade_id now bet_id : ℕ) (status : Status)
    (values : GradeValues W) (starting : W) (force : Bool) (db : Database) {db' : Database}
    (decided : eq_status status opened ≡ false) (before : IsConsistent db) where
  -- The counts of the bet's grade rows and of its graded rows agree after the transaction.
  one_grade-Applied :
      (a : Applied grade_id now bet_id status values starting force db db') (i : ℕ)
      → count (grades_bet i) a.grades
        ≡ count (is_graded i) (map (claim force bet_id status now) db.paper_bets)
  one_grade-Applied a i = elim (ℕ_discrete i bet_id) [
    | yes e ↦ rw e self
    | no ne ↦
        rw
          (
            written_ne a.columns a.new db.bet_grades force i a.grades_eq (λ e. ne (e ∙ same)),
            count_graded-claim_ne force bet_id now status db.paper_bets i ne,
          )
          (before.one_grade i)
  ]
    where
      same : a.new.bet_id ≡ bet_id
      same = bet_id-grade_row grade_id bet_id now values a.new a.columns a.new_eq

      few : count (grades_bet a.new.bet_id) db.bet_grades ≤ 1
      few = rw same (
          omega (
            arith,
            before.one_grade bet_id,
            graded-le bet_id db.paper_bets,
            before.unique_ids bet_id,
          ))

      once : count (grades_bet bet_id) a.grades ≡ 1
      once = rw same at (written_self a.columns a.new db.bet_grades force a.grades_eq few)

      self :
          count (grades_bet bet_id) a.grades
          ≡ count (is_graded bet_id) (map (claim force bet_id status now) db.paper_bets)
      self =
          rw (once, count_graded-claim_self force bet_id now status db.paper_bets decided)
            (omega
              (arith, claimed-exists force bet_id db.paper_bets a.found, before.unique_ids bet_id))

  Applied-IsConsistent :
      Applied grade_id now bet_id status values starting force db db' → IsConsistent db'
  Applied-IsConsistent a = rw a.after (record {
    unique_ids = λ i. rw (count_id-claim force bet_id now status) (before.unique_ids i);
    unique_keys = λ k. rw (count_key-claim force bet_id now status) (before.unique_keys k);
    one_grade = one_grade-Applied a;
    unique_legs = before.unique_legs;
  })

  -- Grading a bet with a status other than OPEN, forced or not, keeps the database consistent.
  pub apply_grade-IsConsistent :
      (r : Bool)
      → apply_grade grade_id now bet_id status values starting force db ≡ ok (r, db')
      → IsConsistent db'
  apply_grade-IsConsistent r h =
      elim (apply_grade_inv grade_id now bet_id status values starting force db db' r h) [
        | inl (_, a) ↦ Applied-IsConsistent a
        | inr (_, same, _) ↦ rw same before
      ]

index-set_leg_status :
    (leg_id : ℕ) (status : Status) (i index : ℕ) (l : LegRow)
    → at_index i index (set_leg_status leg_id status l) ≡ at_index i index l
index-set_leg_status leg_id status i index l = elim (Bool-cases (leg_claimed leg_id l)) [
  | inl c ↦ rw c
  | inr c ↦ rw c
]

-- Grading a leg keeps the database consistent.
pub grade_leg-IsConsistent :
    (leg_id : ℕ) (status : Status) (db : Database)
    → IsConsistent db
    → IsConsistent (grade_leg leg_id status db).1
unfolding grade_leg
grade_leg-IsConsistent leg_id status db h = record {
  unique_ids = h.unique_ids;
  unique_keys = h.unique_keys;
  one_grade = h.one_grade;
  unique_legs = λ i index.
      rw
        (count-map (at_index i index) (at_index i index) (set_leg_status leg_id status)
          (index-set_leg_status leg_id status i index) db.parlay_legs)
        (h.unique_legs i index);
}
