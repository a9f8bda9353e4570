-- ===== src/Db/Repository/Consistent/Once.antt =====
-- A bet is graded once, unless a re-grade is forced: the claim of apply_grade under interleavings.
use bookie_breaker_bookie_em.Base.{
  ℕ, ◌<◌, ◌≡◌, inl, inr, Bool, true, false, List, map, count, count-append, any, arith, Bool-cases,
}
use native.Mathlib.Decide.{ℕ_discrete}
use bookie_breaker_bookie_em.Domain.{Status, opened, eq_status}
use bookie_breaker_bookie_em.Float.{Float}
use bookie_breaker_bookie_em.Core.Errors.{ok}
use bookie_breaker_bookie_em.Db.Numeric.{Numeric}
use bookie_breaker_bookie_em.Db.Rows.{BetRow, Database}
use bookie_breaker_bookie_em.Db.Values.{GradeValues}
use bookie_breaker_bookie_em.Db.Repository.Grading.{claimed, claim, apply_grade, grade_leg}
use bookie_breaker_bookie_em.Db.Repository.Grading.Applied.{apply_grade_inv}
use bookie_breaker_bookie_em.Db.Repository.Consistent.{IsConsistent, is_graded}
use bookie_breaker_bookie_em.Db.Repository.Consistent.Claims.{
  count_graded-claim_ne, count_graded-claim_self, graded-le, claimed-open, claimed-exists,
}
use bookie_breaker_bookie_em.Db.Repository.Consistent.Graded.{apply_grade-IsConsistent}
use bookie_breaker_bookie_em.Db.Repository.Consistent.Placed.{
  Extends, bets-insert_idempotent, bets-insert_parlay,
}
use bookie_breaker_bookie_em.Db.Repository.Consistent.Reach.{
  Step, placed, placed_parlay, leg_graded, graded, Reach, here, next, Reach-IsConsistent,
}

-- The bet has a status other than OPEN.
abbrev pub IsGraded : ℕ → Database → Type 0
IsGraded i db = 0 < count (is_graded i) db.paper_bets

Extends-IsGraded : (i : ℕ) (db db' : Database) → Extends db db' → IsGraded i db → IsGraded i db'
Extends-IsGraded i db db' (more, e) g =
    rw (e, count-append (is_graded i) db.paper_bets more) (omega arith)

claim-IsGraded :
    (i : ℕ) (force : Bool) (j now : ℕ) (status : Status) (bets : List BetRow)
    → eq_status status opened ≡ false
    → 0 < count (is_graded i) bets
    → 0 < count (is_graded i) (map (claim force j status now) bets)
claim-IsGraded i force j now status bets h g = elim (ℕ_discrete i j) [
  | yes e ↦
      rw (e, count_graded-claim_self force j now status bets h)
        (omega (arith, graded-le j bets, rw e at g))
  | no ne ↦ rw (count_graded-claim_ne force j now status bets i ne) g
]

module _ {W : Type 0} ⦃f : Float W⦄ ⦃n : Numeric W⦄ (starting : W) where
  Step-IsGraded :
      (i : ℕ) {db db' : Database} → Step W starting db db' → IsGraded i db → IsGraded i db'
  unfolding grade_leg
  Step-IsGraded i {db = db} {db' = db'} (placed id now v result e) g =
      Extends-IsGraded i db db' (bets-insert_idempotent id now v db db' result e) g
  Step-IsGraded i {db = db} {db' = db'} (placed_parlay id first now v legs result e) g =
      Extends-IsGraded i db db' (bets-insert_parlay id first now v legs db db' result e) g
  Step-IsGraded i (leg_graded leg_id status) g = g
  Step-IsGraded i {db = db} {db' = db'} (graded id now j status v force r d e) g =
      elim (apply_grade_inv id now j status v starting force db db' r e) [
        | inl (_, a) ↦ rw a.after (claim-IsGraded i force j now status db.paper_bets d g)
        | inr (_, same, _) ↦ rw same g
      ]

  pub Reach-IsGraded :
      (i : ℕ) {db db' : Database} → IsGraded i db → Reach W starting db db' → IsGraded i db'
  Reach-IsGraded i g here = g
  Reach-IsGraded i g (next r s) = Step-IsGraded i s (Reach-IsGraded i g r)

  -- A claim on a bet that is graded already finds nothing, unless it is forced.
  apply_grade_late :
      (id now i : ℕ) (status : Status) (v : GradeValues W) (db : Database)
      → IsConsistent db
      → IsGraded i db
      → apply_grade id now i status v starting false db ≡ ok (false, db)
  unfolding apply_grade
  apply_grade_late id now i status v db h g =
      elim (Bool-cases (any (claimed false i) db.paper_bets)) [
        | inl found ↦ absurd (omega (arith, claimed-open i db.paper_bets found, h.unique_ids i))
        | inr nothing ↦ rw nothing
      ]

  -- The event handler, the poller and manual requests may race: once one of them has graded a bet,
  -- every later attempt that is not forced returns False and changes nothing, whatever transactions
  -- were committed in between.
  pub graded_once :
      (id now id' now' i : ℕ) (status status' : Status) (v v' : GradeValues W) (force : Bool)
      (db db₁ db₂ : Database)
      → IsConsistent db
      → eq_status status opened ≡ false
      → apply_grade id now i status v starting force db ≡ ok (true, db₁)
      → Reach W starting db₁ db₂
      → apply_grade id' now' i status' v' starting false db₂ ≡ ok (false, db₂)
  graded_once id now id' now' i status status' v v' force db db₁ db₂ h d e r =
      apply_grade_late id' now' i status' v' db₂
        (Reach-IsConsistent W starting
          (apply_grade-IsConsistent id now i status v starting force db d h true e) r)
        (Reach-IsGraded i first r)
    where
      first : IsGraded i db₁
      first = elim (apply_grade_inv id now i status v starting force db db₁ true e) [
        | inl (_, a) ↦
            rw (a.after, count_graded-claim_self force i now status db.paper_bets d)
              (claimed-exists force i db.paper_bets a.found)
        | inr (no_grade, _, _) ↦ cc
      ]
