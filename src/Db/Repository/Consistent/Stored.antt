-- ===== src/Db/Repository/Consistent/Stored.antt =====
-- Bets are never deleted, and an attempt to grade one that is stored leaves it graded.
use bookie_breaker_bookie_em.Base.{
  ℕ, ◌<◌, ◌≡◌, inl, inr, Bool, false, List, [], ◌∷◌, count, count-append, any, arith,
}
use bookie_breaker_bookie_em.Domain.{Status, opened, eq_status}
use bookie_breaker_bookie_em.Float.{Float}
use bookie_breaker_bookie_em.Core.Errors.{ok}
use bookie_breaker_bookie_em.Db.Numeric.{Numeric}
use bookie_breaker_bookie_em.Db.Rows.{BetRow, Database}
use bookie_breaker_bookie_em.Db.Values.{GradeValues}
use bookie_breaker_bookie_em.Db.Repository.Grading.{claimed, apply_grade, grade_leg}
use bookie_breaker_bookie_em.Db.Repository.Grading.Applied.{apply_grade_inv}
use bookie_breaker_bookie_em.Db.Repository.Consistent.{has_id, is_graded}
use bookie_breaker_bookie_em.Db.Repository.Consistent.Claims.{
  count_id-claim, count_graded-claim_self,
}
use bookie_breaker_bookie_em.Db.Repository.Consistent.Placed.{
  Extends, bets-insert_idempotent, bets-insert_parlay,
}
use bookie_breaker_bookie_em.Db.Repository.Consistent.Once.{IsGraded}
use bookie_breaker_bookie_em.Db.Repository.Consistent.Reach.{
  Step, placed, placed_parlay, leg_graded, graded, Reach, here, next,
}

-- There is a bet with this id.
abbrev pub IsStored : ℕ → Database → Type 0
IsStored i db = 0 < count (has_id i) db.paper_bets

Extends-IsStored : (i : ℕ) (db db' : Database) → Extends db db' → IsStored i db → IsStored i db'
Extends-IsStored i db db' (more, e) s =
    rw (e, count-append (has_id i) db.paper_bets more) (omega arith)

-- A row that no claim finds is not OPEN.
unclaimed-IsGraded :
    (force : Bool) (i : ℕ) (bets : List BetRow)
    → any (claimed force i) bets ≡ false
    → 0 < count (has_id i) bets
    → 0 < count (is_graded i) bets
unclaimed-IsGraded force i [] h s = omega arith
unclaimed-IsGraded force i (b ∷ bs) h s = ground (arith, unclaimed-IsGraded force i bs)

module _ {W : Type 0} ⦃f : Float W⦄ ⦃n : Numeric W⦄ (starting : W) where
  Step-IsStored :
      (i : ℕ) {db db' : Database} → Step W starting db db' → IsStored i db → IsStored i db'
  unfolding grade_leg
  Step-IsStored i {db = db} {db' = db'} (placed id now v result e) s =
      Extends-IsStored i db db' (bets-insert_idempotent id now v db db' result e) s
  Step-IsStored i {db = db} {db' = db'} (placed_parlay id first now v legs result e) s =
      Extends-IsStored i db db' (bets-insert_parlay id first now v legs db db' result e) s
  Step-IsStored i (leg_graded leg_id status) s = s
  Step-IsStored i {db = db} {db' = db'} (graded id now j status v force r d e) s =
      elim (apply_grade_inv id now j status v starting force db db' r e) [
        | inl (_, a) ↦ rw (a.after, count_id-claim force j now status db.paper_bets i) s
        | inr (_, same, _) ↦ rw same s
      ]

  pub Reach-IsStored :
      (i : ℕ) {db db' : Database} → IsStored i db → Reach W starting db db' → IsStored i db'
  Reach-IsStored i s here = s
  Reach-IsStored i s (next r step) = Step-IsStored i step (Reach-IsStored i s r)

  -- Whatever apply_grade answers, the bet is graded afterwards.
  pub apply_grade-IsGraded :
      (id now i : ℕ) (status : Status) (v : GradeValues W) (force r : Bool) (db db' : Database)
      → eq_status status opened ≡ false
      → IsStored i db
      → apply_grade id now i status v starting force db ≡ ok (r, db')
      → IsGraded i db'
  apply_grade-IsGraded id now i status v force r db db' d s e =
      elim (apply_grade_inv id now i status v starting force db db' r e) [
        | inl (_, a) ↦ rw (a.after, count_graded-claim_self force i now status db.paper_bets d) s
        | inr (_, same, nothing) ↦ rw same (unclaimed-IsGraded force i db.paper_bets nothing s)
      ]
