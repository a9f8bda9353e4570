-- ===== src/Db/Repository/Consistent/Claims.antt =====
-- How a claim (the UPDATE of apply_grade) changes the counts of a consistent database.
use bookie_breaker_bookie_em.Base.{
  ℕ, ◌+◌, ◌≤◌, ◌<◌, ◌≡◌, refl, ◌≢◌, Bool, true, false, Option, some, none, List, [], ◌∷◌, map,
  String, ◌==◌, count, count-map, Bool-cases, inl, inr, any, arith,
}
use bookie_breaker_bookie_em.Base.Int.{ℤ}
use bookie_breaker_bookie_em.Domain.{Status, opened, eq_status}
use bookie_breaker_bookie_em.Db.Rows.{BetRow, GradeRow}
use bookie_breaker_bookie_em.Db.Repository.Grading.{claimed, claim, grades_bet, overwrite, upsert}
use bookie_breaker_bookie_em.Db.Repository.Consistent.{has_id, has_key, is_graded}

module _ (force : Bool) (j now : ℕ) (status : Status) where
  id-claim : (i : ℕ) (b : BetRow) → has_id i (claim force j status now b) ≡ has_id i b
  id-claim i b = elim (Bool-cases (claimed force j b)) [ inl c ↦ rw c | inr c ↦ rw c ]

  pub key-claim : (k : String) (b : BetRow) → has_key k (claim force j status now b) ≡ has_key k b
  key-claim k b = elim (Bool-cases (claimed force j b)) [ inl c ↦ rw c | inr c ↦ rw c ]

  graded-claim_ne :
      (i : ℕ) → i ≢ j → (b : BetRow) → is_graded i (claim force j status now b) ≡ is_graded i b
  graded-claim_ne i ne b = elim (Bool-cases (claimed force j b)) [
    | inl c ↦ rw c (ground arith)
    | inr c ↦ rw c
  ]

  graded-claim_self :
      eq_status status opened ≡ false
      → (b : BetRow) → is_graded j (claim force j status now b) ≡ has_id j b
  graded-claim_self h b = elim (Bool-cases (claimed force j b)) [
    | inl c ↦ rw c (ground arith)
    | inr c ↦ rw c (ground arith)
  ]

  module _ (bets : List BetRow) where
    pub count_id-claim :
        (i : ℕ) → count (has_id i) (map (claim force j status now) bets) ≡ count (has_id i) bets
    count_id-claim i = count-map _ _ _ (id-claim i) bets

    pub count_key-claim :
        (k : String)
        → count (has_key k) (map (claim force j status now) bets) ≡ count (has_key k) bets
    count_key-claim k = count-map _ _ _ (key-claim k) bets

    pub count_graded-claim_ne :
        (i : ℕ)
        → i ≢ j
        → count (is_graded i) (map (claim force j status now) bets) ≡ count (is_graded i) bets
    count_graded-claim_ne i ne = count-map _ _ _ (graded-claim_ne i ne) bets

    -- After the claim every row of the bet is graded, if the new status is not OPEN.
    pub count_graded-claim_self :
        eq_status status opened ≡ false
        → count (is_graded j) (map (claim force j status now) bets) ≡ count (has_id j) bets
    count_graded-claim_self h = count-map _ _ _ (graded-claim_self h) bets

pub graded-le : (j : ℕ) (bets : List BetRow) → count (is_graded j) bets ≤ count (has_id j) bets
graded-le j [] = omega arith
graded-le j (b ∷ bs) = ground (arith, graded-le j bs)

-- An unforced claim needs an OPEN row.
pub claimed-open :
    (j : ℕ) (bets : List BetRow)
    → any (claimed false j) bets ≡ true
    → count (is_graded j) bets + 1 ≤ count (has_id j) bets
claimed-open j [] h = cc
claimed-open j (b ∷ bs) h = ground (arith, claimed-open j bs, graded-le j bs)

pub claimed-exists :
    (force : Bool) (j : ℕ) (bets : List BetRow)
    → any (claimed force j) bets ≡ true
    → 0 < count (has_id j) bets
claimed-exists force j [] h = cc
claimed-exists force j (b ∷ bs) h = ground (arith, claimed-exists force j bs)

-- Grade rows: an upsert leaves one row of its bet, and touches no other.
bet_id-overwrite :
    (columns : Option (Option ℤ × Option String)) (new g : GradeRow)
    → (overwrite columns new g).bet_id ≡ new.bet_id
bet_id-overwrite none new g = refl
bet_id-overwrite (some _) new g = refl

module _ (columns : Option (Option ℤ × Option String)) (new : GradeRow) where
  pub count-upsert_self :
      (grades : List GradeRow)
      → count (grades_bet new.bet_id) grades ≤ 1
      → count (grades_bet new.bet_id) (upsert columns new grades) ≡ 1
  count-upsert_self [] h = ground arith
  count-upsert_self (g ∷ gs) h = elim (Bool-cases (g.bet_id == new.bet_id)) [
    | inl e ↦ rw (e, bet_id-overwrite columns new g) (ground arith)
    | inr e ↦ rw (e, e) (count-upsert_self gs (rw e at h))
  ]

  pub count-upsert_ne :
      (i : ℕ) (grades : List GradeRow)
      → i ≢ new.bet_id
      → count (grades_bet i) (upsert columns new grades) ≡ count (grades_bet i) grades
  count-upsert_ne i [] ne = ground arith
  count-upsert_ne i (g ∷ gs) ne = elim (Bool-cases (g.bet_id == new.bet_id)) [
    | inl e ↦ rw (e, bet_id-overwrite columns new g) (ground arith)
    | inr e ↦ rw e (ground (arith, count-upsert_ne i gs ne))
  ]

pub count-zero_of_any :
    (i : ℕ) (grades : List GradeRow)
    → any (grades_bet i) grades ≡ false
    → count (grades_bet i) grades ≡ 0
count-zero_of_any i [] h = refl
count-zero_of_any i (g ∷ gs) h = ground (arith, count-zero_of_any i gs)

pub count-pos_of_any :
    (i : ℕ) (grades : List GradeRow)
    → any (grades_bet i) grades ≡ true
    → 0 < count (grades_bet i) grades
count-pos_of_any i [] h = cc
count-pos_of_any i (g ∷ gs) h = ground (arith, count-pos_of_any i gs)
