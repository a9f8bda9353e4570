-- ===== src/Db/Repository/Consistent/Joined.antt =====
-- In a consistent database the join of the grades with the bets has each graded bet once.
use bookie_breaker_bookie_em.Base.{
  ℕ, ◌+◌, ◌≤◌, ◌≡◌, refl, sym, ap, ◌∙◌, inl, inr, Bool, true, false, List, [], ◌∷◌, filter, count,
  count-append, count-map, All, All-map, if◌then◌else◌, Bool-cases, arith,
}
use bookie_breaker_bookie_em.Db.Rows.{BetRow, GradeRow, Database}
use bookie_breaker_bookie_em.Db.Repository.Grading.{graded_join, pairs_of, grades_bet, is_open}
use bookie_breaker_bookie_em.Db.Repository.Consistent.{IsConsistent, has_id, is_graded}
use bookie_breaker_bookie_em.Db.Repository.Consistent.Claims.{graded-le}

module _ (p : BetRow → Bool) where
  -- the bets that meet the test, each as often as it has grades
  abbrev tally : List GradeRow → List BetRow → ℕ
  tally gs [] = 0
  tally gs (b ∷ bs) = (if p b then count (grades_bet b.id) gs else 0) + tally gs bs

  tally-nil : (bets : List BetRow) → tally [] bets ≡ 0
  tally-nil [] = refl
  tally-nil (b ∷ bs) = ground (arith, tally-nil bs)

  tally-cons :
      (g : GradeRow) (gs : List GradeRow) (bets : List BetRow)
      → tally (g ∷ gs) bets ≡ count p (filter (has_id g.bet_id) bets) + tally gs bets
  tally-cons g gs [] = refl
  tally-cons g gs (b ∷ bs) = ground (arith, tally-cons g gs bs)

  count-graded_join :
      (bets : List BetRow) (gs : List GradeRow)
      → count (λ x. p x.0) (graded_join bets gs) ≡ tally gs bets
  unfolding graded_join
  count-graded_join bets [] = sym (tally-nil bets)
  count-graded_join bets (g ∷ gs) =
      count-append (λ x. p x.0) (pairs_of g bets) (graded_join bets gs)
      ∙ ap (λ k. k + count (λ x. p x.0) (graded_join bets gs))
          (count-map (λ x. p x.0) p (λ b. (b, g)) (λ b. refl) (filter (has_id g.bet_id) bets))
      ∙ ap (λ k. count p (filter (has_id g.bet_id) bets) + k) (count-graded_join bets gs)
      ∙ sym (tally-cons g gs bets)

  tally-once :
      (gs : List GradeRow) (bets : List BetRow)
      → All (λ b. p b ≡ true → count (grades_bet b.id) gs ≡ 1) bets
      → tally gs bets ≡ count p bets
  tally-once gs [] h = refl
  tally-once gs (b ∷ bs) (once, h) = elim (Bool-cases (p b)) [
    | inl e ↦ rw (e, once e, tally-once gs bs h) (omega arith)
    | inr e ↦ rw (e, tally-once gs bs h) (omega arith)
  ]

module _ {db : Database} (h : IsConsistent db) where
  suffix_once :
      (bets : List BetRow)
      → ((i : ℕ) → count (is_graded i) bets ≤ count (is_graded i) db.paper_bets)
      → All (λ b. is_open b ≡ false → count (grades_bet b.id) db.bet_grades ≡ 1) bets
  suffix_once [] le = tt
  suffix_once (b ∷ bs) le = (
    λ shut.
        ground
          (arith, shut, le b.id, h.one_grade b.id, h.unique_ids b.id, graded-le b.id db.paper_bets),
    suffix_once bs (λ i. ground (arith, le i)),
  )

  -- A test of graded bets counts in the join what it counts in the table.
  pub count-joined :
      (p : BetRow → Bool)
      → ((b : BetRow) → p b ≡ true → is_open b ≡ false)
      → count (λ x. p x.0) (graded_join db.paper_bets db.bet_grades) ≡ count p db.paper_bets
  count-joined p shut =
      count-graded_join p db.paper_bets db.bet_grades
      ∙ tally-once p db.bet_grades db.paper_bets (
          All-map (λ b. is_open b ≡ false → count (grades_bet b.id) db.bet_grades ≡ 1)
            (λ b. p b ≡ true → count (grades_bet b.id) db.bet_grades ≡ 1)
            (λ b once met. once (shut b met)) db.paper_bets
            (suffix_once db.paper_bets (λ i. omega arith)))
