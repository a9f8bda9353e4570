-- ===== src/Core/Grading/Errors.antt =====
-- When `grade_bet` raises.
use bookie_breaker_bookie_em.Base.{
  ◌≡◌, refl, ◌↔◌, ◌⊎◌, inl, inr, Bool, true, false, Option, none, some, String, arith,
}
use bookie_breaker_bookie_em.Base.Int.{ℤ}
use bookie_breaker_bookie_em.Domain.{Market, spread, total, moneyline, Side, draw}
use bookie_breaker_bookie_em.Float.{Float}
use bookie_breaker_bookie_em.Core.Errors.{err, value_error, IsOk}
use bookie_breaker_bookie_em.Core.Grading.{grade_bet}

-- A score market with a side, where DRAW stands on a three-way moneyline only.
abbrev pub IsGradable : Market → Option Side → Bool → Type 0
IsGradable market none three_way = ⊥
IsGradable market (some side) three_way =
    ((market ≡ spread) ⊎ (market ≡ total) ⊎ (market ≡ moneyline))
    × (side ≡ draw → (three_way ≡ true) × (market ≡ moneyline))

module _ {W : Type 0} ⦃f : Float W⦄ where
  draw_iff :
      (market : Market) (line_value : Option W) (home_score away_score : ℤ)
      (home_team away_team : Option String) (three_way : Bool)
      → let r =
          grade_bet market
            (some draw)
            line_value
            home_score
            away_score
            home_team
            away_team
            three_way in
        (IsOk r ↔ IsGradable market (some draw) three_way)
        × (¬ (IsGradable market (some draw) three_way) → r ≡ err value_error)
  unfolding grade_bet
  draw_iff moneyline l h a ht at true = (
    (λ ok. (inr (inr refl), (λ _. (refl, refl))), λ _. tt),
    λ n. absurd (n (inr (inr refl), (λ _. (refl, refl)))),
  )
  draw_iff spread l h a ht at true = ((λ ok. elim ok [ ], λ g. ground arith), λ _. refl)
  draw_iff _ l h a ht at true = ((λ ok. elim ok [ ], λ g. ground arith), λ _. refl)
  draw_iff spread l h a ht at false = ((λ ok. elim ok [ ], λ g. ground arith), λ _. refl)
  draw_iff _ l h a ht at false = ((λ ok. elim ok [ ], λ g. ground arith), λ _. refl)

  -- A bet grades exactly when it names a side, its market is SPREAD, TOTAL or MONEYLINE, and DRAW
  -- stands on a three-way moneyline only. Otherwise a ValueError is raised.
  pub grade_bet_iff :
      (market : Market) (side : Option Side) (line_value : Option W) (home_score away_score : ℤ)
      (home_team away_team : Option String) (three_way : Bool)
      → let r =
          grade_bet market side line_value home_score away_score home_team away_team three_way in
        (IsOk r ↔ IsGradable market side three_way)
        × (¬ (IsGradable market side three_way) → r ≡ err value_error)
  unfolding grade_bet
  grade_bet_iff market none l h a ht at three_way = ((λ x. x, λ x. x), λ _. refl)
  grade_bet_iff market (some draw) l h a ht at three_way = draw_iff market l h a ht at three_way
  grade_bet_iff spread (some side) l h a ht at three_way =
      ((λ _. (inl refl, ground arith), λ _. tt), λ n. ground arith)
  grade_bet_iff total (some side) l h a ht at three_way =
      ((λ _. (inr (inl refl), ground arith), λ _. tt), λ n. ground arith)
  grade_bet_iff moneyline (some side) l h a ht at three_way =
      ((λ _. (inr (inr refl), ground arith), λ _. tt), λ n. ground arith)
  grade_bet_iff _ (some side) l h a ht at three_way =
      ((λ ok. elim ok [ ], λ g. ground arith), λ _. refl)
