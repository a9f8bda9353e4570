-- ===== src/Core/Grading/Sides.antt =====
-- How the sides of one market grade against each other.
use bookie_breaker_bookie_em.Base.{
  ℕ, ◌≤◌, ◌↔◌, ◌≡◌, sym, Bool, true, false, Option, none, some, [], ◌∷◌, String, arith, count, map,
  Bool-cases, inl, inr,
}
use bookie_breaker_bookie_em.Base.Int.{ℤ, ◌-ℤ◌, neg_ℤ}
use bookie_breaker_bookie_em.Domain.{
  Status, won, lost, push, spread, total, moneyline, Side, home, away, draw, over, under,
}
use bookie_breaker_bookie_em.Float.{Float, HasSigns, HasOrder, zero_f}
use bookie_breaker_bookie_em.Core.Errors.{Result, ok, err}
use bookie_breaker_bookie_em.Core.Grading.{grade_bet, settle, line_or_zero}

abbrev pub status_of : Result (Status × String) → Option Status
status_of (ok (status, _)) = some status
status_of (err _) = none

-- the result of the other side: a win for a loss, and a push for a push
abbrev pub opposite : Option Status → Option Status
opposite (some won) = some lost
opposite (some lost) = some won
opposite r = r

abbrev pub is_won : Option Status → Bool
is_won (some won) = true
is_won _ = false

abbrev pub is_lost : Option Status → Bool
is_lost (some lost) = true
is_lost _ = false

module _ {W : Type 0} ⦃f : Float W⦄ (line_value : Option W) (home_score away_score : ℤ)
    (home_team away_team : Option String) where
  abbrev pub grade : Side → Bool → Option Status
  grade side three_way = status_of (
      grade_bet moneyline (some side) line_value home_score away_score home_team away_team
        three_way)

  -- On a three-way moneyline exactly one of HOME, DRAW and AWAY wins, and the two others lose.
  pub three_way_one_winner :
      let results = map (λ side. grade side true) (home ∷ draw ∷ away ∷ []) in
      (count is_won results ≡ 1) × (count is_lost results ≡ 2)
  unfolding grade_bet
  three_way_one_winner = ground arith

  -- On a two-way moneyline the sides grade oppositely, and both push exactly on a tie.
  pub two_way_opposite :
      (grade away false ≡ opposite (grade home false))
      × ((grade home false ≡ some push) ↔ (home_score ≡ away_score))
  unfolding grade_bet settle ◌-ℤ◌ neg_ℤ
  two_way_opposite = ground arith

module _ {W : Type 0} ⦃f : Float W⦄ (signs : HasSigns W) where
  open signs use {
    above_neg, below_neg, above_both, below_both, above_zero, below_zero, zero_neg, lt_asym,
  }

  -- Opposite signs of a result settle oppositely.
  opposite-settle :
      (x y : W)
      → f.lt zero_f y ≡ f.lt x zero_f
      → f.lt y zero_f ≡ f.lt zero_f x
      → opposite (some (settle (f.lt zero_f x) (f.lt x zero_f)))
        ≡ some (settle (f.lt zero_f y) (f.lt y zero_f))
  unfolding settle
  opposite-settle x y p q = rw (p, q) (ground (arith, lt_asym zero_f x))

  module _ (l : W) (home_score away_score : ℤ) (home_team away_team : Option String)
      (three_way : Bool) where
    -- A spread bet on HOME at a line and one on AWAY at the negated line grade oppositely: one wins
    -- and the other loses, or both push.
    pub spread_opposite :
        status_of (
          grade_bet spread
            (some away)
            (some (f.neg l))
            home_score
            away_score
            home_team
            away_team
            three_way)
        ≡ opposite (
            status_of (
              grade_bet spread
                (some home)
                (some l)
                home_score
                away_score
                home_team
                away_team
                three_way))
    unfolding grade_bet
    spread_opposite = elim (Bool-cases (f.beq l zero_f)) [
      | inl zero ↦ rw (zero_neg l, zero) (sym (opposite-settle _ _ (above_zero _) (below_zero _)))
      | inr line ↦
          rw (zero_neg l, line) (sym (opposite-settle _ _ (above_both _ l) (below_both _ l)))
    ]

    -- OVER and UNDER at one line grade oppositely.
    pub total_opposite :
        status_of (
          grade_bet total (some under) (some l) home_score away_score home_team away_team three_way)
        ≡ opposite (
            status_of (
              grade_bet total
                (some over)
                (some l)
                home_score
                away_score
                home_team
                away_team
                three_way))
    unfolding grade_bet
    total_opposite = sym (opposite-settle _ _ (above_neg _) (below_neg _))

-- A better result counts for more.
abbrev pub rank : Option Status → ℕ
rank (some won) = 2
rank (some push) = 1
rank _ = 0

module _ {W : Type 0} ⦃f : Float W⦄ (order : HasOrder W) where
  open order use {lt_le_trans, le_lt_trans, add_mono}

  settle_mono :
      (x y : W)
      → f.le x y ≡ true
      → rank (some (settle (f.lt zero_f x) (f.lt x zero_f)))
        ≤ rank (some (settle (f.lt zero_f y) (f.lt y zero_f)))
  unfolding settle
  settle_mono x y h = ground (arith, lt_le_trans zero_f x y, le_lt_trans x y zero_f h)

  -- A spread bet never grades worse at a better line, for either side and any scores.
  pub spread_mono :
      (side : Side) (l m : W) (home_score away_score : ℤ) (home_team away_team : Option String)
      → f.le (line_or_zero (some l)) (line_or_zero (some m)) ≡ true
      → rank (
          status_of
            (grade_bet spread (some side) (some l) home_score away_score home_team away_team false))
        ≤ rank (
            status_of (
              grade_bet spread
                (some side)
                (some m)
                home_score
                away_score
                home_team
                away_team
                false))
  unfolding grade_bet
  spread_mono draw l m h a ht at le = omega arith
  spread_mono side l m h a ht at le = settle_mono _ _ (add_mono _ _ _ le)
