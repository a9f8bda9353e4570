-- ===== src/Core/Grading/Decided.antt =====
-- No grade is OPEN: `_settle` and the statuses of core/grading.py.
use bookie_breaker_bookie_em.Base.{◌≡◌, Bool, false, not, ◌&&◌, Option, none, some, String, arith}
use bookie_breaker_bookie_em.Base.Int.{ℤ}
use bookie_breaker_bookie_em.Domain.{
  Status, opened, eq_status, Market, spread, total, moneyline, Side, eq_market, eq_side, draw,
}
use bookie_breaker_bookie_em.Float.{Float}
use bookie_breaker_bookie_em.Core.Errors.{ok, raise_if, value_error, >>=-eq-ok}
use bookie_breaker_bookie_em.Core.Grading.{
  settle, moneyline_status, spread_status, total_status, grade_market, grade_bet,
}

abbrev pub IsDecided : Status → Type 0
IsDecided status = eq_status status opened ≡ false

pub settle-IsDecided : (above below : Bool) → IsDecided (settle above below)
unfolding settle
settle-IsDecided above below = ground arith

module _ {W : Type 0} ⦃f : Float W⦄ (side : Side) (line_value : Option W) (home away : ℤ)
    (home_team away_team : Option String) (three_way : Bool) where
  grade_market-IsDecided :
      (market : Market) (status : Status) (description : String)
      → grade_market market side line_value home away home_team away_team three_way
        ≡ ok (status, description)
      → IsDecided status
  unfolding grade_market spread_status total_status moneyline_status settle
  grade_market-IsDecided spread status d e = ground arith
  grade_market-IsDecided total status d e = ground arith
  grade_market-IsDecided moneyline status d e = ground arith
  grade_market-IsDecided _ status d e = cc

module _ {W : Type 0} ⦃f : Float W⦄ where
  pub grade_bet-IsDecided :
      (market : Market) (side : Option Side) (line_value : Option W) (home away : ℤ)
      (home_team away_team : Option String) (three_way : Bool) (status : Status)
      (description : String)
      → grade_bet market side line_value home away home_team away_team three_way
        ≡ ok (status, description)
      → IsDecided status
  unfolding grade_bet
  grade_bet-IsDecided market none l h a ht at t status d e = cc
  grade_bet-IsDecided market (some side) l h a ht at t status d e =
      let (_, _, graded) =
        >>=-eq-ok
          (raise_if (eq_side side draw && not (t && eq_market market moneyline)) value_error)
          (λ _. grade_market market side l h a ht at t) e in
      grade_market-IsDecided side l h a ht at t market status d graded
