-- ===== src/Tests/Markets.antt =====
-- Tests of core/grading.py, core/settlement.py, core/clv.py and core/prop_grading.py.
use bookie_breaker_bookie_em.Base.{
  ◌≡◌, refl, ◌↔◌, ◌⊎◌, true, false, none, some, [], ◌∷◌, ◌++◌, map, count,
}
use bookie_breaker_bookie_em.Base.Int.{pos}
use bookie_breaker_bookie_em.Domain.{won, lost, spread, moneyline, home, away, draw}
use bookie_breaker_bookie_em.Float.{zero_f}
use bookie_breaker_bookie_em.Float.Fixed.{fixed_float, fixed_runs}
use bookie_breaker_bookie_em.Float.Fixed.Laws.{Fixed-HasSigns, Fixed-HasOrder}
use bookie_breaker_bookie_em.Core.Errors.{IsOk, err, value_error}
use bookie_breaker_bookie_em.Core.Grading.{grade_bet, profit_loss}
use bookie_breaker_bookie_em.Core.Grading.Errors.{IsGradable, grade_bet_iff}
use bookie_breaker_bookie_em.Core.Grading.Sides.{
  status_of, opposite, is_won, is_lost, grade, three_way_one_winner, spread_opposite,
}
use bookie_breaker_bookie_em.Core.Grading.Money.{profit_loss_bounds}
use bookie_breaker_bookie_em.Core.Clv.{match_closing_line}
use bookie_breaker_bookie_em.Core.Clv.Closing.{IsClosing, match_closing_line_lem}
use bookie_breaker_bookie_em.Core.Props.{team_players, find_player_line}
use bookie_breaker_bookie_em.Core.Props.Outcomes.{IsFound, find_player_line_lem}
use bookie_breaker_bookie_em.Tests.Data.{evens, favoured, one_unit, closing_line, no_fold, scorers}

-- a draw on a two-way moneyline
grade_bet_iff_example :
    let r = grade_bet moneyline (some draw) (some favoured) (pos 1) (pos 1) none none false in
    (IsOk r ↔ IsGradable moneyline (some draw) false)
    × (¬ (IsGradable moneyline (some draw) false) → r ≡ err value_error)
grade_bet_iff_example =
    grade_bet_iff moneyline (some draw) (some favoured) (pos 1) (pos 1) none none false

three_way_one_winner_example :
    let results =
      map
        (λ side. grade (some favoured) (pos 1) (pos 1) none none side true)
        (home ∷ draw ∷ away ∷ []) in
    (count is_won results ≡ 1) × (count is_lost results ≡ 2)
three_way_one_winner_example = three_way_one_winner (some favoured) (pos 1) (pos 1) none none

spread_opposite_example :
    status_of (
      grade_bet spread
        (some away)
        (some (fixed_float.neg favoured))
        (pos 104)
        (pos 100)
        none
        none
        false)
    ≡ opposite (
        status_of
          (grade_bet spread (some home) (some favoured) (pos 104) (pos 100) none none false))
spread_opposite_example =
    spread_opposite Fixed-HasSigns favoured (pos 104) (pos 100) none none false

profit_loss_bounds_example :
    let pl = profit_loss lost one_unit evens in
    (lost ≡ won → fixed_float.le zero_f pl ≡ true)
    × (lost ≡ lost → (pl ≡ fixed_float.neg one_unit) × (fixed_float.lt pl zero_f ≡ true))
    × ((fixed_float.le zero_f pl ≡ true) ⊎ (pl ≡ fixed_float.neg one_unit))
unfolding fixed_runs
profit_loss_bounds_example = profit_loss_bounds Fixed-HasOrder lost one_unit evens refl refl

-- two other books, the second with the nearer line
match_closing_line_example :
    IsClosing
      (closing_line "a" evens ∷ closing_line "b" favoured ∷ [])
      spread
      (some home)
      "book"
      (some favoured)
      (match_closing_line
        (closing_line "a" evens ∷ closing_line "b" favoured ∷ [])
        spread
        (some home)
        "book"
        (some favoured))
match_closing_line_example =
    match_closing_line_lem (closing_line "a" evens ∷ closing_line "b" favoured ∷ []) spread
      (some home) "book" (some favoured) Fixed-HasSigns Fixed-HasOrder

find_player_line_example :
    IsFound no_fold "kylian-m"
      (team_players scorers.home_team "SOCCER" ++ team_players scorers.away_team "SOCCER")
      (find_player_line no_fold scorers "kylian-m")
find_player_line_example = find_player_line_lem no_fold "kylian-m" scorers
