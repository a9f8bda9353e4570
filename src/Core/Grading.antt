-- ===== src/Core/Grading.antt =====
-- core/grading.py: final scores and the terms of a bet give WON, LOST or PUSH, and a profit.
pub mod Errors
pub mod Sides
pub mod Money
pub mod Decided
use bookie_breaker_bookie_em.Base.{
  Bool, true, false, not, ◌&&◌, Option, none, some, String, ◌<>◌, or_text, if◌then◌else◌,
}
use bookie_breaker_bookie_em.Base.Int.{ℤ, pos, ltb_ℤ, ◌+ℤ◌, ◌-ℤ◌, neg_ℤ, show_ℤ}
use bookie_breaker_bookie_em.Domain.{
  Status, opened, won, lost, push, void, Market, spread, total, moneyline, player_prop, team_prop,
  game_prop, future, live, Side, home, away, draw, over, under, side_yes, side_no, eq_side,
  eq_market,
}
use bookie_breaker_bookie_em.Float.{Float, zero_f, one_f, or_zero}
use bookie_breaker_bookie_em.Core.Errors.{Result, ok, err, value_error, ◌>>=◌, ◌>>◌, raise_if}

-- `_settle`, given `result > 0` and `result < 0`: it is called with integers and with floats.
unfoldable pub settle : Bool → Bool → Status
settle above below = if above then won else if below then lost else push

-- _WIN_VERB
abbrev win_verb : Status → String
win_verb won = "covering"
win_verb lost = "failing to cover"
win_verb _ = "push on"

abbrev summary_of : Bool → Bool → ℤ → String → String → String
summary_of true _ margin home_name _ = home_name <> " won by " <> show_ℤ margin
summary_of false true margin _ away_name = away_name <> " won by " <> show_ℤ (neg_ℤ margin)
summary_of false false _ _ _ = "Game tied"

game_summary : ℤ → ℤ → Option String → Option String → String
game_summary home_score away_score home_team away_team =
    let margin = home_score -ℤ away_score in
    summary_of (ltb_ℤ (pos 0) margin) (ltb_ℤ margin (pos 0)) margin (or_text home_team "Home")
      (or_text away_team "Away")

-- `margin if side == "HOME" else -margin`
unfoldable pub selected_margin : Side → ℤ → ℤ
selected_margin side margin = if eq_side side home then margin else neg_ℤ margin

abbrev settle_int : ℤ → Status
settle_int result = settle (ltb_ℤ (pos 0) result) (ltb_ℤ result (pos 0))

-- the side that wins a three-way moneyline
unfoldable pub winner : ℤ → Side
winner margin = if ltb_ℤ (pos 0) margin then home else if ltb_ℤ margin (pos 0) then away else draw

unfoldable pub moneyline_status : Bool → Side → ℤ → Status
unfolding winner selected_margin
moneyline_status true side margin = if eq_side side (winner margin) then won else lost
moneyline_status false side margin = settle_int (selected_margin side margin)

relation_of : Bool → Bool → String
relation_of above below = if above then "over" else if below then "under" else "push on"

module _ {W : Type 0} ⦃f : Float W⦄ where
  -- `line_value or 0.0`
  unfoldable pub line_or_zero : Option W → W
  line_or_zero none = zero_f
  line_or_zero (some l) = or_zero l (f.beq l zero_f)

  abbrev settle_float : W → Status
  settle_float result = settle (f.lt zero_f result) (f.lt result zero_f)

  unfoldable pub spread_status : Side → W → ℤ → Status
  unfolding selected_margin
  spread_status side line margin =
      settle_float (f.add (f.of_int (selected_margin side margin)) line)

  unfoldable pub total_status : Side → W → ℤ → Status
  total_status side line points =
      let over_result = f.sub (f.of_int points) line in
      settle_float (if eq_side side over then over_result else f.neg over_result)

  -- The markets, once the side is known to be given and valid.
  unfoldable pub grade_market :
      Market
      → Side
      → Option W
      → ℤ
      → ℤ
      → Option String
      → Option String
      → Bool
      → Result (Status × String)
  unfolding line_or_zero spread_status total_status moneyline_status game_summary relation_of
  grade_market spread side line_value home_score away_score home_team away_team three_way =
      let line = line_or_zero line_value in
      let status = spread_status side line (home_score -ℤ away_score) in
      let summary = game_summary home_score away_score home_team away_team in
      ok (status, summary <> ", " <> win_verb status <> " " <> f.plus_g line)
  grade_market total side line_value home_score away_score home_team away_team three_way =
      let points = home_score +ℤ away_score in
      let line = line_or_zero line_value in
      let over_result = f.sub (f.of_int points) line in
      let relation = relation_of (f.lt zero_f over_result) (f.lt over_result zero_f) in
      ok (
        total_status side line points,
        "Game landed " <> show_ℤ points <> ", " <> relation <> " " <> f.general_g line,
      )
  grade_market moneyline side line_value home_score away_score home_team away_team three_way = ok (
    moneyline_status three_way side (home_score -ℤ away_score),
    game_summary home_score away_score home_team away_team,
  )
  grade_market _ _ _ _ _ _ _ _ = err value_error

  unfoldable pub grade_bet :
      Market
      → Option Side
      → Option W
      → ℤ
      → ℤ
      → Option String
      → Option String
      → Bool
      → Result (Status × String)
  unfolding grade_market
  grade_bet market none line_value home_score away_score home_team away_team three_way =
      err value_error
  grade_bet market (some side) line_value home_score away_score home_team away_team three_way = do
    raise_if (eq_side side draw && not (three_way && eq_market market moneyline)) value_error
    grade_market market side line_value home_score away_score home_team away_team three_way

  unfoldable pub profit_loss : Status → W → W → W
  profit_loss won stake odds_decimal = f.mul stake (f.sub odds_decimal one_f)
  profit_loss lost stake odds_decimal = f.neg stake
  profit_loss _ stake odds_decimal = zero_f
