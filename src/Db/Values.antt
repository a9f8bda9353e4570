-- ===== src/Db/Values.antt =====
-- The dictionaries of column values that the services hand to the repository.
use bookie_breaker_bookie_em.Base.{ℕ, Bool, Option, String}
use bookie_breaker_bookie_em.Base.Int.{ℤ}
use bookie_breaker_bookie_em.Domain.{Market, Side, League}

-- `values` of place_bet and `parent_values` of place_parlay
pub record BetValues (W : Type 0) : Type 0 where
  pub game_id : Option ℕ
  pub game_external_id : String
  pub league : League
  pub market_type : Market
  pub selection : String
  pub side : Option Side
  pub player_external_id : Option String
  pub stat_type : Option String
  pub prop_type : Option String
  pub line_value : Option W
  pub sportsbook_id : Option ℕ
  pub sportsbook_key : String
  pub odds_american : ℤ
  pub odds_decimal : W
  pub stake : W
  pub predicted_probability : W
  pub edge_at_placement : W
  pub kelly_fraction : W
  pub reasoning : Option String
  pub prediction_id : Option ℕ
  pub edge_id : Option ℕ
  pub idempotency_key : String
  pub game_start_at : Option ℕ
  pub is_live : Bool
  pub is_parlay : Bool

-- one entry of `leg_values` of place_parlay
pub record LegValues (W : Type 0) : Type 0 where
  pub leg_index : ℕ
  pub game_id : Option ℕ
  pub game_external_id : String
  pub league : League
  pub market_type : Market
  pub selection : String
  pub side : Option Side
  pub player_external_id : Option String
  pub stat_type : Option String
  pub prop_type : Option String
  pub line_value : Option W
  pub odds_american : ℤ
  pub odds_decimal : W

-- `grade_values` of the grader. Only a prop grade has the two keys of `prop_columns`.
pub record GradeValues (W : Type 0) : Type 0 where
  pub actual_result : String
  pub actual_home_score : Option ℤ
  pub actual_away_score : Option ℤ
  pub actual_margin : Option ℤ
  pub actual_total : Option ℤ
  pub game_result_id : Option ℕ
  pub profit_loss : W
  pub closing_line_value : Option W
  pub closing_odds : Option ℤ
  pub clv : Option W
  pub prop_columns : Option (W × Option String)
