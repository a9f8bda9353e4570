-- ===== src/Api/Schemas/Bets.antt =====
-- Bets, grades and legs as the API shows them.
use bookie_breaker_bookie_em.Base.{ℕ, Bool, Option, none, some, List, map, String}
use bookie_breaker_bookie_em.Base.Int.{ℤ}
use bookie_breaker_bookie_em.Domain.{Market, Side, League}
use bookie_breaker_bookie_em.Float.{Float}
use bookie_breaker_bookie_em.Db.Rows.{PaperBetRecord, ParlayLegRecord, BetGradeRecord}
use bookie_breaker_bookie_em.Api.Schemas.{ApiResult, db_to_api_result, edge_fraction_to_percent}

pub record GradeData : Type 0 where
  pub id : ℕ
  pub game_result_id : Option ℕ
  pub actual_home_score : Option ℤ
  pub actual_away_score : Option ℤ
  pub actual_margin : Option ℤ
  pub actual_total : Option ℤ
  pub result : ApiResult
  pub result_description : String
  pub graded_at : ℕ

pub record BetData (W : Type 0) : Type 0 where
  pub id : ℕ
  pub game_id : Option ℕ
  pub game_external_id : String
  pub edge_id : Option ℕ
  pub prediction_id : Option ℕ
  pub sportsbook_id : Option ℕ
  pub sportsbook_key : String
  pub market_type : Market
  pub selection : String
  pub side : Option Side
  pub line_value : Option W
  pub player_external_id : Option String
  pub stat_type : Option String
  pub prop_type : Option String
  pub is_parlay : Bool
  pub is_live : Bool
  pub odds_american : ℤ
  pub odds_decimal : W
  pub stake : W
  pub stake_dollars : W
  pub predicted_probability : W
  pub edge_percentage : W
  pub kelly_fraction : W
  pub reasoning : Option String
  pub result : ApiResult
  pub profit_loss : Option W
  pub profit_loss_dollars : Option W
  pub clv : Option W
  pub placed_at : ℕ
  pub graded_at : Option ℕ

-- the fields of BetData with three more
pub record BetDetailData (W : Type 0) : Type 0 where
  pub base : BetData W
  pub closing_line_value : Option W
  pub closing_odds_american : Option ℤ
  pub grade : Option GradeData

pub record ParlayLegData (W : Type 0) : Type 0 where
  pub id : ℕ
  pub leg_index : ℕ
  pub game_id : Option ℕ
  pub game_external_id : String
  pub league : League
  pub market_type : Market
  pub selection : String
  pub side : Option Side
  pub line_value : Option W
  pub player_external_id : Option String
  pub stat_type : Option String
  pub prop_type : Option String
  pub odds_american : ℤ
  pub odds_decimal : W
  pub leg_status : ApiResult

pub record ParlayDetailData (W : Type 0) : Type 0 where
  pub base : BetDetailData W
  pub combined_odds_american : ℤ
  pub combined_odds_decimal : W
  pub legs : List (ParlayLegData W)

-- `x(grade) if grade is not None else None`
abbrev pub of_grade {ℓ κ} : {G : Type ℓ} {A : Type κ} → (G → A) → Option G → Option A
of_grade x none = none
of_grade x (some g) = some (x g)

abbrev pub opt_of_grade {ℓ κ} : {G : Type ℓ} {A : Type κ} → (G → Option A) → Option G → Option A
opt_of_grade x none = none
opt_of_grade x (some g) = x g

module _ {W : Type 0} ⦃f : Float W⦄ where
  unfoldable pub bet_to_data : PaperBetRecord W → Option (BetGradeRecord W) → W → BetData W
  unfolding db_to_api_result edge_fraction_to_percent
  bet_to_data bet grade unit_size_dollars = record {
    id = bet.id;
    game_id = bet.game_id;
    game_external_id = bet.game_external_id;
    edge_id = bet.edge_id;
    prediction_id = bet.prediction_id;
    sportsbook_id = bet.sportsbook_id;
    sportsbook_key = bet.sportsbook_key;
    market_type = bet.market_type;
    selection = bet.selection;
    side = bet.side;
    line_value = bet.line_value;
    player_external_id = bet.player_external_id;
    stat_type = bet.stat_type;
    prop_type = bet.prop_type;
    is_parlay = bet.is_parlay;
    is_live = bet.is_live;
    odds_american = bet.odds_american;
    odds_decimal = bet.odds_decimal;
    stake = bet.stake;
    stake_dollars = f.mul bet.stake unit_size_dollars;
    predicted_probability = bet.predicted_probability;
    edge_percentage = edge_fraction_to_percent bet.edge_at_placement;
    kelly_fraction = bet.kelly_fraction;
    reasoning = bet.reasoning;
    result = db_to_api_result bet.status;
    profit_loss = of_grade (λ g. g.profit_loss) grade;
    profit_loss_dollars = of_grade (λ g. f.mul g.profit_loss unit_size_dollars) grade;
    clv = opt_of_grade (λ g. g.clv) grade;
    placed_at = bet.placed_at;
    graded_at = bet.graded_at;
  }

  abbrev pub grade_data : PaperBetRecord W → BetGradeRecord W → GradeData
  grade_data bet grade = record {
    id = grade.id;
    game_result_id = grade.game_result_id;
    actual_home_score = grade.actual_home_score;
    actual_away_score = grade.actual_away_score;
    actual_margin = grade.actual_margin;
    actual_total = grade.actual_total;
    result = db_to_api_result bet.status;
    result_description = grade.actual_result;
    graded_at = grade.graded_at;
  }

  unfoldable pub bet_to_detail : PaperBetRecord W → Option (BetGradeRecord W) → W → BetDetailData W
  unfolding bet_to_data
  bet_to_detail bet grade unit_size_dollars = record {
    base = bet_to_data bet grade unit_size_dollars;
    closing_line_value = opt_of_grade (λ g. g.closing_line_value) grade;
    closing_odds_american = opt_of_grade (λ g. g.closing_odds) grade;
    grade = of_grade (grade_data bet) grade;
  }

module _ {W : Type 0} where
  unfoldable pub leg_to_data : ParlayLegRecord W → ParlayLegData W
  unfolding db_to_api_result
  leg_to_data leg = record {
    id = leg.id;
    leg_index = leg.leg_index;
    game_id = leg.game_id;
    game_external_id = leg.game_external_id;
    league = leg.league;
    market_type = leg.market_type;
    selection = leg.selection;
    side = leg.side;
    line_value = leg.line_value;
    player_external_id = leg.player_external_id;
    stat_type = leg.stat_type;
    prop_type = leg.prop_type;
    odds_american = leg.odds_american;
    odds_decimal = leg.odds_decimal;
    leg_status = db_to_api_result leg.leg_status;
  }

module _ {W : Type 0} ⦃f : Float W⦄ where
  unfoldable pub parlay_to_detail :
      PaperBetRecord W
      → Option (BetGradeRecord W)
      → List (ParlayLegRecord W)
      → W
      → ParlayDetailData W
  unfolding bet_to_detail leg_to_data
  parlay_to_detail bet grade legs unit_size_dollars = record {
    base = bet_to_detail bet grade unit_size_dollars;
    combined_odds_american = bet.odds_american;
    combined_odds_decimal = bet.odds_decimal;
    legs = map leg_to_data legs;
  }
