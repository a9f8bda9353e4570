-- ===== src/Db/Rows.antt =====
-- The rows of db/tables.py and the records of db/repository.py. Identifiers and times are numbers;
-- a NUMERIC column is the integer number of its units.
use bookie_breaker_bookie_em.Base.{ℕ, Bool, Option, none, some, List, String}
use bookie_breaker_bookie_em.Base.Int.{ℤ}
use bookie_breaker_bookie_em.Domain.{Status, Market, Side, League}
use bookie_breaker_bookie_em.Db.Numeric.{Numeric}

-- paper_bets
pub record BetRow : Type 0 where
  pub id : ℕ
  pub game_id : Option ℕ
  pub game_external_id : String
  pub league : League
  pub market_type : Market
  pub selection : String
  pub side : Option Side
  pub line_value : Option ℤ
  pub player_external_id : Option String
  pub stat_type : Option String
  pub prop_type : Option String
  pub is_parlay : Bool
  pub is_live : Bool
  pub sportsbook_id : Option ℕ
  pub sportsbook_key : String
  pub odds_american : ℤ
  pub odds_decimal : ℤ
  pub stake : ℤ
  pub predicted_probability : ℤ
  pub edge_at_placement : ℤ
  pub kelly_fraction : ℤ
  pub reasoning : Option String
  pub prediction_id : Option ℕ
  pub edge_id : Option ℕ
  pub idempotency_key : String
  pub game_start_at : Option ℕ
  pub status : Status
  pub placed_at : ℕ
  pub graded_at : Option ℕ

-- bet_grades
pub record GradeRow : Type 0 where
  pub id : ℕ
  pub bet_id : ℕ
  pub actual_result : String
  pub actual_home_score : Option ℤ
  pub actual_away_score : Option ℤ
  pub actual_margin : Option ℤ
  pub actual_total : Option ℤ
  pub game_result_id : Option ℕ
  pub profit_loss : ℤ
  pub closing_line_value : Option ℤ
  pub closing_odds : Option ℤ
  pub clv : Option ℤ
  pub actual_stat_value : Option ℤ
  pub stat_type : Option String
  pub graded_at : ℕ

-- parlay_legs
pub record LegRow : Type 0 where
  pub id : ℕ
  pub bet_id : ℕ
  pub leg_index : ℕ
  pub game_id : Option ℕ
  pub game_external_id : String
  pub league : League
  pub market_type : Market
  pub selection : String
  pub side : Option Side
  pub line_value : Option ℤ
  pub player_external_id : Option String
  pub stat_type : Option String
  pub prop_type : Option String
  pub odds_american : ℤ
  pub odds_decimal : ℤ
  pub leg_status : Status

-- bankroll_snapshots
pub record SnapshotRow : Type 0 where
  pub balance : ℤ
  pub total_wagered : ℤ
  pub total_profit_loss : ℤ
  pub open_bets_count : ℕ
  pub total_bets : ℕ
  pub total_wins : ℕ
  pub total_losses : ℕ
  pub avg_clv : Option ℤ
  pub snapshot_at : ℕ

pub record Database : Type 0 where
  pub paper_bets : List BetRow
  pub bet_grades : List GradeRow
  pub parlay_legs : List LegRow
  pub bankroll_snapshots : List SnapshotRow

-- PaperBetRecord
pub record PaperBetRecord (W : Type 0) : Type 0 where
  pub id : ℕ
  pub game_id : Option ℕ
  pub game_external_id : String
  pub league : League
  pub market_type : Market
  pub selection : String
  pub side : Option Side
  pub line_value : Option W
  pub player_external_id : Option String
  pub stat_type : Option String
  pub prop_type : Option String
  pub is_parlay : Bool
  pub is_live : Bool
  pub sportsbook_id : Option ℕ
  pub sportsbook_key : String
  pub odds_american : ℤ
  pub odds_decimal : W
  pub stake : W
  pub predicted_probability : W
  pub edge_at_placement : W
  pub kelly_fraction : W
  pub reasoning : Option String
  pub prediction_id : Option ℕ
  pub edge_id : Option ℕ
  pub idempotency_key : String
  pub game_start_at : Option ℕ
  pub status : Status
  pub placed_at : ℕ
  pub graded_at : Option ℕ

-- ParlayLegRecord
pub record ParlayLegRecord (W : Type 0) : Type 0 where
  pub id : ℕ
  pub bet_id : ℕ
  pub leg_index : ℕ
  pub game_id : Option ℕ
  pub game_external_id : String
  pub league : League
  pub market_type : Market
  pub selection : String
  pub side : Option Side
  pub line_value : Option W
  pub player_external_id : Option String
  pub stat_type : Option String
  pub prop_type : Option String
  pub odds_american : ℤ
  pub odds_decimal : W
  pub leg_status : Status

-- BetGradeRecord
pub record BetGradeRecord (W : Type 0) : Type 0 where
  pub id : ℕ
  pub bet_id : ℕ
  pub actual_result : String
  pub actual_home_score : Option ℤ
  pub actual_away_score : Option ℤ
  pub actual_margin : Option ℤ
  pub actual_total : Option ℤ
  pub game_result_id : Option ℕ
  pub profit_loss : W
  pub closing_line_value : Option W
  pub closing_odds : Option ℤ
  pub clv : Option W
  pub actual_stat_value : Option W
  pub stat_type : Option String
  pub graded_at : ℕ

-- BankrollSnapshotRecord, without the id of the row
pub record BankrollSnapshotRecord (W : Type 0) : Type 0 where
  pub balance : W
  pub total_wagered : W
  pub total_profit_loss : W
  pub open_bets_count : ℕ
  pub total_bets : ℕ
  pub total_wins : ℕ
  pub total_losses : ℕ
  pub avg_clv : Option W
  pub snapshot_at : ℕ

module _ {W : Type 0} ⦃n : Numeric W⦄ where
  -- `_opt_float`
  unfoldable pub opt_float : ℕ → Option ℤ → Option W
  opt_float scale none = none
  opt_float scale (some a) = some (n.loaded scale a)

  -- `_bet_from_row`
  unfoldable pub bet_from_row : BetRow → PaperBetRecord W
  unfolding opt_float
  bet_from_row row = record {
    id = row.id;
    game_id = row.game_id;
    game_external_id = row.game_external_id;
    league = row.league;
    market_type = row.market_type;
    selection = row.selection;
    side = row.side;
    line_value = opt_float 2 row.line_value;
    player_external_id = row.player_external_id;
    stat_type = row.stat_type;
    prop_type = row.prop_type;
    is_parlay = row.is_parlay;
    is_live = row.is_live;
    sportsbook_id = row.sportsbook_id;
    sportsbook_key = row.sportsbook_key;
    odds_american = row.odds_american;
    odds_decimal = n.loaded 4 row.odds_decimal;
    stake = n.loaded 4 row.stake;
    predicted_probability = n.loaded 5 row.predicted_probability;
    edge_at_placement = n.loaded 5 row.edge_at_placement;
    kelly_fraction = n.loaded 5 row.kelly_fraction;
    reasoning = row.reasoning;
    prediction_id = row.prediction_id;
    edge_id = row.edge_id;
    idempotency_key = row.idempotency_key;
    game_start_at = row.game_start_at;
    status = row.status;
    placed_at = row.placed_at;
    graded_at = row.graded_at;
  }

  -- `_leg_from_row`
  unfoldable pub leg_from_row : LegRow → ParlayLegRecord W
  unfolding opt_float
  leg_from_row row = record {
    id = row.id;
    bet_id = row.bet_id;
    leg_index = row.leg_index;
    game_id = row.game_id;
    game_external_id = row.game_external_id;
    league = row.league;
    market_type = row.market_type;
    selection = row.selection;
    side = row.side;
    line_value = opt_float 2 row.line_value;
    player_external_id = row.player_external_id;
    stat_type = row.stat_type;
    prop_type = row.prop_type;
    odds_american = row.odds_american;
    odds_decimal = n.loaded 4 row.odds_decimal;
    leg_status = row.leg_status;
  }

  -- `_grade_from_row`, on a row that the join found
  unfoldable pub grade_from_row : GradeRow → BetGradeRecord W
  unfolding opt_float
  grade_from_row row = record {
    id = row.id;
    bet_id = row.bet_id;
    actual_result = row.actual_result;
    actual_home_score = row.actual_home_score;
    actual_away_score = row.actual_away_score;
    actual_margin = row.actual_margin;
    actual_total = row.actual_total;
    game_result_id = row.game_result_id;
    profit_loss = n.loaded 4 row.profit_loss;
    closing_line_value = opt_float 2 row.closing_line_value;
    closing_odds = row.closing_odds;
    clv = opt_float 5 row.clv;
    actual_stat_value = opt_float 2 row.actual_stat_value;
    stat_type = row.stat_type;
    graded_at = row.graded_at;
  }

  -- `_snapshot_from_row`
  unfoldable pub snapshot_from_row : SnapshotRow → BankrollSnapshotRecord W
  unfolding opt_float
  snapshot_from_row row = record {
    balance = n.loaded 4 row.balance;
    total_wagered = n.loaded 4 row.total_wagered;
    total_profit_loss = n.loaded 4 row.total_profit_loss;
    open_bets_count = row.open_bets_count;
    total_bets = row.total_bets;
    total_wins = row.total_wins;
    total_losses = row.total_losses;
    avg_clv = opt_float 5 row.avg_clv;
    snapshot_at = row.snapshot_at;
  }
