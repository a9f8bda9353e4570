-- ===== src/Clients.antt =====
-- The parsed answers of the two services that the program calls (clients/lines.py and
-- clients/statistics.py). A market or side that is not in the vocabulary is `none`.
pub mod Http
pub mod Reconcile
use bookie_breaker_bookie_em.Base.{ℕ, Bool, Option, List, String}
use bookie_breaker_bookie_em.Base.Int.{ℤ}
use bookie_breaker_bookie_em.Domain.{Market, Side, League}

-- LineSnapshot
pub record LineSnapshot (W : Type 0) : Type 0 where
  pub game_id : String
  pub sportsbook_id : Option String
  pub sportsbook_key : String
  pub market_type : Option Market
  pub selection : String
  pub side : Option Side
  pub line_value : Option W
  pub odds_american : ℤ
  pub odds_decimal : W
  pub is_live : Bool
  pub timestamp : String

-- BestLine
pub record BestLine (W : Type 0) : Type 0 where
  pub market_type : Option Market
  pub selection : String
  pub side : Option Side
  pub line_value : Option W
  pub best_odds_american : ℤ
  pub best_odds_decimal : W
  pub sportsbook_id : Option String
  pub sportsbook_key : String
  pub is_live : Bool
  pub timestamp : String

-- TeamRef
pub record TeamRef : Type 0 where
  pub name : String
  pub abbreviation : String

-- GameResult
pub record GameResult : Type 0 where
  pub id : Option ℕ
  pub home_score : ℤ
  pub away_score : ℤ
  pub total_score : ℤ
  pub margin : ℤ
  pub regulation_home_score : Option ℤ
  pub regulation_away_score : Option ℤ

-- Game
pub record Game : Type 0 where
  pub id : ℕ
  pub league : League
  pub status : String
  pub home_team : TeamRef
  pub away_team : TeamRef
  pub scheduled_start : String
  pub result : Option GameResult

-- SoccerPlayerBoxScore, BasketballPlayerBoxScore and BaseballPlayerBoxScore, with the statistics
-- that settle a market
pub record SoccerPlayer : Type 0 where
  pub player_name : String
  pub goals : ℤ
  pub assists : ℤ
  pub shots : ℤ
  pub shots_on_target : ℤ

pub record BasketballPlayer : Type 0 where
  pub player_name : String
  pub points : ℤ
  pub rebounds : ℤ
  pub assists : ℤ
  pub three_pointers_made : ℤ

pub record BaseballPlayer : Type 0 where
  pub player_name : String
  pub hits : ℤ
  pub total_bases : ℤ
  pub home_runs : ℤ
  pub strikeouts_pitching : ℤ

-- PlayerBoxScoreLine
pub data PlayerLine : Type 0 where
  soccer_line : SoccerPlayer → PlayerLine
  basketball_line : BasketballPlayer → PlayerLine
  baseball_line : BaseballPlayer → PlayerLine

unfoldable pub player_name : PlayerLine → String
player_name (soccer_line p) = p.player_name
player_name (basketball_line p) = p.player_name
player_name (baseball_line p) = p.player_name

-- TeamBoxScore
pub record TeamBoxScore : Type 0 where
  pub players : List BasketballPlayer
  pub soccer_players : List SoccerPlayer
  pub baseball_players : List BaseballPlayer

-- BoxScore
pub record BoxScore : Type 0 where
  pub game_id : ℕ
  pub sport : String
  pub home_team : TeamBoxScore
  pub away_team : TeamBoxScore
