-- ===== src/Tests/Data.antt =====
-- Bets, legs, games and answers of the other services that the tests use.
use bookie_breaker_bookie_em.Base.{ℕ, false, none, some, [], ◌∷◌, String}
use bookie_breaker_bookie_em.Base.Int.{ℤ, pos, negsuc}
use bookie_breaker_bookie_em.Domain.{Market, spread, moneyline, Side, home, draw, League, nba, epl}
use bookie_breaker_bookie_em.Float.Fixed.{Fixed}
use bookie_breaker_bookie_em.Clients.{LineSnapshot, Game, BoxScore, PlayerLine, soccer_line}
use bookie_breaker_bookie_em.Core.Errors.{ok, err, not_found}
use bookie_breaker_bookie_em.Core.Slug.{Unicode, codes}
use bookie_breaker_bookie_em.Db.Rows.{Database}
use bookie_breaker_bookie_em.Db.Values.{BetValues, LegValues, GradeValues}
use bookie_breaker_bookie_em.Services.Action.{World, Context}
use bookie_breaker_bookie_em.Services.Grader.Values.{Completed}

-- a number of ten-thousandths
abbrev pub ten_thousandths : ℤ → Fixed
ten_thousandths a = some a

-- 2.0 and 1.9
abbrev pub evens : Fixed
evens = ten_thousandths (pos 20_000)

abbrev pub odds_on : Fixed
odds_on = ten_thousandths (pos 19_000)

-- -3.5, and 1.0
abbrev pub favoured : Fixed
favoured = ten_thousandths (negsuc 34_999)

abbrev pub one_unit : Fixed
one_unit = ten_thousandths (pos 10_000)

abbrev pub bet_values : String → League → Market → Side → BetValues Fixed
bet_values key league market side = record {
  game_id = some 7;
  game_external_id = "game-7";
  league = league;
  market_type = market;
  selection = "Home";
  side = some side;
  player_external_id = none;
  stat_type = none;
  prop_type = none;
  line_value = some favoured;
  sportsbook_id = none;
  sportsbook_key = "book";
  odds_american = negsuc 109;
  odds_decimal = odds_on;
  stake = one_unit;
  predicted_probability = ten_thousandths (pos 5_500);
  edge_at_placement = ten_thousandths (pos 300);
  kelly_fraction = ten_thousandths (pos 250);
  reasoning = none;
  prediction_id = none;
  edge_id = none;
  idempotency_key = key;
  game_start_at = some 100;
  is_live = false;
  is_parlay = false;
}

abbrev pub leg_values : ℕ → LegValues Fixed
leg_values index = record {
  leg_index = index;
  game_id = some 7;
  game_external_id = "game-7";
  league = epl;
  market_type = moneyline;
  selection = "Draw";
  side = some draw;
  player_external_id = none;
  stat_type = none;
  prop_type = none;
  line_value = none;
  odds_american = pos 100;
  odds_decimal = evens;
}

-- a grade without scores and closing line
abbrev pub plain_grade : GradeValues Fixed
plain_grade = record {
  actual_result = "Home won by 4";
  actual_home_score = none;
  actual_away_score = none;
  actual_margin = none;
  actual_total = none;
  game_result_id = none;
  profit_loss = ten_thousandths (pos 9_000);
  closing_line_value = none;
  closing_odds = none;
  clv = none;
  prop_columns = none;
}

abbrev pub closing_line : String → Fixed → LineSnapshot Fixed
closing_line book line_value = record {
  game_id = "game-7";
  sportsbook_id = none;
  sportsbook_key = book;
  market_type = some spread;
  selection = "Home";
  side = some home;
  line_value = some line_value;
  odds_american = negsuc 104;
  odds_decimal = odds_on;
  is_live = false;
  timestamp = "";
}

abbrev pub no_fold : Unicode
no_fold = record { ascii_fold = codes }

abbrev pub scorer : PlayerLine
scorer = soccer_line record {
  player_name = "Kylian M";
  goals = pos 1;
  assists = pos 0;
  shots = pos 3;
  shots_on_target = pos 2;
}

abbrev pub scorers : BoxScore
scorers = record {
  game_id = 7;
  sport = "SOCCER";
  home_team = record { players = []; soccer_players = []; baseball_players = [] };
  away_team = record {
    players = [];
    soccer_players =
        record {
          player_name = "Kylian M";
          goals = pos 1;
          assists = pos 0;
          shots = pos 3;
          shots_on_target = pos 2;
        }
        ∷ [];
    baseball_players = [];
  };
}

-- a game that the home team won 104 to 100
abbrev pub final_game : Game
final_game = record {
  id = 7;
  league = nba;
  status = "FINAL";
  home_team = record { name = "Home"; abbreviation = "H" };
  away_team = record { name = "Away"; abbreviation = "" };
  scheduled_start = "";
  result = some record {
    id = some 9;
    home_score = pos 104;
    away_score = pos 100;
    total_score = pos 204;
    margin = pos 4;
    regulation_home_score = none;
    regulation_away_score = none;
  };
}

abbrev pub completed : Completed
completed = record {
  scores = record {
    home_score = pos 104;
    away_score = pos 100;
    regulation_home_score = none;
    regulation_away_score = none;
  };
  total = none;
  margin = none;
  home_team = some "H";
  away_team = some "Away";
  game_result_id = none;
}

-- the services answer, and no redis client is configured
abbrev pub context : Context Fixed
context = record {
  get_game = λ _. ok final_game;
  get_box_score = λ _. err not_found;
  closing_lines = λ _. ok (closing_line "book" favoured ∷ []);
  unicode = no_fold;
  starting_bankroll_units = ten_thousandths (pos 1_000_000);
  has_redis = false;
}

abbrev pub world_of : Database → World Fixed
world_of db = record { db = db; events = []; next_id = 50; clock = 200; game_map = [] }
