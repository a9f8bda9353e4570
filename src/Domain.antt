-- ===== src/Domain.antt =====
-- The vocabularies of db/tables.py (the enum types and the side constraint), as data types.
use bookie_breaker_bookie_em.Base.{ℕ, Bool, true, false, ◌==◌, String}

-- bet_result_enum; OPEN is `opened`.
pub data Status : Type 0 where
  opened won lost push void : Status

-- market_type_enum
pub data Market : Type 0 where
  spread total moneyline player_prop team_prop game_prop future live : Market

-- the values that chk_paper_bets_side admits
pub data Side : Type 0 where
  home away draw over under side_yes side_no : Side

-- league_enum
pub data League : Type 0 where
  nfl nba mlb ncaa_fb ncaa_bb ncaa_bsb fifa_wc epl nhl ncaa_hky : League

abbrev status_code : Status → ℕ
status_code opened = 0
status_code won = 1
status_code lost = 2
status_code push = 3
status_code void = 4

abbrev market_code : Market → ℕ
market_code spread = 0
market_code total = 1
market_code moneyline = 2
market_code player_prop = 3
market_code team_prop = 4
market_code game_prop = 5
market_code future = 6
market_code live = 7

abbrev side_code : Side → ℕ
side_code home = 0
side_code away = 1
side_code draw = 2
side_code over = 3
side_code under = 4
side_code side_yes = 5
side_code side_no = 6

abbrev league_code : League → ℕ
league_code nfl = 0
league_code nba = 1
league_code mlb = 2
league_code ncaa_fb = 3
league_code ncaa_bb = 4
league_code ncaa_bsb = 5
league_code fifa_wc = 6
league_code epl = 7
league_code nhl = 8
league_code ncaa_hky = 9

abbrev pub eq_league : League → League → Bool
eq_league a b = league_code a == league_code b

abbrev pub eq_status : Status → Status → Bool
eq_status a b = status_code a == status_code b

abbrev pub eq_market : Market → Market → Bool
eq_market a b = market_code a == market_code b

abbrev pub eq_side : Side → Side → Bool
eq_side a b = side_code a == side_code b

-- PROP_MARKETS of api/schemas.py
abbrev pub is_prop : Market → Bool
is_prop player_prop = true
is_prop team_prop = true
is_prop game_prop = true
is_prop _ = false

-- the values of league_enum and market_type_enum as texts
abbrev pub league_name : League → String
league_name nfl = "NFL"
league_name nba = "NBA"
league_name mlb = "MLB"
league_name ncaa_fb = "NCAA_FB"
league_name ncaa_bb = "NCAA_BB"
league_name ncaa_bsb = "NCAA_BSB"
league_name fifa_wc = "FIFA_WC"
league_name epl = "EPL"
league_name nhl = "NHL"
league_name ncaa_hky = "NCAA_HKY"

abbrev pub market_name : Market → String
market_name spread = "SPREAD"
market_name total = "TOTAL"
market_name moneyline = "MONEYLINE"
market_name player_prop = "PLAYER_PROP"
market_name team_prop = "TEAM_PROP"
market_name game_prop = "GAME_PROP"
market_name future = "FUTURE"
market_name live = "LIVE"
