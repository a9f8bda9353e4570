-- ===== src/Services/Bets/Price.antt =====
-- What place_bet asks of the other services before it writes: the game, the id of its lines, the odds.
use bookie_breaker_bookie_em.Base.{
  ℕ, leb, Bool, false, not, ◌&&◌, ◌||◌, Option, none, some, String, str_eq, is_blank, if◌then◌else◌,
}
use bookie_breaker_bookie_em.Domain.{Market, Side}
use bookie_breaker_bookie_em.Float.{Float, hundred_f}
use bookie_breaker_bookie_em.Clients.{Game}
use bookie_breaker_bookie_em.Clients.Reconcile.{resolve}
use bookie_breaker_bookie_em.Core.Errors.{Result, ok, err, unprocessable}
use bookie_breaker_bookie_em.Services.Action.{Action, pure, lift, ◌>>=◌, ◌>>◌}
use bookie_breaker_bookie_em.Db.Values.{BetValues}
use bookie_breaker_bookie_em.Services.Grader.Manual.{found_or_unprocessable}
use bookie_breaker_bookie_em.Services.Bets.Odds.{Desk, OddsSelection, Quote, capture_odds}

-- PlaceBetRequest
pub record PlaceBetRequest (W : Type 0) : Type 0 where
  pub game_id : ℕ
  pub game_external_id : Option String
  pub edge_id : Option ℕ
  pub prediction_id : Option ℕ
  pub market_type : Market
  pub selection : String
  pub side : Side
  pub sportsbook_key : Option String
  pub player_external_id : Option String
  pub stat_type : Option String
  pub prop_type : Option String
  pub predicted_probability : W
  pub edge_percentage : W
  pub stake : W
  pub kelly_fraction : Option W
  pub reasoning : Option String
  pub is_live : Bool

abbrev pub has_started : ℕ → Option ℕ → Bool
has_started now none = false
has_started now (some start_at) = leb start_at now

-- A live bet is placed on a game that is SCHEDULED or IN_PROGRESS, another one before the start.
unfoldable pub is_open_for_betting : Bool → ℕ → String → Option ℕ → Bool
is_open_for_betting is_live now status start_at =
    if is_live
    then not (str_eq status "FINAL") && (str_eq status "SCHEDULED" || str_eq status "IN_PROGRESS")
    else str_eq status "SCHEDULED" && not (has_started now start_at)

abbrev pub matched : Option String → Result String
matched none = err unprocessable
matched (some external_id) = ok external_id

-- `x if x is not None else d`
abbrev pub default_to {ℓ} : {A : Type ℓ} → A → Option A → A
default_to d none = d
default_to d (some x) = x

module _ {W : Type 0} where
  abbrev pub to_open : Desk W → PlaceBetRequest W → Game → Result (Unit {0})
  to_open c request game =
      if is_open_for_betting request.is_live c.utc_now game.status
        (c.parse_start game.scheduled_start)
      then ok tt
      else err unprocessable

  -- The reconciler, on the map of games in redis.
  unfoldable pub reconcile : Desk W → Game → Action W (Option String)
  unfolding resolve
  reconcile c game w =
      let r = resolve c.lookup game w.clock w.game_map in (r.0, record w { game_map = r.1 })

  -- `request.game_external_id or await self._reconciler.resolve(game)`
  unfoldable pub given_or_resolved : Desk W → Game → Option String → Action W (Option String)
  unfolding reconcile
  given_or_resolved c game given w = if is_blank given then reconcile c game w else (ok given, w)

  abbrev pub selection_of : PlaceBetRequest W → OddsSelection
  selection_of request = record {
    market_type = request.market_type;
    selection = request.selection;
    side = request.side;
    sportsbook_key = request.sportsbook_key;
  }

  -- the placement time, for a live bet on a game whose start does not parse
  abbrev pub start_or_now : Desk W → PlaceBetRequest W → Option ℕ → Option ℕ
  start_or_now c request none = if request.is_live then some c.utc_now else none
  start_or_now c request (some start_at) = some start_at

module _ {W : Type 0} ⦃f : Float W⦄ where
  unfoldable pub edge_percent_to_fraction : W → W
  edge_percent_to_fraction percent = f.div percent hundred_f

  unfoldable pub placed_values :
      Desk W → PlaceBetRequest W → String → Game → String → Quote W → BetValues W
  placed_values c request idempotency_key game external_id odds = record {
    game_id = some request.game_id;
    game_external_id = external_id;
    league = game.league;
    market_type = request.market_type;
    selection = request.selection;
    side = some request.side;
    player_external_id = request.player_external_id;
    stat_type = request.stat_type;
    prop_type = request.prop_type;
    line_value = odds.line_value;
    sportsbook_id = c.parse_uuid odds.sportsbook_id;
    sportsbook_key = odds.sportsbook_key;
    odds_american = odds.odds_american;
    odds_decimal = odds.odds_decimal;
    stake = request.stake;
    predicted_probability = request.predicted_probability;
    edge_at_placement = edge_percent_to_fraction request.edge_percentage;
    kelly_fraction = default_to c.kelly_fraction request.kelly_fraction;
    reasoning = request.reasoning;
    prediction_id = request.prediction_id;
    edge_id = request.edge_id;
    idempotency_key = idempotency_key;
    game_start_at = start_or_now c request (c.parse_start game.scheduled_start);
    is_live = request.is_live;
    is_parlay = false;
  }

  unfoldable pub price : Desk W → PlaceBetRequest W → String → Action W (BetValues W)
  unfolding given_or_resolved placed_values edge_percent_to_fraction
  price c request idempotency_key = do
    game ← lift (found_or_unprocessable (c.get_game request.game_id))
    lift (to_open c request game)
    resolved ← given_or_resolved c game request.game_external_id
    external_id ← lift (matched resolved)
    odds ← lift (capture_odds c (selection_of request) external_id request.is_live)
    pure (placed_values c request idempotency_key game external_id odds)
