-- ===== src/Api/Schemas/Requests.antt =====
-- What pydantic checks of the bodies of requests before a handler runs: the constraints of the
-- fields and the validators. A violation is the answer 400.
use bookie_breaker_bookie_em.Base.{
  Bool, true, false, not, ◌&&◌, ◌||◌, leb, Option, none, some, List, [], ◌∷◌, length, is_blank,
  String, str_eq,
}
use bookie_breaker_bookie_em.Domain.{
  Market, moneyline, future, live, Side, draw, is_prop, eq_market, eq_side,
}
use bookie_breaker_bookie_em.Float.{Float, zero_f, one_f}
use bookie_breaker_bookie_em.Core.Errors.{Result, ok, validation_error, ◌>>◌, raise_if}
use bookie_breaker_bookie_em.Services.Bets.Price.{PlaceBetRequest}
use bookie_breaker_bookie_em.Services.Bets.Legs.{ParlayLegRequest, is_yes_no}
use bookie_breaker_bookie_em.Services.Bets.Ticket.{PlaceParlayRequest}

-- the literals of MarketType
abbrev pub is_api_market : Market → Bool
is_api_market future = false
is_api_market live = false
is_api_market _ = true

-- the literals of prop_type
abbrev pub is_prop_type : Option String → Bool
is_prop_type none = true
is_prop_type (some t) = str_eq t "OVER_UNDER" || str_eq t "YES_NO"

-- DRAW stands on moneylines only, YES and NO on props only.
unfoldable pub side_valid_for_market : Market → Side → Result (Unit {0})
side_valid_for_market market side = do
  raise_if (eq_side side draw && not (eq_market market moneyline)) validation_error
  raise_if (is_yes_no side && not (is_prop market)) validation_error

-- ParlayLegRequest, with its validator
unfoldable pub valid_leg : ParlayLegRequest → Result (Unit {0})
unfolding side_valid_for_market
valid_leg leg = do
  raise_if (not (is_api_market leg.market_type && is_prop_type leg.prop_type)) validation_error
  side_valid_for_market leg.market_type leg.side

unfoldable pub valid_legs : List ParlayLegRequest → Result (Unit {0})
valid_legs [] = ok tt
valid_legs (leg ∷ legs) = valid_leg leg >> valid_legs legs

module _ {W : Type 0} ⦃f : Float W⦄ where
  -- Field(default=None, ge=0.0, le=1.0)
  abbrev pub valid_kelly : Option W → Bool
  valid_kelly none = true
  valid_kelly (some k) = f.le zero_f k && f.le k one_f

  -- Field(gt=0.0, lt=1.0) and Field(gt=0.0)
  abbrev pub valid_numbers : W → W → Option W → Bool
  valid_numbers probability edge kelly =
      f.lt zero_f probability && f.lt probability one_f && f.lt zero_f edge && valid_kelly kelly

  -- PlaceBetRequest, with its validator
  unfoldable pub valid_bet : PlaceBetRequest W → Result (Unit {0})
  unfolding side_valid_for_market
  valid_bet request = do
    raise_if (not (is_api_market request.market_type && is_prop_type request.prop_type))
        validation_error
    raise_if
        (not (
          valid_numbers request.predicted_probability request.edge_percentage
            request.kelly_fraction))
        validation_error
    side_valid_for_market request.market_type request.side
    raise_if (is_prop request.market_type && is_blank request.stat_type) validation_error

  -- PlaceParlayRequest: PARLAY_MIN_LEGS = 2 and PARLAY_MAX_LEGS = 6
  unfoldable pub valid_parlay : PlaceParlayRequest W → Result (Unit {0})
  unfolding valid_legs
  valid_parlay request = do
    raise_if (not (leb 2 (length request.legs) && leb (length request.legs) 6)) validation_error
    raise_if
        (not (
          valid_numbers request.predicted_probability request.edge_percentage
            request.kelly_fraction))
        validation_error
    valid_legs request.legs
