-- ===== src/Services/Bets/LegPrices.antt =====
-- The loop of place_parlay over the legs, which asks the other services about each.
use bookie_breaker_bookie_em.Base.{ℕ, suc, false, List, [], ◌∷◌, if◌then◌else◌}
use bookie_breaker_bookie_em.Clients.{Game}
use bookie_breaker_bookie_em.Core.Errors.{Result, ok, err, unprocessable}
use bookie_breaker_bookie_em.Services.Action.{Action, pure, lift, ◌>>=◌, ◌>>◌}
use bookie_breaker_bookie_em.Services.Grader.Manual.{found_or_unprocessable}
use bookie_breaker_bookie_em.Services.Bets.Odds.{Desk, capture_odds}
use bookie_breaker_bookie_em.Services.Bets.Legs.{ParlayLegRequest}
use bookie_breaker_bookie_em.Services.Bets.Price.{is_open_for_betting, matched, given_or_resolved}
use bookie_breaker_bookie_em.Services.Bets.Ticket.{PricedLeg, priced_leg, leg_selection}

module _ {W : Type 0} where
  abbrev pub leg_open : Desk W → Game → Result (Unit {0})
  leg_open c game =
      if is_open_for_betting false c.utc_now game.status (c.parse_start game.scheduled_start)
      then ok tt
      else err unprocessable

  -- the body of the loop over the legs
  unfoldable pub price_leg : Desk W → ℕ → ParlayLegRequest → Action W (PricedLeg W)
  unfolding given_or_resolved priced_leg
  price_leg c index leg = do
    game ← lift (found_or_unprocessable (c.get_game leg.game_id))
    lift (leg_open c game)
    resolved ← given_or_resolved c game leg.game_external_id
    external_id ← lift (matched resolved)
    odds ← lift (capture_odds c (leg_selection leg) external_id false)
    pure (priced_leg c index leg game external_id odds)

  unfoldable pub price_legs : Desk W → ℕ → List ParlayLegRequest → Action W (List (PricedLeg W))
  unfolding price_leg
  price_legs c index [] = pure []
  price_legs c index (leg ∷ legs) = do
    p ← price_leg c index leg
    ps ← price_legs c (suc index) legs
    pure (p ∷ ps)
