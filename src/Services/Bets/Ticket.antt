-- ===== src/Services/Bets/Ticket.antt =====
-- What place_parlay asks of the other services, and the values that it makes of the answers.
use bookie_breaker_bookie_em.Base.{
  ℕ, zero, suc, leb, ltb, Bool, true, false, Option, none, some, List, [], ◌∷◌, String, ◌<>◌, map,
  all, length, str_eq, show_ℕ, if◌then◌else◌,
}
use bookie_breaker_bookie_em.Float.{Float}
use bookie_breaker_bookie_em.Clients.{Game}
use bookie_breaker_bookie_em.Core.Errors.{Result, ok, err, value_error, ◌>>=◌}
use bookie_breaker_bookie_em.Core.Odds.{decimal_to_american}
use bookie_breaker_bookie_em.Core.Parlay.{combined_decimal}
use bookie_breaker_bookie_em.Db.Values.{BetValues, LegValues}
use bookie_breaker_bookie_em.Services.Bets.Odds.{Desk, OddsSelection, Quote}
use bookie_breaker_bookie_em.Services.Bets.Legs.{ParlayLegRequest}
use bookie_breaker_bookie_em.Services.Bets.Price.{default_to, edge_percent_to_fraction}

-- PlaceParlayRequest
pub record PlaceParlayRequest (W : Type 0) : Type 0 where
  pub legs : List ParlayLegRequest
  pub predicted_probability : W
  pub edge_percentage : W
  pub stake : W
  pub kelly_fraction : Option W
  pub reasoning : Option String

-- one entry of `leg_values`, with what the loop appends to `starts`, `book_keys` and `book_ids`
pub record PricedLeg (W : Type 0) : Type 0 where
  pub values : LegValues W
  pub start_at : Option ℕ
  pub book_key : String
  pub book_id : Option ℕ

-- `min(starts) if starts else None`
unfoldable pub sooner : ℕ → Option ℕ → Option ℕ
sooner t none = some t
sooner t (some u) = if leb t u then some t else some u

unfoldable pub earliest : List (Option ℕ) → Option ℕ
unfolding sooner
earliest [] = none
earliest (none ∷ starts) = earliest starts
earliest (some t ∷ starts) = sooner t (earliest starts)

-- `" + ".join(selections)`
unfoldable pub join_plus : List String → String
join_plus [] = ""
join_plus (s ∷ []) = s
join_plus (s ∷ t ∷ rest) = s <> " + " <> join_plus (t ∷ rest)

unfoldable pub text_length : String → ℕ
text_length String.[] = 0
text_length (String.◌∷◌ c s) = suc (text_length s)

unfoldable pub text_take : ℕ → String → String
text_take zero s = ""
text_take (suc n) String.[] = ""
text_take (suc n) (String.◌∷◌ c s) = String.◌∷◌ c (text_take n s)

-- capped at _PARLAY_SELECTION_MAX
unfoldable pub capped : String → String
unfolding text_length text_take
capped selection =
    if ltb 500 (text_length selection) then text_take 499 selection <> "…" else selection

unfoldable pub parlay_selection : List ParlayLegRequest → String
unfolding capped join_plus
parlay_selection legs =
    capped (show_ℕ (length legs) <> "-leg parlay: " <> join_plus (map (λ l. l.selection) legs))

abbrev pub leg_selection : ParlayLegRequest → OddsSelection
leg_selection leg = record {
  market_type = leg.market_type;
  selection = leg.selection;
  side = leg.side;
  sportsbook_key = leg.sportsbook_key;
}

module _ {W : Type 0} where
  unfoldable pub priced_leg : Desk W → ℕ → ParlayLegRequest → Game → String → Quote W → PricedLeg W
  priced_leg c index leg game external_id odds = record {
    values = record {
      leg_index = index;
      game_id = some leg.game_id;
      game_external_id = external_id;
      league = game.league;
      market_type = leg.market_type;
      selection = leg.selection;
      side = some leg.side;
      player_external_id = leg.player_external_id;
      stat_type = leg.stat_type;
      prop_type = leg.prop_type;
      line_value = odds.line_value;
      odds_american = odds.odds_american;
      odds_decimal = odds.odds_decimal;
    };
    start_at = c.parse_start game.scheduled_start;
    book_key = odds.sportsbook_key;
    book_id = c.parse_uuid odds.sportsbook_id;
  }

  -- `len(set(book_keys)) == 1`
  abbrev pub uniform_book : PricedLeg W → List (PricedLeg W) → Bool
  uniform_book p ps = all (λ q. str_eq q.book_key p.book_key) ps

module _ {W : Type 0} ⦃f : Float W⦄ where
  unfoldable pub parent_of_legs :
      Desk W → PlaceParlayRequest W → String → List (PricedLeg W) → Result (BetValues W)
  parent_of_legs c request idempotency_key [] = err value_error
  parent_of_legs c request idempotency_key (p ∷ ps) = do
    product ← combined_decimal (map (λ q. q.values.odds_decimal) (p ∷ ps))
    odds_american ← decimal_to_american (f.round_to 4 product)
    ok (record {
      game_id = none;
      game_external_id = "parlay:" <> p.values.game_external_id <> "+" <> show_ℕ (length ps);
      league = p.values.league;
      market_type = p.values.market_type;
      selection = parlay_selection request.legs;
      side = none;
      player_external_id = none;
      stat_type = none;
      prop_type = none;
      line_value = none;
      sportsbook_id = if uniform_book p ps then p.book_id else none;
      sportsbook_key = if uniform_book p ps then p.book_key else "mixed";
      odds_american = odds_american;
      odds_decimal = f.round_to 4 product;
      stake = request.stake;
      predicted_probability = request.predicted_probability;
      edge_at_placement = edge_percent_to_fraction request.edge_percentage;
      kelly_fraction = default_to c.kelly_fraction request.kelly_fraction;
      reasoning = request.reasoning;
      prediction_id = none;
      edge_id = none;
      idempotency_key = idempotency_key;
      game_start_at = earliest (map (λ q. q.start_at) (p ∷ ps));
      is_live = false;
      is_parlay = true;
    })
