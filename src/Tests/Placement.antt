-- ===== src/Tests/Placement.antt =====
-- Tests of services/bets.py.

use bookie_breaker_bookie_em.Base.{ℕ, ◌≡◌, refl, Bool, true, false, none, some, [], ◌∷◌, str_eq}
use bookie_breaker_bookie_em.Base.Int.{pos}
use bookie_breaker_bookie_em.Domain.{spread, moneyline, home}
use bookie_breaker_bookie_em.Float.{zero_f}
use bookie_breaker_bookie_em.Float.Fixed.{Fixed, fixed_float, fixed_runs}
use bookie_breaker_bookie_em.Core.Errors.{Result, ok, err, unprocessable}
use bookie_breaker_bookie_em.Db.Numeric.{fixed_numeric, numeric_runs}
use bookie_breaker_bookie_em.Db.Rows.{PaperBetRecord}
use bookie_breaker_bookie_em.Db.Values.{BetValues}
use bookie_breaker_bookie_em.Db.Repository.Inserts.{insert_idempotent, inserts_run}
use bookie_breaker_bookie_em.Db.Repository.Queries.{total_profit, open_exposure}
use bookie_breaker_bookie_em.Services.Action.{World}
use bookie_breaker_bookie_em.Services.Bets.Odds.{Desk, quote_of_snapshot, capture_odds}
use bookie_breaker_bookie_em.Services.Bets.Price.{
  PlaceBetRequest, is_open_for_betting, edge_percent_to_fraction, price, selection_of,
  given_or_resolved, reconcile,
}
use bookie_breaker_bookie_em.Services.Bets.Place.{available_units, place_bet}
use bookie_breaker_bookie_em.Services.Bets.Funded.{IsPriced, place_bet_funded}
use bookie_breaker_bookie_em.Services.Bets.Legs.{
  ParlayLegRequest, check_leg, same_key, validate_parlay_legs,
}
use bookie_breaker_bookie_em.Services.Bets.Distinct.{IsAdmitted, validate_parlay_legs-IsAdmitted}
use bookie_breaker_bookie_em.Services.Bets.Chosen.{capture_odds_pinned}
use bookie_breaker_bookie_em.Core.Odds.{decimal_to_american}
use bookie_breaker_bookie_em.Core.Parlay.{combined_decimal}
use bookie_breaker_bookie_em.Db.Repository.Inserts.{insert_parlay}
use bookie_breaker_bookie_em.Services.Bets.Odds.{quote_of_best}
use bookie_breaker_bookie_em.Services.Bets.LegPrices.{price_leg, price_legs}
use bookie_breaker_bookie_em.Services.Bets.Ticket.{
  PlaceParlayRequest, PricedLeg, parent_of_legs, parlay_selection, earliest,
}
use bookie_breaker_bookie_em.Services.Bets.Parlay.{Placed, place_parlay}
use bookie_breaker_bookie_em.Services.Bets.Committed.{place_parlay_funded, place_parlay_raises}
use bookie_breaker_bookie_em.Services.Bets.Starts.{IsEarliest}
use bookie_breaker_bookie_em.Services.Bets.Scheduled.{place_parlay_starts}
use bookie_breaker_bookie_em.Services.Bets.Remaps.{Remaps}
use bookie_breaker_bookie_em.Clients.{Game}
use bookie_breaker_bookie_em.Clients.Reconcile.{Lookup, Cache, resolve, cached, first_match}
use bookie_breaker_bookie_em.Base.{map, List}
use bookie_breaker_bookie_em.Tests.Data.{
  evens, ten_thousandths, favoured, one_unit, closing_line, final_game, world_of,
}
use bookie_breaker_bookie_em.Tests.Stored.{first_bet, one_bet}

-- the reconciler finds the home team of "game-7"
abbrev desk_lookup : Lookup Fixed
desk_lookup = record {
  current_lines = λ _ _. ok (closing_line "book" favoured ∷ []);
  normalize = λ name. name;
  game_date = λ _. none;
  ttl_seconds = 86_400;
  get_raises = λ _. none;
  set_raises = λ _. none;
}

-- a game before its start, and one line of one book
abbrev pub desk : Desk Fixed
desk = record {
  get_game = λ _. ok (record final_game { status = "SCHEDULED"; result = none });
  lookup = desk_lookup;
  game_lines = λ _. ok (closing_line "book" favoured ∷ []);
  best_lines = λ _ _. ok [];
  parse_start = λ _. some 300;
  parse_uuid = λ _. none;
  utc_now = 200;
  starting_bankroll_units = ten_thousandths (pos 1_000_000);
  kelly_fraction = ten_thousandths (pos 2_500);
}

abbrev pub request_of : Fixed → PlaceBetRequest Fixed
request_of stake = record {
  game_id = 7;
  game_external_id = none;
  edge_id = none;
  prediction_id = none;
  market_type = spread;
  selection = "Home";
  side = home;
  sportsbook_key = some "book";
  player_external_id = none;
  stat_type = none;
  prop_type = none;
  predicted_probability = ten_thousandths (pos 5_500);
  edge_percentage = ten_thousandths (pos 30_000);
  stake = stake;
  kelly_fraction = none;
  reasoning = none;
  is_live = false;
}

abbrev result_of :
    Result (PaperBetRecord Fixed × Bool) → PaperBetRecord Fixed × Bool → PaperBetRecord Fixed × Bool
result_of (ok r) d = r
result_of (err e) d = d

abbrev placed_result : PaperBetRecord Fixed × Bool
placed_result =
    result_of (place_bet desk (request_of one_unit) "new" (world_of one_bet)).0 (first_bet, false)

abbrev placed : World Fixed
placed = (place_bet desk (request_of one_unit) "new" (world_of one_bet)).1

place_bet_funded_example :
    (fixed_float.le one_unit zero_f ≡ false)
    × (fixed_float.lt (available_units desk.starting_bankroll_units one_bet) one_unit ≡ false)
    × (values : BetValues Fixed) × IsPriced desk
        (request_of one_unit)
        "new"
        (world_of one_bet)
        values
    × (insert_idempotent 50 200 values one_bet ≡ ok (placed_result, placed.db))
unfolding place_bet price given_or_resolved reconcile resolve cached first_match available_units
    capture_odds inserts_run fixed_runs numeric_runs total_profit open_exposure is_open_for_betting
    quote_of_snapshot
place_bet_funded_example =
    place_bet_funded desk (request_of one_unit) "new" (world_of one_bet) placed placed_result refl

abbrev leg : ℕ → ParlayLegRequest
leg game_id = record {
  game_id = game_id;
  game_external_id = none;
  market_type = moneyline;
  selection = "Home";
  side = home;
  sportsbook_key = none;
  player_external_id = none;
  stat_type = none;
  prop_type = none;
}

validate_parlay_legs-IsAdmitted_example : IsAdmitted (leg 7 ∷ []) (leg 8)
unfolding validate_parlay_legs check_leg same_key
validate_parlay_legs-IsAdmitted_example =
    validate_parlay_legs-IsAdmitted (leg 7 ∷ []) (leg 8) [] refl

capture_odds_pinned_example :
    str_eq (quote_of_snapshot (closing_line "book" favoured)).sportsbook_key "book" ≡ true
unfolding capture_odds
capture_odds_pinned_example =
    capture_odds_pinned desk (selection_of (request_of one_unit)) "book" "game-7" false
      (quote_of_snapshot (closing_line "book" favoured)) refl refl refl

abbrev ticket : Fixed → PlaceParlayRequest Fixed
ticket stake = record {
  legs = leg 7 ∷ leg 8 ∷ [];
  predicted_probability = ten_thousandths (pos 3_000);
  edge_percentage = ten_thousandths (pos 30_000);
  stake = stake;
  kelly_fraction = none;
  reasoning = none;
}

-- lines of two books for the moneyline
abbrev busy_desk : Desk Fixed
busy_desk = record desk {
  best_lines = λ _ _. ok (
      record {
        market_type = some moneyline;
        selection = "Home";
        side = some home;
        line_value = none;
        best_odds_american = pos 100;
        best_odds_decimal = evens;
        sportsbook_id = none;
        sportsbook_key = "book";
        is_live = false;
        timestamp = "";
      }
      ∷ []);
}

abbrev ticket_result_of : Result (Placed Fixed) → Placed Fixed → Placed Fixed
ticket_result_of (ok r) d = r
ticket_result_of (err e) d = d

abbrev ticket_result : Placed Fixed
ticket_result =
    ticket_result_of (place_parlay busy_desk (ticket one_unit) "new" (world_of one_bet)).0
      (first_bet, [], false)

abbrev ticket_placed : World Fixed
ticket_placed = (place_parlay busy_desk (ticket one_unit) "new" (world_of one_bet)).1

place_parlay_funded_example :
    (fixed_float.le one_unit zero_f ≡ false)
    × (fixed_float.lt (available_units busy_desk.starting_bankroll_units one_bet) one_unit ≡ false)
    × (validate_parlay_legs (leg 7 ∷ leg 8 ∷ []) ≡ ok tt)
    × (legs : List (PricedLeg Fixed)) × (values : BetValues Fixed) × (m : Cache) × (price_legs
          busy_desk 0
          (leg 7 ∷ leg 8 ∷ [])
          (world_of one_bet)
        ≡ (ok legs, record (world_of one_bet) { game_map = m }))
    × (parent_of_legs busy_desk (ticket one_unit) "new" legs ≡ ok values)
    × (insert_parlay 50 51 200 values (map (λ p. p.values) legs) one_bet
        ≡ ok (ticket_result, ticket_placed.db))
unfolding place_parlay validate_parlay_legs check_leg same_key price_legs price_leg
    given_or_resolved reconcile resolve cached first_match parent_of_legs available_units
    capture_odds inserts_run fixed_runs numeric_runs total_profit open_exposure is_open_for_betting
    quote_of_best combined_decimal decimal_to_american parlay_selection earliest
    edge_percent_to_fraction
place_parlay_funded_example =
    place_parlay_funded busy_desk (ticket one_unit) "new" (world_of one_bet) ticket_placed
      ticket_result refl

place_parlay_raises_example : Remaps (world_of one_bet) (world_of one_bet)
unfolding place_parlay validate_parlay_legs fixed_runs
place_parlay_raises_example =
    place_parlay_raises busy_desk (ticket zero_f) "new" unprocessable (world_of one_bet)
      (world_of one_bet) refl

place_parlay_starts_example :
    (games : List Game) × (map
        (λ (l : ParlayLegRequest). busy_desk.get_game l.game_id)
        (leg 7 ∷ leg 8 ∷ [])
      ≡ map ok games)
    × IsEarliest
        (map (λ (g : Game). busy_desk.parse_start g.scheduled_start) games)
        ticket_result.0.game_start_at
unfolding place_parlay validate_parlay_legs check_leg same_key price_legs price_leg
    given_or_resolved reconcile resolve cached first_match parent_of_legs available_units
    capture_odds inserts_run fixed_runs numeric_runs total_profit open_exposure is_open_for_betting
    quote_of_best combined_decimal decimal_to_american parlay_selection earliest
    edge_percent_to_fraction
place_parlay_starts_example =
    place_parlay_starts busy_desk (ticket one_unit) "new" (world_of one_bet) ticket_placed
      ticket_result.0 ticket_result.1 refl
