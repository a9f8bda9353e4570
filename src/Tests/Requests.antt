-- ===== src/Tests/Requests.antt =====
-- Tests of the answers to requests and of the reconciler.
use bookie_breaker_bookie_em.Base.{ℕ, ◌≡◌, refl, arith, none, some, List, [], ◌∷◌}
use bookie_breaker_bookie_em.Base.Int.{pos}
use bookie_breaker_bookie_em.Domain.{moneyline, away}
use bookie_breaker_bookie_em.Float.Fixed.{Fixed, fixed_float, fixed_runs}
use bookie_breaker_bookie_em.Clients.{LineSnapshot}
use bookie_breaker_bookie_em.Clients.Reconcile.{Lookup, cached, first_match, resolve}
use bookie_breaker_bookie_em.Clients.Reconcile.Named.{FirstNamed}
use bookie_breaker_bookie_em.Clients.Reconcile.Settles.{
  at_once, time_passed, then_resolved, resolve_settles,
}
use bookie_breaker_bookie_em.Services.Bets.Remaps.{Remaps}
use bookie_breaker_bookie_em.Core.Errors.{Result, ok, err, not_found, unprocessable}
use bookie_breaker_bookie_em.Db.Numeric.{fixed_numeric, numeric_runs}
use bookie_breaker_bookie_em.Db.Repository.Inserts.{inserts_run}
use bookie_breaker_bookie_em.Db.Repository.Queries.{total_profit, open_exposure}
use bookie_breaker_bookie_em.Services.Action.{World}
use bookie_breaker_bookie_em.Services.Bets.Odds.{quote_of_snapshot, capture_odds}
use bookie_breaker_bookie_em.Services.Bets.Price.{
  is_open_for_betting, price, given_or_resolved, reconcile,
}
use bookie_breaker_bookie_em.Services.Bets.Place.{available_units, place_bet}
use bookie_breaker_bookie_em.Api.Schemas.Bets.{BetData, bet_to_data}
use bookie_breaker_bookie_em.Api.Schemas.Requests.{side_valid_for_market, valid_bet}
use bookie_breaker_bookie_em.Api.Routes.Bets.{get_bet}
use bookie_breaker_bookie_em.Api.Routes.Placement.{post_bet}
use bookie_breaker_bookie_em.Api.Routes.Placement.Shown.{
  undecided, post_bet-get_bet, post_bet_raises,
}
use bookie_breaker_bookie_em.Tests.Data.{
  ten_thousandths, one_unit, closing_line, final_game, world_of, favoured,
}
use bookie_breaker_bookie_em.Tests.Stored.{first_bet, one_bet, one_bet-IsConsistent}
use bookie_breaker_bookie_em.Tests.Placement.{desk, request_of}

abbrev answer_of : Result (ℕ × BetData Fixed) → BetData Fixed
answer_of (ok (code, shown)) = shown
answer_of (err e) = bet_to_data first_bet none one_unit

-- a new bet of one unit
abbrev posted : Result (ℕ × BetData Fixed) × World Fixed
posted = post_bet desk one_unit (request_of one_unit) "new" (world_of one_bet)

post_bet-get_bet_example :
    get_bet one_unit posted.1.db (answer_of posted.0).id ≡ ok (undecided (answer_of posted.0))
unfolding post_bet valid_bet side_valid_for_market place_bet price given_or_resolved reconcile
    resolve cached first_match available_units capture_odds inserts_run fixed_runs numeric_runs
    total_profit open_exposure is_open_for_betting quote_of_snapshot
post_bet-get_bet_example =
    post_bet-get_bet desk one_unit (request_of one_unit) "new" (answer_of posted.0)
      (world_of one_bet) posted.1 one_bet-IsConsistent refl

-- a stake of a million units
post_bet_raises_example :
    Remaps
      (world_of one_bet)
      (record (world_of one_bet) { game_map = (7, ("game-7", 86_600)) ∷ [] })
unfolding post_bet valid_bet side_valid_for_market place_bet price given_or_resolved reconcile
    resolve cached first_match available_units capture_odds inserts_run fixed_runs numeric_runs
    total_profit open_exposure is_open_for_betting quote_of_snapshot
post_bet_raises_example =
    post_bet_raises desk one_unit (request_of (ten_thousandths (pos 10_000_000_000))) "new"
      unprocessable (world_of one_bet)
      (record (world_of one_bet) { game_map = (7, ("game-7", 86_600)) ∷ [] }) refl

-- a row for the away team of another game, then one that names the home team
abbrev moneylines : List (LineSnapshot Fixed)
moneylines =
    record (closing_line "book" favoured) {
      market_type = some moneyline;
      selection = "Other";
      side = some away;
    }
    ∷ record (closing_line "book" favoured) { market_type = some moneyline; game_id = "game-8" }
    ∷ []

abbrev lookup : Lookup Fixed
lookup = record {
  current_lines = λ league date. ok moneylines;
  normalize = λ name. name;
  game_date = λ start. none;
  ttl_seconds = 86_400;
  get_raises = λ _. none;
  set_raises = λ _. none;
}

-- lines-service is down
abbrev no_lookup : Lookup Fixed
no_lookup = record lookup { current_lines = λ league date. err not_found }

-- A call for another game comes in between.
resolve_settles_example :
    FirstNamed lookup final_game moneylines "game-8"
    × (resolve no_lookup final_game 300 ((9, ("game-8", 86_650)) ∷ (7, ("game-8", 86_600)) ∷ [])
        ≡ (ok (some "game-8"), (9, ("game-8", 86_650)) ∷ (7, ("game-8", 86_600)) ∷ []))
unfolding resolve cached first_match
resolve_settles_example =
    resolve_settles lookup no_lookup final_game 200 300 [] ((7, ("game-8", 86_600)) ∷ [])
      ((9, ("game-8", 86_650)) ∷ (7, ("game-8", 86_600)) ∷ []) "game-8" moneylines refl refl refl
      refl
      (time_passed 300
        (then_resolved 250 lookup (record final_game { id = 9 }) at_once (omega arith))
        (omega arith))
      (omega arith) refl
