-- ===== src/Services/Bets/Place.antt =====
-- BetService.place_bet and `_check_bankroll`.
use bookie_breaker_bookie_em.Base.{Bool, String, if◌then◌else◌}
use bookie_breaker_bookie_em.Float.{Float, zero_f}
use bookie_breaker_bookie_em.Core.Errors.{ok, err, unprocessable}
use bookie_breaker_bookie_em.Db.Numeric.{Numeric}
use bookie_breaker_bookie_em.Db.Rows.{Database, PaperBetRecord}
use bookie_breaker_bookie_em.Db.Values.{BetValues}
use bookie_breaker_bookie_em.Db.Repository.Inserts.{insert_idempotent}
use bookie_breaker_bookie_em.Db.Repository.Queries.{total_profit, open_exposure}
use bookie_breaker_bookie_em.Services.Action.{committed, Action, raise_if, ◌>>=◌, ◌>>◌}
use bookie_breaker_bookie_em.Services.Bets.Odds.{Desk}
use bookie_breaker_bookie_em.Services.Bets.Price.{PlaceBetRequest, price}

module _ {W : Type 0} ⦃f : Float W⦄ ⦃n : Numeric W⦄ where
  -- the bankroll less the stakes of the open bets
  unfoldable pub available_units : W → Database → W
  available_units starting db = f.sub (f.add starting (total_profit db)) (open_exposure db)

  abbrev pub check_bankroll : Desk W → W → Action W (Unit {0})
  check_bankroll c stake w = (
    if f.lt (available_units c.starting_bankroll_units w.db) stake
        then err unprocessable
        else ok tt,
    w,
  )

  abbrev pub repo_insert : BetValues W → Action W (PaperBetRecord W × Bool)
  repo_insert values w = committed (insert_idempotent w.next_id w.clock values w.db) w

  -- what follows the capture of the odds
  abbrev pub place_at : Desk W → BetValues W → Action W (PaperBetRecord W × Bool)
  place_at c values = check_bankroll c values.stake >> repo_insert values

  unfoldable pub place_bet :
      Desk W → PlaceBetRequest W → String → Action W (PaperBetRecord W × Bool)
  place_bet c request idempotency_key = do
    raise_if (f.le request.stake zero_f) unprocessable
    values ← price c request idempotency_key
    place_at c values
