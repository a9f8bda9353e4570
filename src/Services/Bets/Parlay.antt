-- ===== src/Services/Bets/Parlay.antt =====
-- BetService.place_parlay.
use bookie_breaker_bookie_em.Base.{ℕ, ◌+◌, Bool, List, String, map, length}
use bookie_breaker_bookie_em.Float.{Float, zero_f}
use bookie_breaker_bookie_em.Core.Errors.{Result, ok, err, unprocessable}
use bookie_breaker_bookie_em.Db.Numeric.{Numeric}
use bookie_breaker_bookie_em.Db.Rows.{Database, PaperBetRecord, ParlayLegRecord}
use bookie_breaker_bookie_em.Db.Values.{BetValues, LegValues}
use bookie_breaker_bookie_em.Db.Repository.Inserts.{insert_parlay}
use bookie_breaker_bookie_em.Services.Action.{Action, lift, raise_if, ◌>>=◌, ◌>>◌}
use bookie_breaker_bookie_em.Services.Bets.Odds.{Desk}
use bookie_breaker_bookie_em.Services.Bets.Legs.{validate_parlay_legs}
use bookie_breaker_bookie_em.Services.Bets.Place.{check_bankroll}
use bookie_breaker_bookie_em.Services.Bets.LegPrices.{price_legs}
use bookie_breaker_bookie_em.Services.Bets.Ticket.{PlaceParlayRequest, PricedLeg, parent_of_legs}

-- The parent, its legs, and whether they are new.
abbrev pub Placed : Type 0 → Type 0
Placed W = PaperBetRecord W × List (ParlayLegRecord W) × Bool

-- As `committed`, with an id for each leg.
abbrev pub committed_legs : {W A : Type 0} → ℕ → Result (A × Database) → Action W A
committed_legs legs (ok (result, db)) w =
    (ok result, record w { db = db; next_id = w.next_id + 1 + legs; clock = w.clock + 1 })
committed_legs legs (err e) w = (err e, w)

module _ {W : Type 0} ⦃f : Float W⦄ ⦃n : Numeric W⦄ where
  abbrev pub repo_insert_parlay : BetValues W → List (LegValues W) → Action W (Placed W)
  repo_insert_parlay values legs w =
      committed_legs (length legs)
        (insert_parlay w.next_id (w.next_id + 1) w.clock values legs w.db) w

  -- what follows the loop over the legs
  abbrev pub insert_ticket :
      Desk W → PlaceParlayRequest W → String → List (PricedLeg W) → Action W (Placed W)
  insert_ticket c request idempotency_key legs =
      lift (parent_of_legs c request idempotency_key legs) >>= λ parent_values.
      repo_insert_parlay parent_values (map (λ p. p.values) legs)

  abbrev pub place_ticket :
      Desk W → PlaceParlayRequest W → String → List (PricedLeg W) → Action W (Placed W)
  place_ticket c request idempotency_key legs =
      check_bankroll c request.stake >> insert_ticket c request idempotency_key legs

  unfoldable pub place_parlay : Desk W → PlaceParlayRequest W → String → Action W (Placed W)
  place_parlay c request idempotency_key = do
    raise_if (f.le request.stake zero_f) unprocessable
    lift (validate_parlay_legs request.legs)
    legs ← price_legs c 0 request.legs
    place_ticket c request idempotency_key legs
