-- ===== src/Api/Routes/Placement.antt =====
-- The placements of api/routes/bets.py and api/routes/parlays.py.
pub mod Shown
use bookie_breaker_bookie_em.Base.{ℕ, Bool, none, String, if◌then◌else◌}
use bookie_breaker_bookie_em.Float.{Float}
use bookie_breaker_bookie_em.Db.Numeric.{Numeric}
use bookie_breaker_bookie_em.Db.Rows.{PaperBetRecord}
use bookie_breaker_bookie_em.Services.Action.{Action, pure, lift, ◌>>=◌, ◌>>◌}
use bookie_breaker_bookie_em.Services.Bets.Odds.{Desk}
use bookie_breaker_bookie_em.Services.Bets.Price.{PlaceBetRequest}
use bookie_breaker_bookie_em.Services.Bets.Ticket.{PlaceParlayRequest}
use bookie_breaker_bookie_em.Services.Bets.Place.{place_bet}
use bookie_breaker_bookie_em.Services.Bets.Parlay.{Placed, place_parlay}
use bookie_breaker_bookie_em.Api.Schemas.Bets.{
  BetData, ParlayDetailData, bet_to_data, parlay_to_detail,
}
use bookie_breaker_bookie_em.Api.Schemas.Requests.{valid_bet, valid_parlay}

-- 201, or 200 on a replay
abbrev pub status_code : Bool → ℕ
status_code created = if created then 201 else 200

module _ {W : Type 0} ⦃f : Float W⦄ ⦃n : Numeric W⦄ where
  abbrev pub bet_response : W → PaperBetRecord W × Bool → Action W (ℕ × BetData W)
  bet_response unit_size_dollars (bet, created) =
      pure (status_code created, bet_to_data bet none unit_size_dollars)

  -- POST /bets
  unfoldable pub post_bet : Desk W → W → PlaceBetRequest W → String → Action W (ℕ × BetData W)
  unfolding valid_bet place_bet bet_to_data
  post_bet c unit_size_dollars request idempotency_key =
      lift (valid_bet request)
      >> (place_bet c request idempotency_key >>= bet_response unit_size_dollars)

  abbrev pub parlay_response : W → Placed W → Action W (ℕ × ParlayDetailData W)
  parlay_response unit_size_dollars (parent, legs, created) =
      pure (status_code created, parlay_to_detail parent none legs unit_size_dollars)

  -- POST /parlays
  unfoldable pub post_parlay :
      Desk W → W → PlaceParlayRequest W → String → Action W (ℕ × ParlayDetailData W)
  unfolding valid_parlay place_parlay parlay_to_detail
  post_parlay c unit_size_dollars request idempotency_key =
      lift (valid_parlay request)
      >> (place_parlay c request idempotency_key >>= parlay_response unit_size_dollars)
