-- ===== src/Process.antt =====
-- The process as main.py puts it together: requests, the subscriber and the poller work on one
-- database, each call to its end. (Their transactions interleave too: Db.Repository.Consistent.Reach.)
pub mod Keeps
pub mod Wiring
pub mod Outage
use bookie_breaker_bookie_em.Base.{ℕ, ◌+◌, ◌≡◌, Option, String}
use bookie_breaker_bookie_em.Float.{Float}
use bookie_breaker_bookie_em.Db.Numeric.{Numeric}
use bookie_breaker_bookie_em.Services.Action.{World, Context}
use bookie_breaker_bookie_em.Services.Bets.Odds.{Desk}
use bookie_breaker_bookie_em.Services.Bets.Price.{PlaceBetRequest}
use bookie_breaker_bookie_em.Services.Bets.Ticket.{PlaceParlayRequest}
use bookie_breaker_bookie_em.Services.Poller.{poll_cycle}
use bookie_breaker_bookie_em.Core.Errors.{Result}
use bookie_breaker_bookie_em.Events.Subscriber.{Reader, handle}
use bookie_breaker_bookie_em.Api.Routes.Placement.{post_bet, post_parlay}
use bookie_breaker_bookie_em.Api.Routes.Grading.{GradeRequest, post_grade}

module _ {W : Type 0} ⦃f : Float W⦄ ⦃n : Numeric W⦄ (starting : W) where
  -- What the process does next. The other services may answer differently every time; the starting
  -- bankroll is the configured one.
  pub data Activity : World W → World W → Type 0 where
    bet_posted :
        (w : World W) (c : Desk W) (unit_size_dollars : W) (request : PlaceBetRequest W)
        (key : String)
        → Activity w (post_bet c unit_size_dollars request key w).1
    parlay_posted :
        (w : World W) (c : Desk W) (unit_size_dollars : W) (request : PlaceParlayRequest W)
        (key : String)
        → Activity w (post_parlay c unit_size_dollars request key w).1
    grade_posted :
        (w : World W) (c : Context W) (unit_size_dollars : W) (bet_id : ℕ)
        (request : Option GradeRequest)
        → c.starting_bankroll_units ≡ starting
        → Activity w (post_grade c unit_size_dollars bet_id request w).1
    event_received :
        (w : World W) (c : Context W) (read : Reader) (raw : String)
        → c.starting_bankroll_units ≡ starting
        → Activity w (handle c read raw w)
    polled :
        (w : World W) (c : Context W) (grace_seconds : ℕ) (queried : Result (Unit {0}))
        → c.starting_bankroll_units ≡ starting
        → Activity w (poll_cycle c grace_seconds queried w)
    time_passed : (w : World W) (t : ℕ) → Activity w (record w { clock = w.clock + t })

  pub data Runs (w : World W) : World W → Type 0 where
    idle : Runs w w
    then_does : {u v : World W} → Runs w u → Activity u v → Runs w v
