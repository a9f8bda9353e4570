-- ===== src/Services/Action.antt =====
-- A call of a service: exceptions, and the state that it changes. What was committed before an
-- exception stays, so the state comes back after a raise too.
use bookie_breaker_bookie_em.Base.{ℕ, ◌+◌, Bool, Option, List, String, if◌then◌else◌}
use bookie_breaker_bookie_em.Domain.{Status, Market, League}
use bookie_breaker_bookie_em.Core.Errors.{Error, Result, ok, err}
use bookie_breaker_bookie_em.Core.Slug.{Unicode}
use bookie_breaker_bookie_em.Clients.{Game, BoxScore, LineSnapshot}
use bookie_breaker_bookie_em.Clients.Reconcile.{Cache}
use bookie_breaker_bookie_em.Db.Rows.{Database}

-- What bet_graded_payload (events/publisher.py) puts into an event.
pub record GradedEvent (W : Type 0) : Type 0 where
  pub bet_id : ℕ
  pub game_id : Option ℕ
  pub league : League
  pub market_type : Market
  pub selection : String
  pub sportsbook : String
  pub result : Status
  pub stake : W
  pub profit_loss : W
  pub clv : Option W

-- The database, the events handed to redis, the sources of new ids and of the time, and the map of
-- games that the reconciler keeps in redis.
pub record World (W : Type 0) : Type 0 where
  pub db : Database
  pub events : List (GradedEvent W)
  pub next_id : ℕ
  pub clock : ℕ
  pub game_map : Cache

-- What the other services answer during a call, and what the process was configured with.
pub record Context (W : Type 0) : Type 0 where
  pub get_game : ℕ → Result Game
  pub get_box_score : ℕ → Result BoxScore
  pub closing_lines : String → Result (List (LineSnapshot W))
  pub unicode : Unicode
  pub starting_bankroll_units : W
  -- a redis client is configured
  pub has_redis : Bool

module _ (W : Type 0) where
  abbrev pub Action : Type 0 → Type 0
  Action A = World W → Result A × World W

module _ {W : Type 0} {A : Type 0} where
  abbrev pub pure : A → Action W A
  pure a w = (ok a, w)

  abbrev pub raise : Error → Action W A
  raise e w = (err e, w)

  abbrev pub lift : Result A → Action W A
  lift r w = (r, w)

  abbrev pub gets : (Database → A) → Action W A
  gets g w = (ok (g w.db), w)

module _ {W : Type 0} {A B : Type 0} where
  abbrev pub bind_result : Result A → (A → Action W B) → World W → Result B × World W
  bind_result (ok a) k w = k a w
  bind_result (err e) k w = (err e, w)

infixl 5 ◌>>=◌ ◌>>◌
abbrev pub ◌>>=◌ : {W A B : Type 0} → Action W A → (A → Action W B) → Action W B
◌>>=◌ m k w = bind_result (m w).0 k (m w).1

abbrev pub ◌>>◌ : {W B : Type 0} → Action W (Unit {0}) → Action W B → Action W B
m >> k = m >>= λ _. k

-- `if test: raise e`
abbrev pub raise_if : {W : Type 0} → Bool → Error → Action W (Unit {0})
raise_if test e w = (if test then err e else ok tt, w)

-- What a call of the repository leaves: a transaction commits as a whole or, on an exception, not at
-- all. Ids are taken from the counter.
abbrev pub committed : {W A : Type 0} → Result (A × Database) → Action W A
committed (ok (result, db)) w =
    (ok result, record w { db = db; next_id = w.next_id + 1; clock = w.clock + 1 })
committed (err e) w = (err e, w)
