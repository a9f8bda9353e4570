-- ===== src/Events/Subscriber.antt =====
-- events/subscriber.py. The loop is a state machine, whose steps are what redis and the shutdown do.
-- The delays are whole seconds: 1.0, doubled up to 30.0, is exact in floats.
pub mod Backoff
pub mod Safe
use bookie_breaker_bookie_em.Base.{ℕ, ◌*◌, ◌≡◌, ◌⊎◌, ltb, Option, none, String, if◌then◌else◌}
use bookie_breaker_bookie_em.Base.Int.{ℤ}
use bookie_breaker_bookie_em.Float.{Float}
use bookie_breaker_bookie_em.Core.Errors.{Result}
use bookie_breaker_bookie_em.Db.Numeric.{Numeric}
use bookie_breaker_bookie_em.Services.Action.{World, Context, Action, lift, ◌>>=◌}
use bookie_breaker_bookie_em.Services.Grader.Values.{Completed}
use bookie_breaker_bookie_em.Services.Grader.Game.{grade_game}

-- What `_handle` takes from a payload; the fields that it reads by `get` are optional.
pub record Payload : Type 0 where
  pub game_id : ℕ
  pub home_score : ℤ
  pub away_score : ℤ
  pub total : Option ℤ
  pub margin : Option ℤ
  pub home_team : Option String
  pub away_team : Option String
  pub regulation_home_score : Option ℤ
  pub regulation_away_score : Option ℤ

unfoldable pub completed_of : Payload → Completed
completed_of p = record {
  scores = record {
    home_score = p.home_score;
    away_score = p.away_score;
    regulation_home_score = p.regulation_home_score;
    regulation_away_score = p.regulation_away_score;
  };
  total = p.total;
  margin = p.margin;
  home_team = p.home_team;
  away_team = p.away_team;
  game_result_id = none;
}

-- The JSON reader with the indexing and the conversions that may raise: a parameter.
abbrev pub Reader : Type 0
Reader = String → Result Payload

module _ {W : Type 0} ⦃f : Float W⦄ ⦃n : Numeric W⦄ where
  -- the body of the `try`
  unfoldable pub grade_payload : Context W → Reader → String → Action W ℕ
  unfolding completed_of
  grade_payload c read raw = lift (read raw) >>= λ p. grade_game c p.game_id (completed_of p)

  -- `_handle`: every exception is logged and dropped.
  unfoldable pub handle : Context W → Reader → String → World W → World W
  unfolding grade_payload
  handle c read raw w = (grade_payload c read raw w).1

pub data Status : Type 0 where
  running reconnecting stopped : Status

pub data Phase : Type 0 where
  subscribing listening sleeping ended : Phase

pub record Loop (W : Type 0) : Type 0 where
  pub phase : Phase
  pub status : Status
  pub backoff : ℕ
  pub world : World W

-- `min(backoff * 2.0, 30.0)`
unfoldable pub next_backoff : ℕ → ℕ
next_backoff b = if ltb 30 (b * 2) then 30 else b * 2

module _ {W : Type 0} where
  abbrev pub started : World W → Loop W
  started w = record { phase = subscribing; status = stopped; backoff = 1; world = w }

module _ {W : Type 0} ⦃f : Float W⦄ ⦃n : Numeric W⦄ (read : Reader) where
  -- Each step of the loop. The other services may answer differently every time.
  pub data LoopStep : Loop W → Loop W → Type 0 where
    subscribed :
        (s : Loop W)
        → s.phase ≡ subscribing
        → LoopStep s (record s { phase = listening; status = running; backoff = 1 })
    received :
        (s : Loop W) (c : Context W) (raw : String)
        → s.phase ≡ listening
        → LoopStep s (record s { world = handle c read raw s.world })
    -- a message of another type, or none
    skipped : (s : Loop W) → s.phase ≡ listening → LoopStep s s
    -- `listen()` ends without an exception
    closed : (s : Loop W) → s.phase ≡ listening → LoopStep s (record s { phase = subscribing })
    failed_to_subscribe :
        (s : Loop W)
        → s.phase ≡ subscribing
        → LoopStep s (record s { phase = sleeping; status = reconnecting })
    lost :
        (s : Loop W)
        → s.phase ≡ listening
        → LoopStep s (record s { phase = sleeping; status = reconnecting })
    slept :
        (s : Loop W)
        → s.phase ≡ sleeping
        → LoopStep s (record s { phase = subscribing; backoff = next_backoff s.backoff })
    -- a cancellation inside the `try`
    cancelled :
        (s : Loop W)
        → (s.phase ≡ subscribing) ⊎ (s.phase ≡ listening)
        → LoopStep s (record s { phase = ended; status = stopped })
    -- a cancellation during the sleep, in the handler of the other exceptions
    cancelled_asleep : (s : Loop W) → s.phase ≡ sleeping → LoopStep s (record s { phase = ended })
