-- ===== src/Events/Subscriber/Backoff.antt =====
-- The status and the delay of the subscriber's loop.
use native.Mathlib.Numerals.{unary_clauses}
use bookie_breaker_bookie_em.Base.{
  ℕ, zero, suc, ◌*◌, ◌^◌, ◌≤◌, ◌≡◌, refl, ltb, if◌then◌else◌, arith,
}
use bookie_breaker_bookie_em.Float.{Float}
use bookie_breaker_bookie_em.Db.Numeric.{Numeric}
use bookie_breaker_bookie_em.Services.Action.{World}
use bookie_breaker_bookie_em.Events.Subscriber.{
  Reader, Phase, Status, Loop, LoopStep, started, next_backoff, running, reconnecting, subscribing,
  listening, sleeping, subscribed, received, skipped, closed, failed_to_subscribe, lost, slept,
  cancelled, cancelled_asleep,
}

-- what the status has to be in a phase
abbrev pub Shows : Phase → Status → Type 0
Shows listening status = status ≡ running
Shows sleeping status = status ≡ reconnecting
Shows _ status = Unit

pub record IsLoop {W : Type 0} (s : Loop W) : Type 0 where
  pub positive : 1 ≤ s.backoff
  pub below_cap : s.backoff ≤ 30
  pub shown : Shows s.phase s.status

module _ {W : Type 0} where
  started-IsLoop : (w : World W) → IsLoop (started w)
  started-IsLoop w = record { positive = omega arith; below_cap = omega arith; shown = tt }

pow_suc : (k : ℕ) → 2 ^ suc k ≡ 2 ^ k * 2
pow_suc k = simp unary_clauses (omega arith)

module _ {W : Type 0} ⦃f : Float W⦄ ⦃n : Numeric W⦄ (read : Reader) where
  LoopStep-IsLoop : {s t : Loop W} → LoopStep read s t → IsLoop s → IsLoop t
  unfolding next_backoff
  LoopStep-IsLoop (subscribed s h) inv = record {
    positive = omega arith;
    below_cap = omega arith;
    shown = refl;
  }
  LoopStep-IsLoop (received s c raw h) inv = record {
    positive = inv.positive;
    below_cap = inv.below_cap;
    shown = inv.shown;
  }
  LoopStep-IsLoop (skipped s h) inv = inv
  LoopStep-IsLoop (closed s h) inv = record {
    positive = inv.positive;
    below_cap = inv.below_cap;
    shown = tt;
  }
  LoopStep-IsLoop (failed_to_subscribe s h) inv = record {
    positive = inv.positive;
    below_cap = inv.below_cap;
    shown = refl;
  }
  LoopStep-IsLoop (lost s h) inv = record {
    positive = inv.positive;
    below_cap = inv.below_cap;
    shown = refl;
  }
  LoopStep-IsLoop (slept s h) inv = record {
    positive = ground (arith, inv.positive);
    below_cap = ground (arith, inv.below_cap);
    shown = tt;
  }
  LoopStep-IsLoop (cancelled s h) inv = record {
    positive = inv.positive;
    below_cap = inv.below_cap;
    shown = tt;
  }
  LoopStep-IsLoop (cancelled_asleep s h) inv = record {
    positive = inv.positive;
    below_cap = inv.below_cap;
    shown = tt;
  }

  -- any number of steps
  pub data LoopRun (s : Loop W) : Loop W → Type 0 where
    at_start : LoopRun s s
    then_step : {t u : Loop W} → LoopRun s t → LoopStep read t u → LoopRun s u

  -- While the loop runs, its delay is between 1 and 30 seconds, it shows `running` whenever it
  -- listens, and `reconnecting` whenever it waits to reconnect.
  pub LoopRun-IsLoop : (w : World W) {s : Loop W} → LoopRun (started w) s → IsLoop s
  LoopRun-IsLoop w at_start = started-IsLoop w
  LoopRun-IsLoop w (then_step r step) = LoopStep-IsLoop step (LoopRun-IsLoop w r)

  -- k attempts to subscribe that fail one after the other, each with its wait
  pub data Failures (s : Loop W) : ℕ → Loop W → Type 0 where
    none_yet : Failures s zero s
    one_more :
        {k : ℕ} {t u v : Loop W}
        → Failures s k t
        → LoopStep read t u
        → u.phase ≡ sleeping
        → LoopStep read u v
        → v.phase ≡ subscribing
        → Failures s (suc k) v

  asleep_backoff : {t u : Loop W} → LoopStep read t u → u.phase ≡ sleeping → u.backoff ≡ t.backoff
  asleep_backoff (subscribed s h) k = cc
  asleep_backoff (received s c raw h) k = refl
  asleep_backoff (skipped s h) k = refl
  asleep_backoff (closed s h) k = refl
  asleep_backoff (failed_to_subscribe s h) k = refl
  asleep_backoff (lost s h) k = refl
  asleep_backoff (slept s h) k = cc
  asleep_backoff (cancelled s h) k = refl
  asleep_backoff (cancelled_asleep s h) k = refl

  woken_backoff :
      {t u : Loop W}
      → LoopStep read t u
      → t.phase ≡ sleeping
      → u.phase ≡ subscribing
      → u.backoff ≡ next_backoff t.backoff
  woken_backoff (subscribed s h) a b = cc
  woken_backoff (received s c raw h) a b = cc
  woken_backoff (skipped s h) a b = cc
  woken_backoff (closed s h) a b = cc
  woken_backoff (failed_to_subscribe s h) a b = cc
  woken_backoff (lost s h) a b = cc
  woken_backoff (slept s h) a b = refl
  woken_backoff (cancelled s h) a b = cc
  woken_backoff (cancelled_asleep s h) a b = cc

  -- After k failures in a row the next wait is 2 ^ k seconds, and 30 where that is more: it doubles
  -- from 1 second up to the cap. The first failure may be the loss of a subscription or a
  -- refused one, and a subscription resets the delay to 1.
  pub Failures-backoff :
      {s : Loop W} (k : ℕ) {t : Loop W}
      → Failures s k t
      → s.backoff ≡ 1
      → t.backoff ≡ (if ltb 30 (2 ^ k) then 30 else 2 ^ k)
  unfolding next_backoff
  Failures-backoff zero none_yet h = h
  Failures-backoff (suc k) (one_more {t = t} {u = u} before down asleep up awake) h = ground (
    arith,
    pow_suc k,
    Failures-backoff k before h,
    asleep_backoff down asleep,
    woken_backoff up asleep awake,
  )
