-- ===== src/Services/Health.antt =====
-- services/health.py: the probes of the dependencies come in as their results.
use bookie_breaker_bookie_em.Base.{ℕ, Bool, ◌&&◌, Option, none, some, String, if◌then◌else◌}
use bookie_breaker_bookie_em.Db.Rows.{Database}
use bookie_breaker_bookie_em.Db.Repository.Queries.{health_stats}
use bookie_breaker_bookie_em.Events.Subscriber.{Status, running, reconnecting, stopped}

pub record Probes : Type 0 where
  pub statistics : Bool
  pub lines : Bool
  pub redis : Bool
  pub postgres : Bool

pub record HealthStats : Type 0 where
  pub open_bets : ℕ
  pub bets_today : ℕ
  pub graded_today : ℕ

-- HealthData without the version and the uptime
pub record HealthData : Type 0 where
  pub status : String
  pub postgres : String
  pub redis : String
  pub lines_service : String
  pub statistics_service : String
  pub subscriber : String
  pub stats : HealthStats

abbrev pub is_up : Bool → String
is_up up = if up then "healthy" else "unhealthy"

abbrev pub status_name : Status → String
status_name running = "running"
status_name reconnecting = "reconnecting"
status_name stopped = "stopped"

-- `_stats`; `none` is a database that does not answer
unfoldable pub stats : ℕ → Option Database → HealthStats
unfolding health_stats
stats midnight none = record { open_bets = 0; bets_today = 0; graded_today = 0 }
stats midnight (some db) = record {
  open_bets = (health_stats midnight db).0;
  bets_today = (health_stats midnight db).1;
  graded_today = (health_stats midnight db).2;
}

unfoldable pub health : Probes → Status → ℕ → Option Database → HealthData
unfolding stats
health p subscriber midnight db = record {
  status = if p.statistics && p.lines && p.redis && p.postgres then "healthy" else "degraded";
  postgres = is_up p.postgres;
  redis = is_up p.redis;
  lines_service = is_up p.lines;
  statistics_service = is_up p.statistics;
  subscriber = status_name subscriber;
  stats = stats midnight db;
}
