-- ===== src/Services/Bankroll.antt =====
-- services/bankroll.py. Times are numbers of seconds here, and how the calendar prints the day and
-- the ISO week of a time is a parameter.
pub mod Current
pub mod Buckets
use bookie_breaker_bookie_em.Base.{
  ℕ, ◌-◌, ◌*◌, leb, Bool, Option, none, some, List, [], map, String,
}
use bookie_breaker_bookie_em.Base.Dict.{assign_all, values}
use bookie_breaker_bookie_em.Base.Sorting.{sort_by}
use bookie_breaker_bookie_em.Float.{Float}
use bookie_breaker_bookie_em.Db.Numeric.{Numeric}
use bookie_breaker_bookie_em.Db.Rows.{
  SnapshotRow, Database, BankrollSnapshotRecord, snapshot_from_row,
}
use bookie_breaker_bookie_em.Db.Repository.Queries.{
  total_profit, open_exposure, open_bets_count, latest_snapshot, history,
}
use bookie_breaker_bookie_em.Api.Schemas.Bankroll.{
  BankrollConfigData, BankrollData, HistorySnapshotData, HistoryInterval, per_bet, daily, weekly,
  BankrollHistoryData, snapshot_to_data,
}

-- the settings that the service reads
pub record Settings (W : Type 0) : Type 0 where
  pub starting_bankroll_units : W
  pub unit_size_dollars : W
  pub max_bet_units : W
  pub max_daily_exposure_units : W
  pub kelly_fraction : W
  pub kelly_enabled : Bool

pub record Calendar : Type 0 where
  -- `f"{year}-W{week:02d}"` of isocalendar()
  pub iso_week : ℕ → String
  -- date().isoformat()
  pub iso_date : ℕ → String

abbrev pub or_else {ℓ} : {A : Type ℓ} → Option A → A → A
or_else none d = d
or_else (some x) d = x

abbrev pub snapshot_time : Option SnapshotRow → ℕ → ℕ
snapshot_time none now = now
snapshot_time (some s) now = s.snapshot_at

abbrev pub thirty_days : ℕ
thirty_days = 2_592_000

module _ {W : Type 0} where
  -- `_bucket_key`
  unfoldable pub bucket_key : Calendar → HistoryInterval → BankrollSnapshotRecord W → String
  bucket_key c weekly s = c.iso_week s.snapshot_at
  bucket_key c per_bet s = c.iso_date s.snapshot_at
  bucket_key c daily s = c.iso_date s.snapshot_at

  abbrev pub earliest_first : BankrollSnapshotRecord W → BankrollSnapshotRecord W → Bool
  earliest_first s t = leb s.snapshot_at t.snapshot_at

  -- the last snapshot of each bucket, in the order of time
  abbrev pub last_per_bucket :
      Calendar → HistoryInterval → List (BankrollSnapshotRecord W) → List (BankrollSnapshotRecord W)
  last_per_bucket c interval rows =
      sort_by earliest_first (values (assign_all (bucket_key c interval) rows []))

  unfoldable pub at_interval :
      Calendar → HistoryInterval → List (BankrollSnapshotRecord W) → List (BankrollSnapshotRecord W)
  at_interval c per_bet rows = rows
  at_interval c daily rows = last_per_bucket c daily rows
  at_interval c weekly rows = last_per_bucket c weekly rows

module _ {W : Type 0} ⦃f : Float W⦄ ⦃n : Numeric W⦄ where
  -- the derived bankroll
  abbrev pub bankroll_of : Settings W → Database → W
  bankroll_of s db = f.add s.starting_bankroll_units (total_profit db)

  unfoldable pub current : Settings W → ℕ → Database → BankrollData W
  unfolding latest_snapshot
  current s now db = record {
    bankroll_units = bankroll_of s db;
    bankroll_dollars = f.mul (bankroll_of s db) s.unit_size_dollars;
    unit_size_dollars = s.unit_size_dollars;
    starting_bankroll_units = s.starting_bankroll_units;
    total_profit_units = total_profit db;
    open_bets_count = open_bets_count db;
    open_bets_exposure_units = open_exposure db;
    config = record {
      max_bet_units = s.max_bet_units;
      max_daily_exposure_units = s.max_daily_exposure_units;
      kelly_fraction = s.kelly_fraction;
      kelly_enabled = s.kelly_enabled;
    };
    snapshot_at = snapshot_time (latest_snapshot db) now;
  }

  -- the snapshots between the two ends
  unfoldable pub rows_between : ℕ → Option ℕ → Option ℕ → Database → List (BankrollSnapshotRecord W)
  unfolding snapshot_from_row history
  rows_between now date_from date_to db =
      let end = or_else date_to now in
      map snapshot_from_row (history (or_else date_from (end - thirty_days)) end db)

  unfoldable pub bankroll_history :
      Settings W
      → Calendar
      → ℕ
      → Option ℕ
      → Option ℕ
      → HistoryInterval
      → Database
      → BankrollHistoryData W
  unfolding at_interval rows_between snapshot_to_data
  bankroll_history s c now date_from date_to interval db = record {
    interval = interval;
    snapshots =
        map (λ row. snapshot_to_data row s.unit_size_dollars)
          (at_interval c interval (rows_between now date_from date_to db));
  }
