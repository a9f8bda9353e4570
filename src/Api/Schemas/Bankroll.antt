-- ===== src/Api/Schemas/Bankroll.antt =====
-- The bankroll as the API shows it.
use bookie_breaker_bookie_em.Base.{ℕ, Bool, Option, List}
use bookie_breaker_bookie_em.Float.{Float}
use bookie_breaker_bookie_em.Core.Performance.{win_rate, roi}
use bookie_breaker_bookie_em.Db.Rows.{BankrollSnapshotRecord}

pub record BankrollConfigData (W : Type 0) : Type 0 where
  pub max_bet_units : W
  pub max_daily_exposure_units : W
  pub kelly_fraction : W
  pub kelly_enabled : Bool

pub record BankrollData (W : Type 0) : Type 0 where
  pub bankroll_units : W
  pub bankroll_dollars : W
  pub unit_size_dollars : W
  pub starting_bankroll_units : W
  pub total_profit_units : W
  pub open_bets_count : ℕ
  pub open_bets_exposure_units : W
  pub config : BankrollConfigData W
  pub snapshot_at : ℕ

pub record HistorySnapshotData (W : Type 0) : Type 0 where
  pub timestamp : ℕ
  pub bankroll_units : W
  pub bankroll_dollars : W
  pub total_bets : ℕ
  pub total_wins : ℕ
  pub total_losses : ℕ
  pub win_rate : W
  pub roi : W
  pub units_won : W
  pub avg_clv : Option W

pub data HistoryInterval : Type 0 where
  per_bet daily weekly : HistoryInterval

pub record BankrollHistoryData (W : Type 0) : Type 0 where
  pub interval : HistoryInterval
  pub snapshots : List (HistorySnapshotData W)

module _ {W : Type 0} ⦃f : Float W⦄ where
  unfoldable pub snapshot_to_data : BankrollSnapshotRecord W → W → HistorySnapshotData W
  unfolding win_rate roi
  snapshot_to_data snapshot unit_size_dollars = record {
    timestamp = snapshot.snapshot_at;
    bankroll_units = snapshot.balance;
    bankroll_dollars = f.mul snapshot.balance unit_size_dollars;
    total_bets = snapshot.total_bets;
    total_wins = snapshot.total_wins;
    total_losses = snapshot.total_losses;
    win_rate = win_rate snapshot.total_wins snapshot.total_losses;
    roi = roi snapshot.total_profit_loss snapshot.total_wagered;
    units_won = snapshot.total_profit_loss;
    avg_clv = snapshot.avg_clv;
  }
