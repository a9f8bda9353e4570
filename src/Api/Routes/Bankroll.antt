-- ===== src/Api/Routes/Bankroll.antt =====
-- api/routes/bankroll.py.
use bookie_breaker_bookie_em.Base.{ℕ, Option}
use bookie_breaker_bookie_em.Float.{Float}
use bookie_breaker_bookie_em.Db.Numeric.{Numeric}
use bookie_breaker_bookie_em.Db.Rows.{Database}
use bookie_breaker_bookie_em.Api.Schemas.Bankroll.{
  BankrollData, HistoryInterval, BankrollHistoryData,
}
use bookie_breaker_bookie_em.Services.Bankroll.{Settings, Calendar, current, bankroll_history}

module _ {W : Type 0} ⦃f : Float W⦄ ⦃n : Numeric W⦄ where
  unfoldable pub get_bankroll : Settings W → ℕ → Database → BankrollData W
  unfolding current
  get_bankroll s now db = current s now db

  unfoldable pub get_bankroll_history :
      Settings W
      → Calendar
      → ℕ
      → Option ℕ
      → Option ℕ
      → HistoryInterval
      → Database
      → BankrollHistoryData W
  unfolding bankroll_history
  get_bankroll_history s c now date_from date_to interval db =
      bankroll_history s c now date_from date_to interval db
