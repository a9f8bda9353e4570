-- ===== src/Db/Repository/Consistent/Replay.antt =====
-- A replay of an idempotency key, at any later time.
use bookie_breaker_bookie_em.Base.{◌≡◌, some, String}
use bookie_breaker_bookie_em.Float.{Float}
use bookie_breaker_bookie_em.Db.Numeric.{Numeric}
use bookie_breaker_bookie_em.Db.Rows.{BetRow, Database}
use bookie_breaker_bookie_em.Db.Repository.Inserts.{with_key}
use bookie_breaker_bookie_em.Db.Repository.Consistent.Reach.{Reach}

-- a row, and a bet, with another status and time of grading
abbrev regraded_row : BetRow → BetRow → BetRow
regraded_row b' b = record b { status = b'.status; graded_at = b'.graded_at }

-- A row holds the key that is the first one's but for its grading.
abbrev Holds : String → BetRow → Database → Type 0
Holds key b db = (b' : BetRow) × (with_key key db.paper_bets ≡ some b') × (b' ≡ regraded_row b' b)
