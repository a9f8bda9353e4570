-- ===== src/Db/Repository/Consistent.antt =====
-- A consistent database: what the constraints of db/tables.py and the transactions of the repository
-- keep true together.
pub mod Claims
pub mod Graded
pub mod Inserted
pub mod Placed
pub mod Reach
pub mod Joined
pub mod Bankroll
pub mod Once
pub mod Created
pub mod Stored
pub mod Replay
use bookie_breaker_bookie_em.Base.{ℕ, ◌≤◌, ◌≡◌, Bool, not, ◌&&◌, List, ◌==◌, count, str_eq, String}
use bookie_breaker_bookie_em.Db.Rows.{BetRow, LegRow, GradeRow, Database}
use bookie_breaker_bookie_em.Db.Repository.Grading.{is_open, grades_bet}

abbrev pub has_id : ℕ → BetRow → Bool
has_id i b = b.id == i

abbrev pub has_key : String → BetRow → Bool
has_key k b = str_eq b.idempotency_key k

abbrev pub is_graded : ℕ → BetRow → Bool
is_graded i b = b.id == i && not (is_open b)

abbrev pub at_index : ℕ → ℕ → LegRow → Bool
at_index bet_id index l = l.bet_id == bet_id && l.leg_index == index

-- Ids and idempotency keys are unique, a bet has one grade row exactly when its status is not OPEN
-- (and every grade row belongs to such a bet), and a parlay has one leg at most at each index.
pub record IsConsistent (db : Database) : Type 0 where
  pub unique_ids : (i : ℕ) → count (has_id i) db.paper_bets ≤ 1
  pub unique_keys : (k : String) → count (has_key k) db.paper_bets ≤ 1
  pub one_grade : (i : ℕ) → count (grades_bet i) db.bet_grades ≡ count (is_graded i) db.paper_bets
  pub unique_legs : (i index : ℕ) → count (at_index i index) db.parlay_legs ≤ 1
