-- ===== src/Db/Repository/Queries.antt =====
-- The reads of PaperBetRepository and BankrollRepository.
use bookie_breaker_bookie_em.Base.{
  ℕ, Bool, false, not, ◌&&◌, Option, none, some, List, [], ◌∷◌, map, ◌==◌, leb, ltb, filter, any,
  count, if◌then◌else◌, head?,
}
use bookie_breaker_bookie_em.Base.Int.{ℤ, sum_ℤ}
use bookie_breaker_bookie_em.Base.Sorting.{sort_by}
use bookie_breaker_bookie_em.Domain.{opened, eq_status}
use bookie_breaker_bookie_em.Db.Numeric.{Numeric}
use bookie_breaker_bookie_em.Db.Rows.{
  BetRow, LegRow, SnapshotRow, Database, PaperBetRecord, ParlayLegRecord, BetGradeRecord,
  bet_from_row, leg_from_row, grade_from_row,
}
use bookie_breaker_bookie_em.Db.Repository.Grading.{is_open, grades_bet}

-- `column = value` where the column may be NULL
abbrev pub eq_opt : ℕ → Option ℕ → Bool
eq_opt k none = false
eq_opt k (some j) = j == k

-- `game_start_at < cutoff`; NULL is not less
abbrev pub started_before : ℕ → Option ℕ → Bool
started_before cutoff none = false
started_before cutoff (some t) = ltb t cutoff

-- the values that are not NULL
abbrev pub catalogue : List (Option ℕ) → List ℕ
catalogue [] = []
catalogue (none ∷ xs) = catalogue xs
catalogue (some x ∷ xs) = x ∷ catalogue xs

-- `SELECT DISTINCT`, and the insertion-ordered set that `dict.fromkeys` makes
unfoldable pub distinct : List ℕ → List ℕ
distinct [] = []
distinct (x ∷ xs) = x ∷ filter (λ y. not (y == x)) (distinct xs)

unfoldable pub open_game_ids_started_before : ℕ → Database → List ℕ
unfolding distinct
open_game_ids_started_before cutoff db = distinct (
    catalogue (
      map (λ b. b.game_id)
        (filter (λ b. is_open b && started_before cutoff b.game_start_at) db.paper_bets)))

abbrev pub leg_is_open : LegRow → Bool
leg_is_open l = eq_status l.leg_status opened

-- the join with the parent, whose game_start_at gates the leg
abbrev pub parent_started : ℕ → List BetRow → LegRow → Bool
parent_started cutoff bets l =
    any (λ b. b.id == l.bet_id && started_before cutoff b.game_start_at) bets

unfoldable pub open_parlay_leg_game_ids_started_before : ℕ → Database → List ℕ
unfolding distinct
open_parlay_leg_game_ids_started_before cutoff db = distinct (
    catalogue (
      map (λ l. l.game_id)
        (filter (λ l. leg_is_open l && parent_started cutoff db.paper_bets l) db.parlay_legs)))

unfoldable pub open_leg_count : ℕ → Database → ℕ
open_leg_count bet_id db = count (λ l. l.bet_id == bet_id && leg_is_open l) db.parlay_legs

unfoldable pub total_profit_units : Database → ℤ
total_profit_units db = sum_ℤ (map (λ g. g.profit_loss) db.bet_grades)

unfoldable pub open_exposure_units : Database → ℤ
open_exposure_units db = sum_ℤ (map (λ b. b.stake) (filter is_open db.paper_bets))

unfoldable pub open_bets_count : Database → ℕ
open_bets_count db = count is_open db.paper_bets

-- (open bets, bets placed since midnight, bets graded since midnight)
unfoldable pub health_stats : ℕ → Database → ℕ × ℕ × ℕ
health_stats midnight db = (
  count is_open db.paper_bets,
  count (λ b. leb midnight b.placed_at) db.paper_bets,
  count (λ b. elim b.graded_at [ none ↦ false | some t ↦ leb midnight t ]) db.paper_bets,
)

-- `ORDER BY snapshot_at`
unfoldable pub insert_snapshot : SnapshotRow → List SnapshotRow → List SnapshotRow
insert_snapshot s [] = s ∷ []
insert_snapshot s (t ∷ ts) =
    if leb s.snapshot_at t.snapshot_at then s ∷ t ∷ ts else t ∷ insert_snapshot s ts

unfoldable pub sort_snapshots : List SnapshotRow → List SnapshotRow
unfolding insert_snapshot
sort_snapshots [] = []
sort_snapshots (s ∷ ss) = insert_snapshot s (sort_snapshots ss)

unfoldable pub history : ℕ → ℕ → Database → List SnapshotRow
unfolding sort_snapshots
history date_from date_to db =
    sort_snapshots
      (filter (λ s. leb date_from s.snapshot_at && leb s.snapshot_at date_to) db.bankroll_snapshots)

-- `snapshot_at DESC`
abbrev pub latest_first : SnapshotRow → SnapshotRow → Bool
latest_first s t = leb t.snapshot_at s.snapshot_at

unfoldable pub latest_snapshot : Database → Option SnapshotRow
latest_snapshot db = head? (sort_by latest_first db.bankroll_snapshots)

module _ {W : Type 0} ⦃n : Numeric W⦄ where
  unfoldable pub open_bets_for_game : ℕ → Database → List (PaperBetRecord W)
  unfolding bet_from_row
  open_bets_for_game game_id db =
      map bet_from_row (filter (λ b. eq_opt game_id b.game_id && is_open b) db.paper_bets)

  unfoldable pub open_parlay_legs_for_game : ℕ → Database → List (ParlayLegRecord W)
  unfolding leg_from_row
  open_parlay_legs_for_game game_id db =
      map leg_from_row (filter (λ l. eq_opt game_id l.game_id && leg_is_open l) db.parlay_legs)

  -- a bet with its grade, from the outer join; both ids are unique
  unfoldable pub get_with_grade :
      ℕ → Database → Option (PaperBetRecord W × Option (BetGradeRecord W))
  unfolding bet_from_row grade_from_row
  get_with_grade bet_id db = elim (head? (filter (λ b. b.id == bet_id) db.paper_bets)) [
    | none ↦ none
    | some b ↦ some (
      bet_from_row b,
      elim (head? (filter (grades_bet bet_id) db.bet_grades)) [
        | none ↦ none
        | some g ↦ some (grade_from_row g)
      ],
    )
  ]

  unfoldable pub total_profit : Database → W
  unfolding total_profit_units
  total_profit db = n.loaded 4 (total_profit_units db)

  unfoldable pub open_exposure : Database → W
  unfolding open_exposure_units
  open_exposure db = n.loaded 4 (open_exposure_units db)
