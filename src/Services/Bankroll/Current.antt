-- ===== src/Services/Bankroll/Current.antt =====
-- The bankroll that the service derives is the one of the latest snapshot.
use bookie_breaker_bookie_em.Base.{
  ℕ, ◌≡◌, refl, sym, ap, ◌∙◌, true, false, some, List, [], ◌∷◌, ◌++◌, ltb, head?, All, Bool, arith,
}
use bookie_breaker_bookie_em.Base.Sorting.{sort_by, insert_by}
use bookie_breaker_bookie_em.Domain.{Status, opened, eq_status}
use bookie_breaker_bookie_em.Float.{Float}
use bookie_breaker_bookie_em.Core.Errors.{ok}
use bookie_breaker_bookie_em.Db.Numeric.{Numeric}
use bookie_breaker_bookie_em.Db.Rows.{SnapshotRow, Database}
use bookie_breaker_bookie_em.Db.Values.{GradeValues}
use bookie_breaker_bookie_em.Db.Repository.Grading.{apply_grade}
use bookie_breaker_bookie_em.Db.Repository.Queries.{total_profit, latest_first, latest_snapshot}
use bookie_breaker_bookie_em.Db.Repository.Consistent.{IsConsistent}
use bookie_breaker_bookie_em.Db.Repository.Consistent.Bankroll.{apply_grade_snapshot}
use bookie_breaker_bookie_em.Services.Bankroll.{Settings, snapshot_time, current}

-- A snapshot later than all others is the latest.
latest_last :
    (s : SnapshotRow) (ss : List SnapshotRow)
    → All (λ t. ltb t.snapshot_at s.snapshot_at ≡ true) ss
    → sort_by latest_first (ss ++ s ∷ []) ≡ s ∷ sort_by latest_first ss
unfolding sort_by insert_by
latest_last s [] h = refl
latest_last s (t ∷ ts) (e, h) = rw (latest_last s ts h) (ground (arith, e))

module _ {W : Type 0} ⦃f : Float W⦄ ⦃n : Numeric W⦄ (settings : Settings W) where
  -- Right after a grading that succeeds, the bankroll that the service derives from the grades is, as
  -- the database stores it, the balance of the latest snapshot; the number of open bets is the
  -- snapshot's, and so is the time shown. The grading is the repository's, with the service's
  -- starting bankroll, on a consistent database whose snapshots are all older.
  pub current-latest :
      (id now bet_id : ℕ) (status : Status) (v : GradeValues W) (force : Bool) (later : ℕ)
      (db db' : Database)
      → IsConsistent db
      → eq_status status opened ≡ false
      → All (λ t. ltb t.snapshot_at now ≡ true) db.bankroll_snapshots
      → apply_grade id now bet_id status v settings.starting_bankroll_units force db
        ≡ ok (true, db')
      → (s : SnapshotRow) × (latest_snapshot db' ≡ some s)
        × (n.stored 4 (current settings later db').bankroll_units ≡ some s.balance)
        × ((current settings later db').open_bets_count ≡ s.open_bets_count)
        × ((current settings later db').snapshot_at ≡ now)
  unfolding current latest_snapshot total_profit
  current-latest id now bet_id status v force later db db' h d older e =
      let (s, appended, taken) =
        apply_grade_snapshot id now bet_id status v settings.starting_bankroll_units force db db' h
          d e in
      let latest : head? (sort_by latest_first db'.bankroll_snapshots) ≡ some s =
        rw (appended, latest_last s db.bankroll_snapshots (rw taken.now_eq older)) refl in
      (
        s,
        latest,
        taken.balance_eq,
        sym taken.agrees.open_eq,
        ap (λ o. snapshot_time o later) latest ∙ taken.now_eq,
      )
