-- ===== src/Db/Repository/Grading.antt =====
-- PaperBetRepository.grade_leg and apply_grade.
pub mod Applied
use bookie_breaker_bookie_em.Base.{
  ℕ, Bool, true, false, not, ◌&&◌, ◌||◌, Option, none, some, List, [], ◌∷◌, ◌++◌, map, ◌==◌, filter,
  any, count, length, if◌then◌else◌, String,
}
use bookie_breaker_bookie_em.Base.Int.{ℤ, pos, ◌+ℤ◌, sum_ℤ}
use bookie_breaker_bookie_em.Domain.{Status, opened, won, lost, eq_status}
use bookie_breaker_bookie_em.Float.{Float}
use bookie_breaker_bookie_em.Core.Errors.{Result, ok, err, unexpected, ◌>>=◌, ◌>>◌, raise_if}
use bookie_breaker_bookie_em.Db.Numeric.{Numeric, avg}
use bookie_breaker_bookie_em.Db.Rows.{BetRow, LegRow, GradeRow, SnapshotRow, Database}
use bookie_breaker_bookie_em.Db.Values.{GradeValues}
use bookie_breaker_bookie_em.Db.Repository.Inserts.{column, opt_column}

-- `WHERE id = leg_id AND leg_status = 'OPEN'`
abbrev pub leg_claimed : ℕ → LegRow → Bool
leg_claimed leg_id l = l.id == leg_id && eq_status l.leg_status opened

abbrev pub set_leg_status : ℕ → Status → LegRow → LegRow
set_leg_status leg_id status l =
    if leg_claimed leg_id l then record l { leg_status = status } else l

-- Claim and grade a leg; `false` when another grader has settled it.
unfoldable pub grade_leg : ℕ → Status → Database → Bool × Database
grade_leg leg_id status db = (
  any (leg_claimed leg_id) db.parlay_legs,
  record db { parlay_legs = map (set_leg_status leg_id status) db.parlay_legs },
)

-- `WHERE id = bet_id`, and `AND status = 'OPEN'` unless forced
abbrev pub claimed : Bool → ℕ → BetRow → Bool
claimed force bet_id b = b.id == bet_id && (force || eq_status b.status opened)

abbrev pub claim : Bool → ℕ → Status → ℕ → BetRow → BetRow
claim force bet_id status now b =
    if claimed force bet_id b then record b { status = status; graded_at = some now } else b

abbrev pub grades_bet : ℕ → GradeRow → Bool
grades_bet bet_id g = g.bet_id == bet_id

abbrev pub stat_columns : Option (Option ℤ × Option String) → Option ℤ × Option String
stat_columns none = (none, none)
stat_columns (some columns) = columns

-- The UPDATE of an upsert sets the keys that the values have: `id` and, without `prop_columns`, the
-- two stat columns stay.
abbrev pub overwrite : Option (Option ℤ × Option String) → GradeRow → GradeRow → GradeRow
overwrite none new old = record new {
  id = old.id;
  actual_stat_value = old.actual_stat_value;
  stat_type = old.stat_type;
}
overwrite (some _) new old = record new { id = old.id }

abbrev pub upsert : Option (Option ℤ × Option String) → GradeRow → List GradeRow → List GradeRow
upsert columns new [] = new ∷ []
upsert columns new (g ∷ gs) =
    if g.bet_id == new.bet_id then overwrite columns new g ∷ gs else g ∷ upsert columns new gs

-- INSERT into bet_grades; `bet_id` is unique.
unfoldable pub write_grade :
    Bool → Option (Option ℤ × Option String) → GradeRow → List GradeRow → Result (List GradeRow)
write_grade true columns new grades = ok (upsert columns new grades)
write_grade false columns new grades =
    if any (grades_bet new.bet_id) grades then err unexpected else ok (grades ++ new ∷ [])

-- `bet_grades JOIN paper_bets ON paper_bets.id = bet_grades.bet_id`
abbrev pub pairs_of : GradeRow → List BetRow → List (BetRow × GradeRow)
pairs_of g bets = map (λ b. (b, g)) (filter (λ b. b.id == g.bet_id) bets)

unfoldable pub graded_join : List BetRow → List GradeRow → List (BetRow × GradeRow)
graded_join bets [] = []
graded_join bets (g ∷ gs) = pairs_of g bets ++ graded_join bets gs

abbrev pub clvs : List (BetRow × GradeRow) → List ℤ
clvs [] = []
clvs ((_, g) ∷ rest) = elim g.clv [ none ↦ clvs rest | some c ↦ c ∷ clvs rest ]

abbrev pub is_open : BetRow → Bool
is_open b = eq_status b.status opened

abbrev pub joined_profit : List (BetRow × GradeRow) → ℤ
joined_profit graded = sum_ℤ (map (λ p. p.1.profit_loss) graded)

-- the two aggregate queries, given the balance
abbrev pub snapshot_row : ℕ → List BetRow → List (BetRow × GradeRow) → ℤ → SnapshotRow
snapshot_row now bets graded balance = record {
  balance = balance;
  total_wagered = sum_ℤ (map (λ p. p.0.stake) graded);
  total_profit_loss = joined_profit graded;
  open_bets_count = count is_open bets;
  total_bets = length graded;
  total_wins = count (λ p. eq_status p.0.status won) graded;
  total_losses = count (λ p. eq_status p.0.status lost) graded;
  avg_clv = avg (clvs graded);
  snapshot_at = now;
}

module _ {W : Type 0} ⦃f : Float W⦄ ⦃n : Numeric W⦄ where
  unfoldable pub stat_values :
      Option (W × Option String) → Result (Option (Option ℤ × Option String))
  stat_values none = ok none
  stat_values (some (actual, stat_type)) = do
    a ← column (n.stored 2 actual)
    ok (some (some a, stat_type))

  unfoldable pub grade_row :
      ℕ → ℕ → ℕ → GradeValues W → Result (GradeRow × Option (Option ℤ × Option String))
  unfolding stat_values opt_column
  grade_row id bet_id now v = do
    profit_loss ← column (n.stored 4 v.profit_loss)
    closing_line_value ← opt_column 2 v.closing_line_value
    clv ← opt_column 5 v.clv
    columns ← stat_values v.prop_columns
    ok (
      record {
        id = id;
        bet_id = bet_id;
        actual_result = v.actual_result;
        actual_home_score = v.actual_home_score;
        actual_away_score = v.actual_away_score;
        actual_margin = v.actual_margin;
        actual_total = v.actual_total;
        game_result_id = v.game_result_id;
        profit_loss = profit_loss;
        closing_line_value = closing_line_value;
        closing_odds = v.closing_odds;
        clv = clv;
        actual_stat_value = (stat_columns columns).0;
        stat_type = (stat_columns columns).1;
        graded_at = now;
      },
      columns,
    )

  -- The snapshot that ends a grading transaction, from aggregates over the rows as just written.
  unfoldable pub snapshot : ℕ → W → List BetRow → List GradeRow → Result SnapshotRow
  snapshot now starting_bankroll bets grades =
      let graded = graded_join bets grades in
      let balance = f.add starting_bankroll (n.loaded 4 (joined_profit graded)) in
      column (n.stored 4 balance) >>= λ b. ok (snapshot_row now bets graded b)

  -- Claim a bet, write its grade, append a snapshot. `false` when there is nothing to claim.
  unfoldable pub apply_grade :
      ℕ → ℕ → ℕ → Status → GradeValues W → W → Bool → Database → Result (Bool × Database)
  apply_grade grade_id now bet_id status values starting_bankroll force db =
      let bets = map (claim force bet_id status now) db.paper_bets in
      let graded = grade_row grade_id bet_id now values >>= λ (new, columns).
      write_grade force columns new db.bet_grades >>= λ grades.
      snapshot now starting_bankroll bets grades >>= λ taken. ok (
        true,
        record db {
          paper_bets = bets;
          bet_grades = grades;
          bankroll_snapshots = db.bankroll_snapshots ++ taken ∷ [];
        },
      ) in
      if any (claimed force bet_id) db.paper_bets then graded else ok (false, db)

-- What a test unfolds to run the grading transactions.
unfoldable pub grading_runs : Unit {0}
unfolding apply_grade grade_leg grade_row stat_values opt_column write_grade snapshot graded_join
    avg ◌+ℤ◌
grading_runs = tt
