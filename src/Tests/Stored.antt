-- ===== src/Tests/Stored.antt =====
-- Tests of db/repository.py.
use bookie_breaker_bookie_em.Base.{ℕ, ◌≡◌, refl, true, false, none, some, [], ◌∷◌, ◌++◌, map}
use bookie_breaker_bookie_em.Base.Int.{pos, negsuc}
use bookie_breaker_bookie_em.Domain.{opened, won, lost, spread, home, draw, moneyline, nba, epl}
use bookie_breaker_bookie_em.Float.Fixed.{Fixed, fixed_float, fixed_runs}
use bookie_breaker_bookie_em.Core.Errors.{ok}
use bookie_breaker_bookie_em.Db.Numeric.{fixed_numeric, numeric_runs}
use bookie_breaker_bookie_em.Db.Rows.{
  BetRow, LegRow, SnapshotRow, Database, PaperBetRecord, bet_from_row, leg_from_row,
}
use bookie_breaker_bookie_em.Db.Values.{BetValues}
use bookie_breaker_bookie_em.Db.Repository.Inserts.{insert_idempotent, insert_parlay, inserts_run}
use bookie_breaker_bookie_em.Db.Repository.Grading.{apply_grade, grade_leg, grading_runs}
use bookie_breaker_bookie_em.Db.Repository.Consistent.{IsConsistent}
use bookie_breaker_bookie_em.Db.Repository.Consistent.Graded.{
  apply_grade-IsConsistent, grade_leg-IsConsistent,
}
use bookie_breaker_bookie_em.Db.Repository.Consistent.Placed.{
  insert_idempotent-IsConsistent, insert_parlay-IsConsistent,
}
use bookie_breaker_bookie_em.Db.Repository.Consistent.Reach.{
  here, next, placed, empty, empty-IsConsistent, Reach-IsConsistent,
}
use bookie_breaker_bookie_em.Db.Repository.Consistent.Once.{graded_once}
use bookie_breaker_bookie_em.Db.Repository.Consistent.Bankroll.{IsTaken, apply_grade_snapshot}
use bookie_breaker_bookie_em.Tests.Data.{ten_thousandths, bet_values, leg_values, plain_grade}

abbrev pub values : BetValues Fixed
values = bet_values "key" nba spread home

-- the row that the first bet becomes
abbrev pub first_row : BetRow
first_row = record {
  id = 1;
  game_id = some 7;
  game_external_id = "game-7";
  league = nba;
  market_type = spread;
  selection = "Home";
  side = some home;
  line_value = some (negsuc 349);
  player_external_id = none;
  stat_type = none;
  prop_type = none;
  is_parlay = false;
  is_live = false;
  sportsbook_id = none;
  sportsbook_key = "book";
  odds_american = negsuc 109;
  odds_decimal = pos 19_000;
  stake = pos 10_000;
  predicted_probability = pos 55_000;
  edge_at_placement = pos 3_000;
  kelly_fraction = pos 2_500;
  reasoning = none;
  prediction_id = none;
  edge_id = none;
  idempotency_key = "key";
  game_start_at = some 100;
  status = opened;
  placed_at = 10;
  graded_at = none;
}

abbrev pub one_bet : Database
one_bet = record {
  paper_bets = first_row ∷ [];
  bet_grades = [];
  parlay_legs = [];
  bankroll_snapshots = [];
}

abbrev pub first_bet : PaperBetRecord Fixed
first_bet = bet_from_row first_row

pub placing : insert_idempotent 1 10 values empty ≡ ok ((first_bet, true), one_bet)
unfolding inserts_run numeric_runs
placing = refl

pub one_bet-IsConsistent : IsConsistent one_bet
one_bet-IsConsistent =
    insert_idempotent-IsConsistent 1 10 values empty one_bet (first_bet, true) empty-IsConsistent
      placing

-- the legs of a parlay
abbrev leg : ℕ → ℕ → LegRow
leg id index = record {
  id = id;
  bet_id = 1;
  leg_index = index;
  game_id = some 7;
  game_external_id = "game-7";
  league = epl;
  market_type = moneyline;
  selection = "Draw";
  side = some draw;
  line_value = none;
  player_external_id = none;
  stat_type = none;
  prop_type = none;
  odds_american = pos 100;
  odds_decimal = pos 20_000;
  leg_status = opened;
}

abbrev pub one_parlay : Database
one_parlay = record {
  paper_bets = first_row ∷ [];
  bet_grades = [];
  parlay_legs = leg 5 0 ∷ leg 6 1 ∷ [];
  bankroll_snapshots = [];
}

placing_parlay :
    insert_parlay 1 5 10 values (leg_values 0 ∷ leg_values 1 ∷ []) empty
    ≡ ok ((first_bet, map leg_from_row (leg 5 0 ∷ leg 6 1 ∷ []), true), one_parlay)
unfolding inserts_run numeric_runs
placing_parlay = refl

pub one_parlay-IsConsistent : IsConsistent one_parlay
one_parlay-IsConsistent =
    insert_parlay-IsConsistent 1 5 10 values (leg_values 0 ∷ leg_values 1 ∷ []) empty one_parlay
      (first_bet, map leg_from_row (leg 5 0 ∷ leg 6 1 ∷ []), true) empty-IsConsistent placing_parlay

grade_leg-IsConsistent_example : IsConsistent (grade_leg 5 won one_parlay).1
grade_leg-IsConsistent_example = grade_leg-IsConsistent 5 won one_parlay one_parlay-IsConsistent

-- a million units of 10^-4 to start with
abbrev pub starting : Fixed
starting = ten_thousandths (pos 1_000_000)

abbrev pub graded_bet : Database
graded_bet = record {
  paper_bets = record first_row { status = won; graded_at = some 20 } ∷ [];
  bet_grades =
      record {
        id = 3;
        bet_id = 1;
        actual_result = "Home won by 4";
        actual_home_score = none;
        actual_away_score = none;
        actual_margin = none;
        actual_total = none;
        game_result_id = none;
        profit_loss = pos 9_000;
        closing_line_value = none;
        closing_odds = none;
        clv = none;
        actual_stat_value = none;
        stat_type = none;
        graded_at = 20;
      }
      ∷ [];
  parlay_legs = [];
  bankroll_snapshots =
      record {
        balance = pos 1_009_000;
        total_wagered = pos 10_000;
        total_profit_loss = pos 9_000;
        open_bets_count = 0;
        total_bets = 1;
        total_wins = 1;
        total_losses = 0;
        avg_clv = none;
        snapshot_at = 20;
      }
      ∷ [];
}

pub grading : apply_grade 3 20 1 won plain_grade starting false one_bet ≡ ok (true, graded_bet)
unfolding grading_runs fixed_runs numeric_runs
grading = refl

pub graded_bet-IsConsistent : IsConsistent graded_bet
graded_bet-IsConsistent =
    apply_grade-IsConsistent 3 20 1 won plain_grade starting false one_bet refl one_bet-IsConsistent
      true grading

apply_grade_snapshot_example :
    (s : SnapshotRow) × (graded_bet.bankroll_snapshots ≡ one_bet.bankroll_snapshots ++ s ∷ [])
    × IsTaken 20 starting graded_bet s
apply_grade_snapshot_example =
    apply_grade_snapshot 3 20 1 won plain_grade starting false one_bet graded_bet
      one_bet-IsConsistent refl grading

-- a second grader comes late
graded_once_example :
    apply_grade 4 21 1 lost plain_grade starting false graded_bet ≡ ok (false, graded_bet)
graded_once_example =
    graded_once starting 3 20 4 21 1 won lost plain_grade plain_grade false one_bet graded_bet
      graded_bet one_bet-IsConsistent refl grading here

Reach-IsConsistent_example : IsConsistent one_bet
Reach-IsConsistent_example =
    Reach-IsConsistent Fixed starting empty-IsConsistent
      (next here (placed 1 10 values (first_bet, true) placing))
