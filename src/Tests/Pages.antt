-- ===== src/Tests/Pages.antt =====
-- Tests of the ledger and of the bankroll.

use bookie_breaker_bookie_em.Base.{
  ℕ, zero, suc, ◌+◌, ◌/◌, ◌≡◌, refl, inl, true, false, Option, none, some, List, [], ◌∷◌, ◌==◌,
  length, filter, count, last?, String, str_eq, if◌then◌else◌, show_ℕ, arith,
}
use bookie_breaker_bookie_em.Base.Dict.{list_of}
use bookie_breaker_bookie_em.Base.Int.{pos}
use bookie_breaker_bookie_em.Base.Sorting.{IsStrict, IsOrdered}
use bookie_breaker_bookie_em.Domain.{won, epl, moneyline, away}
use bookie_breaker_bookie_em.Float.Fixed.{Fixed, fixed_float}
use bookie_breaker_bookie_em.Core.Errors.{ok}
use bookie_breaker_bookie_em.Core.Slug.{codes}
use bookie_breaker_bookie_em.Db.Numeric.{fixed_numeric, numeric_runs}
use bookie_breaker_bookie_em.Db.Rows.{SnapshotRow, Database, BankrollSnapshotRecord}
use bookie_breaker_bookie_em.Db.Repository.Inserts.{inserts_run}
use bookie_breaker_bookie_em.Db.Repository.Queries.{latest_snapshot}
use bookie_breaker_bookie_em.Db.Repository.Consistent.{IsConsistent}
use bookie_breaker_bookie_em.Db.Repository.Consistent.Placed.{insert_idempotent-IsConsistent}
use bookie_breaker_bookie_em.Db.Repository.Ledger.{
  LedgerFilters, newest_first, filter_conditions, ledger_rows,
}
use bookie_breaker_bookie_em.Api.Pagination.{Codec, IsCodec}
use bookie_breaker_bookie_em.Api.Schemas.{pending}
use bookie_breaker_bookie_em.Api.Routes.Bets.{LedgerQuery, query_filters}
use bookie_breaker_bookie_em.Api.Routes.Bets.Pages.{read_all, shown, read_all-shown}
use bookie_breaker_bookie_em.Api.Schemas.Bankroll.{daily}
use bookie_breaker_bookie_em.Services.Bankroll.{
  Settings, Calendar, bucket_key, earliest_first, at_interval, current,
}
use bookie_breaker_bookie_em.Services.Bankroll.Current.{current-latest}
use bookie_breaker_bookie_em.Services.Bankroll.Buckets.{at_interval_last}
use bookie_breaker_bookie_em.Tests.Data.{bet_values, plain_grade, ten_thousandths, evens, one_unit}
use bookie_breaker_bookie_em.Tests.Stored.{
  first_row, one_bet, one_bet-IsConsistent, starting, graded_bet, grading,
}

-- A codec that writes numbers in unary.
marks : ℕ → String → String
marks zero s = s
marks (suc n) s = String.◌∷◌ "a" (marks n s)

abbrev read_marks : ℕ → List ℕ → Option (ℕ × ℕ)
read_marks n [] = none
read_marks n (c ∷ cs) =
    let rest = read_marks (suc n) cs in if c == b'a' then rest else some (n, length cs)

unary : Codec
unfolding marks
unary = record {
  dumps = λ t i. marks t (String.◌∷◌ "b" (marks i String.[]));
  loads = λ s. read_marks 0 (codes s);
}

length-marks : (n : ℕ) → length (codes (marks n String.[])) ≡ n
unfolding marks
length-marks zero = refl
length-marks (suc n) = omega (arith, length-marks n)

read-marks :
    (n t i : ℕ)
    → read_marks n (codes (marks t (String.◌∷◌ "b" (marks i String.[])))) ≡ some (n + t, i)
unfolding marks
read-marks n zero i = ground (arith, length-marks i)
read-marks n (suc t) i = ground (arith, read-marks (suc n) t i)

unary-IsCodec : IsCodec unary
unfolding unary
unary-IsCodec = record { loads-dumps = λ t i. ground (arith, read-marks 0 t i) }

abbrev two_bets : Database
two_bets = record one_bet {
  paper_bets =
      first_row
      ∷ record first_row {
        id = 2;
        league = epl;
        market_type = moneyline;
        side = some away;
        idempotency_key = "other";
        placed_at = 11;
      }
      ∷ [];
}

two_bets-IsConsistent : IsConsistent two_bets
unfolding inserts_run numeric_runs
two_bets-IsConsistent =
    insert_idempotent-IsConsistent {W = Fixed} 2 11 (bet_values "other" epl moneyline away) one_bet
      two_bets _ one_bet-IsConsistent refl

-- the open bets that are not live, with an edge of one percent or more
abbrev query : LedgerQuery Fixed
query = record {
  league = none;
  market_type = none;
  result = some pending;
  date_from = none;
  date_to = none;
  min_edge = some one_unit;
  is_parlay = none;
  is_live = some false;
  status = "open";
}

read_all-shown_example :
    (filters : LedgerFilters Fixed) × (query_filters query ≡ ok filters)
    × (read_all 3 unary evens two_bets query 1 none
        ≡ ok (shown evens two_bets (ledger_rows filters none two_bets)))
    × IsStrict newest_first (ledger_rows filters none two_bets)
    × (count (λ b. b.id == 2) (ledger_rows filters none two_bets)
        ≡ count (λ b. b.id == 2) (filter (filter_conditions filters) two_bets.paper_bets))
read_all-shown_example =
    read_all-shown unary-IsCodec evens two_bets query 1 (λ b. b.id == 2) (omega arith)
      two_bets-IsConsistent

abbrev settings : Settings Fixed
settings = record {
  starting_bankroll_units = starting;
  unit_size_dollars = ten_thousandths (pos 1_000_000);
  max_bet_units = ten_thousandths (pos 30_000);
  max_daily_exposure_units = ten_thousandths (pos 100_000);
  kelly_fraction = ten_thousandths (pos 2_500);
  kelly_enabled = true;
}

current-latest_example :
    (s : SnapshotRow) × (latest_snapshot graded_bet ≡ some s)
    × (fixed_numeric.stored 4 (current settings 30 graded_bet).bankroll_units ≡ some s.balance)
    × ((current settings 30 graded_bet).open_bets_count ≡ s.open_bets_count)
    × ((current settings 30 graded_bet).snapshot_at ≡ 20)
current-latest_example =
    current-latest settings 3 20 1 won plain_grade false 30 one_bet graded_bet one_bet-IsConsistent
      refl tt grading

abbrev snapshot_at : ℕ → BankrollSnapshotRecord Fixed
snapshot_at t = record {
  balance = starting;
  total_wagered = one_unit;
  total_profit_loss = one_unit;
  open_bets_count = 0;
  total_bets = 1;
  total_wins = 1;
  total_losses = 0;
  avg_clv = none;
  snapshot_at = t;
}

abbrev calendar : Calendar
calendar = record { iso_week = λ t. show_ℕ (t / 604_800); iso_date = λ t. show_ℕ (t / 86_400) }

abbrev snapshots : List (BankrollSnapshotRecord Fixed)
snapshots = snapshot_at 10 ∷ snapshot_at 20 ∷ snapshot_at 90_000 ∷ []

at_interval_last_example :
    (filter (λ s. str_eq (bucket_key calendar daily s) "0") (at_interval calendar daily snapshots)
      ≡ list_of (last? (filter (λ s. str_eq (bucket_key calendar daily s) "0") snapshots)))
    × IsOrdered earliest_first (at_interval calendar daily snapshots)
at_interval_last_example = at_interval_last calendar daily "0" snapshots (inl refl)
