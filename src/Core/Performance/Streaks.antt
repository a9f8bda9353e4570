-- ===== src/Core/Performance/Streaks.antt =====
-- streaks.
use bookie_breaker_bookie_em.Base.{
  ℕ, ◌+◌, Bool, true, false, leb, ltb, Option, none, some, List, [], ◌∷◌, map, filter,
  if◌then◌else◌,
}
use bookie_breaker_bookie_em.Base.Int.{ℤ, pos, sub_ℕ}
use bookie_breaker_bookie_em.Base.Sorting.{sort_by}
use bookie_breaker_bookie_em.Domain.{Status, won, eq_status}
use bookie_breaker_bookie_em.Core.Performance.{GradedBet, is_settled}
pub mod Runs
pub mod Longest

-- The variables of the loop; `none` is the empty run_status.
pub record Run : Type 0 where
  pub run : ℕ
  pub run_status : Option Status
  pub longest_win : ℕ
  pub longest_loss : ℕ

abbrev pub no_run : Run
no_run = record { run = 0; run_status = none; longest_win = 0; longest_loss = 0 }

abbrev pub max : ℕ → ℕ → ℕ
max a b = if ltb a b then b else a

abbrev pub same_status : Status → Option Status → Bool
same_status s none = false
same_status s (some t) = eq_status s t

abbrev pub run_on : Run → Status → ℕ
run_on r s = if same_status s r.run_status then r.run + 1 else 1

unfoldable pub step_run : Run → Status → Run
step_run r s = record {
  run = run_on r s;
  run_status = some s;
  longest_win = if eq_status s won then max r.longest_win (run_on r s) else r.longest_win;
  longest_loss = if eq_status s won then r.longest_loss else max r.longest_loss (run_on r s);
}

unfoldable pub run_loop : Run → List Status → Run
unfolding step_run
run_loop r [] = r
run_loop r (s ∷ ss) = run_loop (step_run r s) ss

-- `run if run_status == "WON" else -run`
abbrev pub signed_run : Run → ℤ
signed_run r = if same_status won r.run_status then pos r.run else sub_ℕ 0 r.run

abbrev pub streaks_of : Run → ℤ × ℕ × ℕ
streaks_of r = (signed_run r, r.longest_win, r.longest_loss)

module _ {W : Type 0} where
  abbrev pub graded_before : GradedBet W → GradedBet W → Bool
  graded_before a b = leb a.graded_at b.graded_at

  -- the statuses of the settled bets in the order of their grading
  unfoldable pub settled_statuses : List (GradedBet W) → List Status
  settled_statuses bets = filter is_settled (map (λ b. b.status) (sort_by graded_before bets))

  unfoldable pub streaks : List (GradedBet W) → ℤ × ℕ × ℕ
  unfolding settled_statuses run_loop
  streaks bets = streaks_of (run_loop no_run (settled_statuses bets))
