-- ===== src/Tests/Loops.antt =====
-- Tests of the poller, of the subscriber and of the process.
use bookie_breaker_bookie_em.Base.{
  ℕ, ◌^◌, ◌≡◌, refl, not, ◌⊎◌, some, none, [], ◌∷◌, filter, All, count, ◌==◌, if◌then◌else◌, arith,
}
use bookie_breaker_bookie_em.Base.Int.{pos}
use bookie_breaker_bookie_em.Db.Rows.{Database}
use bookie_breaker_bookie_em.Services.Action.{Context}
use bookie_breaker_bookie_em.Float.Fixed.{Fixed, fixed_float, fixed_runs}
use bookie_breaker_bookie_em.Core.Errors.{Error, Result, ok, err, not_found}
use bookie_breaker_bookie_em.Core.Grading.{grade_bet, settle, profit_loss}
use bookie_breaker_bookie_em.Core.Odds.{implied_probability}
use bookie_breaker_bookie_em.Core.Clv.{match_closing_line, compute_clv}
use bookie_breaker_bookie_em.Core.Settlement.{settlement_scores, is_three_way_moneyline_league}
use bookie_breaker_bookie_em.Clients.{GameResult}
use bookie_breaker_bookie_em.Db.Numeric.{fixed_numeric, numeric_runs}
use bookie_breaker_bookie_em.Db.Repository.Queries.{
  open_bets_for_game, open_parlay_legs_for_game, distinct, open_game_ids_started_before,
  open_parlay_leg_game_ids_started_before,
}
use bookie_breaker_bookie_em.Db.Repository.Grading.{grading_runs}
use bookie_breaker_bookie_em.Db.Repository.Consistent.{IsConsistent}
use bookie_breaker_bookie_em.Db.Repository.Consistent.Once.{IsGraded}
use bookie_breaker_bookie_em.Services.Action.{World}
use bookie_breaker_bookie_em.Services.Grader.Values.{score_grade, grade_selection, closing_values}
use bookie_breaker_bookie_em.Services.Grader.Single.{
  grade_one, commit_grade, repo_apply_grade, publish_bet_graded,
}
use bookie_breaker_bookie_em.Services.Grader.Props.{grade_props, grade_player_props}
use bookie_breaker_bookie_em.Services.Grader.Legs.{grade_parlay_legs, grade_legs, settle_parents}
use bookie_breaker_bookie_em.Services.Grader.Game.{
  is_prop_bet, grade_game, grade_open, grade_others, grade_score_bets, game_box, fetch_closing,
}
use bookie_breaker_bookie_em.Services.Grader.Manual.{completed_game}
use bookie_breaker_bookie_em.Services.Poller.{due_game_ids, poll_game, sweep, run_once, poll_cycle}
use bookie_breaker_bookie_em.Services.Poller.Due.{due_game_ids_once}
use bookie_breaker_bookie_em.Services.Poller.Sweep.{run_once_clears, run_once-IsConsistent}
use bookie_breaker_bookie_em.Events.Subscriber.{
  Reader, started, next_backoff, failed_to_subscribe, slept, subscribed, received, lost, handle,
  grade_payload, sleeping, listening, running, reconnecting,
}
use bookie_breaker_bookie_em.Events.Subscriber.Backoff.{
  IsLoop, at_start, then_step, LoopRun-IsLoop, none_yet, one_more, Failures-backoff,
}
use bookie_breaker_bookie_em.Process.{idle, then_does, bet_posted, polled, event_received}
use bookie_breaker_bookie_em.Clients.Http.{Http, Models, response, unreadable}
use bookie_breaker_bookie_em.Process.Wiring.{context_of}
use bookie_breaker_bookie_em.Process.Outage.{run_once_down}
use bookie_breaker_bookie_em.Process.Keeps.{Runs-keeps}
use bookie_breaker_bookie_em.Api.Routes.Placement.{post_bet}
use bookie_breaker_bookie_em.Tests.Data.{no_fold, context, final_game, world_of, one_unit}
use bookie_breaker_bookie_em.Tests.Placement.{desk, request_of}
use bookie_breaker_bookie_em.Tests.Stored.{
  first_row, starting, one_bet, one_bet-IsConsistent, graded_bet, graded_bet-IsConsistent,
}

abbrev final_result : GameResult
final_result = record {
  id = some 9;
  home_score = pos 104;
  away_score = pos 100;
  total_score = pos 204;
  margin = pos 4;
  regulation_home_score = none;
  regulation_away_score = none;
}

-- a bet on game 6, about which statistics-service does not answer, before the bet on game 7
abbrev two_bets : Database
two_bets = record one_bet {
  paper_bets =
      record first_row { id = 2; game_id = some 6; idempotency_key = "other" } ∷ first_row ∷ [];
}

abbrev half_context : Context Fixed
half_context = record context { get_game = λ j. if j == 7 then ok final_game else err not_found }

abbrev before_game : World Fixed
before_game = (sweep half_context (6 ∷ []) (world_of two_bets)).1

abbrev after_game : World Fixed
after_game = (grade_game half_context 7 (completed_game final_game final_result) before_game).1

run_once_clears_example :
    All
      (λ bet. IsGraded bet.id (run_once half_context 10 (ok tt) (world_of two_bets)).1.db)
      (filter (λ bet. not (is_prop_bet bet)) (open_bets_for_game {W = Fixed} 7 before_game.db))
unfolding sweep poll_game due_game_ids distinct open_game_ids_started_before
    open_parlay_leg_game_ids_started_before grade_game grade_open grade_others grade_score_bets
    game_box fetch_closing grade_one commit_grade repo_apply_grade publish_bet_graded score_grade
    grade_selection closing_values grade_bet settle match_closing_line compute_clv
    implied_probability profit_loss settlement_scores is_three_way_moneyline_league grade_props
    grade_player_props grade_parlay_legs grade_legs settle_parents open_bets_for_game
    open_parlay_legs_for_game grading_runs fixed_runs numeric_runs
run_once_clears_example =
    run_once_clears half_context 10 (6 ∷ []) 7 [] 1 (world_of two_bets) after_game final_game
      final_result refl refl refl refl refl

-- The first query raises.
run_once-IsConsistent_example :
    IsConsistent (poll_cycle context 10 (err not_found) (world_of one_bet)).db
    × (((e : Error) × (◌≡◌ {A = Result (Unit {0})} (err not_found) (err e))
          × (run_once context 10 (err not_found) (world_of one_bet) ≡ (err e, world_of one_bet)))
        ⊎ ((k : ℕ) × (◌≡◌ {A = Result (Unit {0})} (err not_found) (ok tt))
            × ((run_once context 10 (err not_found) (world_of one_bet)).0 ≡ ok k)))
run_once-IsConsistent_example =
    run_once-IsConsistent context 10 (err not_found) (world_of one_bet) one_bet-IsConsistent

due_game_ids_once_example : count (λ j. j == 7) (due_game_ids 190 two_bets) ≡ 1
due_game_ids_once_example = due_game_ids_once 7 190 two_bets

-- no payload can be read
abbrev deaf : Reader
deaf = λ raw. err not_found

-- a subscription, a message, and the loss of redis with its wait
LoopRun-IsLoop_example :
    IsLoop {W = Fixed}
      (record (started (world_of one_bet)) { backoff = 1; phase = sleeping; status = reconnecting })
unfolding handle grade_payload
LoopRun-IsLoop_example = LoopRun-IsLoop deaf (world_of one_bet) (
    then_step
      (then_step (then_step at_start (subscribed (started (world_of one_bet)) refl)) (
        received (record (started (world_of one_bet)) { phase = listening; status = running })
          context "{}" refl))
      (lost (record (started (world_of one_bet)) { phase = listening; status = running }) refl))

Failures-backoff_example : next_backoff 1 ≡ 2 ^ 1
unfolding next_backoff
Failures-backoff_example =
    Failures-backoff deaf 1
      (one_more none_yet (failed_to_subscribe (started (world_of one_bet)) refl) refl
        (slept (record (started (world_of one_bet)) { phase = sleeping; status = reconnecting })
          refl)
        refl)
      refl

-- a graded bet, a placement, an event and a poll
Runs-keeps_example :
    let placed = (post_bet desk one_unit (request_of one_unit) "new" (world_of graded_bet)).1 in
    let told = handle context deaf "{}" placed in
    let polled_twice = poll_cycle context 10 (ok tt) (poll_cycle context 10 (err not_found) told) in
    IsConsistent polled_twice.db × IsGraded 1 polled_twice.db
Runs-keeps_example =
    Runs-keeps starting 1
      (then_does
        (then_does
          (then_does
            (then_does idle
              (bet_posted (world_of graded_bet) desk one_unit (request_of one_unit) "new"))
            (event_received _ context deaf "{}" refl))
          (polled _ context 10 (err not_found) refl))
        (polled _ context 10 (ok tt) refl))
      graded_bet-IsConsistent (omega arith)

-- 503 on every path
abbrev down : Http ℕ
down path params = response 503 unreadable

abbrev no_models : Models ℕ Fixed
no_models = record {
  items = λ j. err not_found;
  line_snapshot = λ j. err not_found;
  best_line = λ j. err not_found;
  game = λ j. err not_found;
  box_score = λ j. err not_found;
}

run_once_down_example :
    run_once
      (context_of down down no_models (λ id. "7") no_fold starting)
      10
      (ok tt)
      (world_of one_bet)
    ≡ (ok 0, world_of one_bet)
run_once_down_example =
    run_once_down down down no_models (λ id. "7") no_fold starting 10 (world_of one_bet)
      (λ path params. refl)
