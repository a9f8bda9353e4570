-- ===== src/Services/Grader/Legs.antt =====
-- Parlays: `_grade_parlay_legs` and `_settle_parlay_if_decided`.
use bookie_breaker_bookie_em.Base.{
  ℕ, ◌+◌, Bool, false, ◌==◌, ltb, Option, none, some, List, [], ◌∷◌, ◌++◌, String, map, any,
  if◌then◌else◌,
}
use bookie_breaker_bookie_em.Domain.{Status, player_prop, eq_market, is_prop}
use bookie_breaker_bookie_em.Float.{Float}
use bookie_breaker_bookie_em.Core.Errors.{Result, ok, err, value_error}
use bookie_breaker_bookie_em.Core.Grading.{profit_loss}
use bookie_breaker_bookie_em.Core.Parlay.{settle_parlay, leg_outcome_summary}
use bookie_breaker_bookie_em.Core.Props.{Resolved, resolved, unresolved, resolve_player_prop}
use bookie_breaker_bookie_em.Clients.{BoxScore}
use bookie_breaker_bookie_em.Db.Numeric.{Numeric}
use bookie_breaker_bookie_em.Db.Rows.{PaperBetRecord, ParlayLegRecord, BetGradeRecord}
use bookie_breaker_bookie_em.Db.Values.{GradeValues}
use bookie_breaker_bookie_em.Db.Repository.Grading.{grade_leg}
use bookie_breaker_bookie_em.Db.Repository.Inserts.{legs_for_bet}
use bookie_breaker_bookie_em.Db.Repository.Queries.{open_leg_count, get_with_grade}
use bookie_breaker_bookie_em.Services.Action.{Context, Action, pure, lift, gets, ◌>>=◌}
use bookie_breaker_bookie_em.Services.Grader.Values.{Completed, grade_selection}
use bookie_breaker_bookie_em.Services.Grader.Single.{commit_grade}
use bookie_breaker_bookie_em.Services.Grader.Props.{one_if}

-- `parents[bet_id] = None`: a dictionary keeps the place of a key that it has.
unfoldable pub add_parent : ℕ → List ℕ → List ℕ
add_parent bet_id parents =
    if any (λ p. p == bet_id) parents then parents else parents ++ bet_id ∷ []

-- `except ValueError`
abbrev pub graded_or_skipped : Result (Status × String) → Result (Option Status)
graded_or_skipped (ok (status, _)) = ok (some status)
graded_or_skipped (err value_error) = ok none
graded_or_skipped (err e) = err e

module _ {W : Type 0} where
  abbrev pub resolved_status : Resolved W → Option Status
  resolved_status (resolved status _ _) = some status
  resolved_status (unresolved _) = none

  unfoldable pub repo_grade_leg : ℕ → Status → Action W Bool
  repo_grade_leg leg_id status w =
      let (claimed, db) = grade_leg leg_id status w.db in
      (ok claimed, record w { db = db; clock = w.clock + 1 })

module _ {W : Type 0} ⦃f : Float W⦄ where
  abbrev pub prop_leg_status : Context W → Option BoxScore → ParlayLegRecord W → Option Status
  prop_leg_status c none leg = none
  prop_leg_status c (some box) leg =
      if eq_market leg.market_type player_prop
      then resolved_status (
          resolve_player_prop c.unicode box leg.player_external_id leg.stat_type leg.prop_type
            leg.side leg.line_value)
      else none

  -- The status that a leg's game gives it; `none` leaves it OPEN.
  unfoldable pub leg_verdict :
      Context W → Completed → Option BoxScore → ParlayLegRecord W → Result (Option Status)
  leg_verdict c g box leg =
      if is_prop leg.market_type
      then ok (prop_leg_status c box leg)
      else graded_or_skipped (grade_selection g leg.league leg.market_type leg.side leg.line_value)

  -- `if await self._repo.grade_leg(leg.id, status): parents[leg.bet_id] = None`
  abbrev pub record_leg : ParlayLegRecord W → Option Status → List ℕ → Action W (List ℕ)
  record_leg leg none parents = pure parents
  record_leg leg (some status) parents = do
    claimed ← repo_grade_leg leg.id status
    pure (if claimed then add_parent leg.bet_id parents else parents)

  unfoldable pub grade_legs :
      Context W
      → Completed
      → Option BoxScore
      → List (ParlayLegRecord W)
      → List ℕ
      → Action W (List ℕ)
  grade_legs c g box [] parents = pure parents
  grade_legs c g box (leg ∷ legs) parents = do
    verdict ← lift (leg_verdict c g box leg)
    parents' ← record_leg leg verdict parents
    grade_legs c g box legs parents'

  unfoldable pub parlay_values : PaperBetRecord W → List Status → Status → W → GradeValues W
  parlay_values parent statuses status repriced = record {
    actual_result = leg_outcome_summary statuses status repriced;
    actual_home_score = none;
    actual_away_score = none;
    actual_margin = none;
    actual_total = none;
    game_result_id = none;
    profit_loss = profit_loss status parent.stake repriced;
    closing_line_value = none;
    closing_odds = none;
    clv = none;
    prop_columns = none;
  }

module _ {W : Type 0} ⦃f : Float W⦄ ⦃n : Numeric W⦄ where
  abbrev pub commit_parlay :
      Context W → PaperBetRecord W → List Status → Option (Status × W) → Bool → Action W Bool
  commit_parlay c parent statuses none force = pure false
  commit_parlay c parent statuses (some (status, repriced)) force =
      commit_grade c parent status (parlay_values parent statuses status repriced) force

  abbrev pub settle_legs :
      Context W → PaperBetRecord W → Bool → List (ParlayLegRecord W) → Action W Bool
  settle_legs c parent force legs =
      let statuses = map (λ l. l.leg_status) legs in
      do
        settled ← lift (settle_parlay statuses (map (λ l. l.odds_decimal) legs))
        commit_parlay c parent statuses settled force

  abbrev pub settle_parent : Context W → Option (PaperBetRecord W) → Bool → Action W Bool
  settle_parent c none force = pure false
  settle_parent c (some parent) force = do
    legs ← gets (legs_for_bet {W = W} parent.id)
    settle_legs c parent force legs

  abbrev pub parent_of :
      Option (PaperBetRecord W × Option (BetGradeRecord W)) → Option (PaperBetRecord W)
  parent_of none = none
  parent_of (some (parent, _)) = some parent

  unfoldable pub settle_parlay_if_decided : Context W → ℕ → Bool → Action W Bool
  settle_parlay_if_decided c bet_id force = do
    open_legs ← gets (open_leg_count bet_id)
    found ← gets (get_with_grade bet_id)
    if ltb 0 open_legs then pure false else settle_parent c (parent_of found) force

  unfoldable pub settle_parents : Context W → List ℕ → Action W ℕ
  settle_parents c [] = pure 0
  settle_parents c (bet_id ∷ parents) = do
    applied ← settle_parlay_if_decided c bet_id false
    rest ← settle_parents c parents
    pure (one_if applied + rest)

  unfoldable pub grade_parlay_legs :
      Context W → Completed → Option BoxScore → List (ParlayLegRecord W) → Action W ℕ
  grade_parlay_legs c g box legs = do parents ← grade_legs c g box legs []; settle_parents c parents
