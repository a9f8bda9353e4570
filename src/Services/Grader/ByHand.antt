-- ===== src/Services/Grader/ByHand.antt =====
-- grade_manual as a sequence of transactions of the repository, and what one that returns has done.
use bookie_breaker_bookie_em.Base.{
  ℕ, Bool, true, false, not, ◌&&◌, Option, none, some, any, if◌then◌else◌,
}
use bookie_breaker_bookie_em.Domain.{opened, eq_status, player_prop, eq_market, is_prop}
use bookie_breaker_bookie_em.Float.{Float}
use bookie_breaker_bookie_em.Core.Errors.{Error, not_found, unprocessable, duplicate_resource}
use bookie_breaker_bookie_em.Core.Props.{Resolved, resolved, unresolved}
use bookie_breaker_bookie_em.Core.Props.Decided.{HasDecided}
use bookie_breaker_bookie_em.Db.Numeric.{Numeric}
use bookie_breaker_bookie_em.Db.Rows.{PaperBetRecord, BetGradeRecord}
use bookie_breaker_bookie_em.Db.Repository.Inserts.{legs_for_bet}
use bookie_breaker_bookie_em.Db.Repository.Queries.{get_with_grade}
use bookie_breaker_bookie_em.Db.Repository.Consistent.{IsConsistent}
use bookie_breaker_bookie_em.Db.Repository.Consistent.Reach.{here, Reach-IsConsistent}
use bookie_breaker_bookie_em.Services.Action.{
  World, Context, Action, raise_if, lift, gets, ◌>>=◌, ◌>>◌,
}
use bookie_breaker_bookie_em.Services.Grader.Values.{Completed}
use bookie_breaker_bookie_em.Services.Grader.Single.{grade_one}
use bookie_breaker_bookie_em.Services.Grader.Props.{resolve_bet}
use bookie_breaker_bookie_em.Services.Grader.Legs.{settle_parlay_if_decided}
use bookie_breaker_bookie_em.Services.Grader.Game.{fetch_closing}
use bookie_breaker_bookie_em.Services.Grader.Commits.{Commits, >>=-Commits, lift-Commits}
use bookie_breaker_bookie_em.Services.Grader.Reached.{
  grade_one-Commits, apply_prop-Commits, resolve_bet-HasDecided, settle_if_decided-Commits,
}
use bookie_breaker_bookie_em.Services.Grader.Manual.{
  found_or_unprocessable, final_result, or_raise, apply_resolved, grade_manual_prop, settle_manual,
  grade_single, grade_found, grade_manual,
}

module _ {W : Type 0} ⦃f : Float W⦄ ⦃n : Numeric W⦄ (c : Context W) where
  guarded :
      {A : Type 0} (test : Bool) (e : Error) (m : Action W A)
      → Commits c m
      → Commits c (raise_if test e >> m)
  guarded true e m h w = here
  guarded false e m h w = h w

  either :
      {A : Type 0} (test : Bool) (m k : Action W A)
      → Commits c m
      → Commits c k
      → Commits c (λ w. (if test then m else k) w)
  either true m k p q = p
  either false m k p q = q

  apply_resolved-Commits :
      (g : Completed) (bet : PaperBetRecord W) (force : Bool) (r : Resolved W)
      → HasDecided r
      → Commits c (apply_resolved c g bet force r)
  apply_resolved-Commits g bet force (unresolved reason) h = λ w. here
  apply_resolved-Commits g bet force (resolved status description actual) h =
      apply_prop-Commits c g bet status description actual force h

  prop-Commits :
      (game_id : ℕ) (g : Completed) (bet : PaperBetRecord W) (force : Bool)
      → Commits c (grade_manual_prop c game_id g bet force)
  prop-Commits game_id g bet force =
      guarded (not (eq_market bet.market_type player_prop)) unprocessable (from_box) (
        lift-Commits c (found_or_unprocessable (c.get_box_score game_id))
          (λ box. apply_resolved c g bet force (resolve_bet c box bet))
          (λ box _.
            apply_resolved-Commits g bet force (resolve_bet c box bet)
              (resolve_bet-HasDecided c box bet)))
    where
      from_box : Action W Bool
      from_box = lift (found_or_unprocessable (c.get_box_score game_id)) >>= λ box.
          apply_resolved c g bet force (resolve_bet c box bet)

  graded_by : ℕ → PaperBetRecord W → Bool → Completed → Action W Bool
  graded_by game_id bet force g =
      if is_prop bet.market_type
      then grade_manual_prop c game_id g bet force
      else grade_one c g bet (fetch_closing c bet.game_external_id) force

  graded_by-Commits :
      (game_id : ℕ) (bet : PaperBetRecord W) (force : Bool) (g : Completed)
      → Commits c (graded_by game_id bet force g)
  unfolding graded_by
  graded_by-Commits game_id bet force g =
      let lines = fetch_closing c bet.game_external_id in
      either (is_prop bet.market_type) (grade_manual_prop c game_id g bet force)
        (grade_one c g bet lines force) (prop-Commits game_id g bet force)
        (grade_one-Commits c g bet lines force)

  single-Commits :
      (game_id : Option ℕ) (bet : PaperBetRecord W) (force : Bool)
      → Commits c (grade_single c game_id bet force)
  unfolding graded_by
  single-Commits none bet force = λ w. here
  single-Commits (some game_id) bet force =
      lift-Commits c (found_or_unprocessable (c.get_game game_id))
        (λ game. lift (final_result game) >>= graded_by game_id bet force)
        (λ game _.
          lift-Commits c (final_result game) (graded_by game_id bet force)
            (λ g _. graded_by-Commits game_id bet force g))

  manual_parlay-Commits : (bet_id : ℕ) (force : Bool) → Commits c (settle_manual c bet_id force)
  manual_parlay-Commits bet_id force w =
      guarded (any (λ l. eq_status l.leg_status opened) (legs_for_bet {W = W} bet_id w.db))
        unprocessable (settle_parlay_if_decided c bet_id force)
        (settle_if_decided-Commits c bet_id force) w

  found-Commits :
      (bet_id : ℕ) (bet : PaperBetRecord W) (force : Bool)
      → Commits c (grade_found c bet_id bet force)
  found-Commits bet_id bet force =
      either bet.is_parlay (settle_manual c bet_id force) (grade_single c bet.game_id bet force)
        (manual_parlay-Commits bet_id force) (single-Commits bet.game_id bet force)

  refreshed : ℕ → Action W (PaperBetRecord W × Option (BetGradeRecord W))
  refreshed bet_id = gets (get_with_grade bet_id) >>= λ after. lift (or_raise not_found after)

  pub grade_manual-Commits : (bet_id : ℕ) (force : Bool) → Commits c (grade_manual c bet_id force)
  unfolding grade_manual refreshed
  grade_manual-Commits bet_id force w =
      lift-Commits c (or_raise not_found (get_with_grade bet_id w.db)) checked
        (λ found _.
          guarded (not (eq_status found.0.status opened) && not force) duplicate_resource
            (grade_found c bet_id found.0 force >>= λ _. refreshed bet_id)
            (>>=-Commits c (grade_found c bet_id found.0 force) (λ _. refreshed bet_id)
              (found-Commits bet_id found.0 force) (λ _ u. here)))
        w
    where
      checked :
          PaperBetRecord W × Option (BetGradeRecord W)
          → Action W (PaperBetRecord W × Option (BetGradeRecord W))
      checked found =
          raise_if (not (eq_status found.0.status opened) && not force) duplicate_resource
          >> (grade_found c bet_id found.0 force >>= λ _. refreshed bet_id)

  -- A manual grade or re-grade, forced or not and whatever it raises, keeps the database consistent.
  pub grade_manual-IsConsistent :
      (bet_id : ℕ) (force : Bool) (w : World W)
      → IsConsistent w.db
      → IsConsistent (grade_manual c bet_id force w).1.db
  grade_manual-IsConsistent bet_id force w h =
      Reach-IsConsistent W c.starting_bankroll_units h (grade_manual-Commits bet_id force w)
