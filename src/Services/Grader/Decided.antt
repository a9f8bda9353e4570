-- ===== src/Services/Grader/Decided.antt =====
-- No verdict of the grader is OPEN: score grades, legs and parlays.
use bookie_breaker_bookie_em.Base.{
  ◌≡◌, refl, Option, none, some, List, String, arith, Bool-cases, inl, inr,
}
use mathlib.Core.Path.{subst}
use bookie_breaker_bookie_em.Base.Int.{ℤ}
use bookie_breaker_bookie_em.Domain.{Status, eq_market, player_prop, is_prop}
use bookie_breaker_bookie_em.Float.{Float}
use bookie_breaker_bookie_em.Clients.{BoxScore, LineSnapshot}
use bookie_breaker_bookie_em.Core.Errors.{
  Result, ok, err, value_error, >>=-eq-ok, ok-injective, ◌>>=◌,
}
use bookie_breaker_bookie_em.Core.Grading.Decided.{IsDecided, grade_bet-IsDecided}
use bookie_breaker_bookie_em.Core.Props.{Resolved, resolved, unresolved, resolve_player_prop}
use bookie_breaker_bookie_em.Core.Props.Decided.{HasDecided, resolve_player_prop-HasDecided}
use bookie_breaker_bookie_em.Core.Parlay.{settle_parlay, decide_parlay}
use bookie_breaker_bookie_em.Core.Settlement.{settlement_scores}
use bookie_breaker_bookie_em.Core.Clv.{match_closing_line}
use bookie_breaker_bookie_em.Db.Rows.{PaperBetRecord, ParlayLegRecord}
use bookie_breaker_bookie_em.Db.Values.{GradeValues}
use bookie_breaker_bookie_em.Services.Action.{Context}
use bookie_breaker_bookie_em.Services.Grader.Values.{
  Completed, grade_selection, closing_values, score_values, score_grade, three_way,
}
use bookie_breaker_bookie_em.Services.Grader.Legs.{
  graded_or_skipped, resolved_status, prop_leg_status, leg_verdict,
}

-- what a leg or a parlay gets, where it gets a status
abbrev pub AllDecided : Option Status → Type 0
AllDecided none = Unit
AllDecided (some status) = IsDecided status

skipped-AllDecided :
    (r : Result (Status × String)) (verdict : Option Status)
    → ((p : Status × String) → r ≡ ok p → IsDecided p.0)
    → graded_or_skipped r ≡ ok verdict
    → AllDecided verdict
skipped-AllDecided (ok p) (some s) h e = let d = h p refl in ground arith
skipped-AllDecided (ok p) none h e = tt
skipped-AllDecided (err value_error) verdict h e = ground arith
skipped-AllDecided (err _) verdict h e = ground arith

module _ {W : Type 0} ⦃f : Float W⦄ where
  pub score_grade-IsDecided :
      (g : Completed) (bet : PaperBetRecord W) (lines : List (LineSnapshot W))
      (r : Status × GradeValues W)
      → score_grade g bet lines ≡ ok r
      → IsDecided r.0
  unfolding score_grade grade_selection
  score_grade-IsDecided g bet lines r e =
      let (graded, graded_eq, rest) =
        >>=-eq-ok (grade_selection g bet.league bet.market_type bet.side bet.line_value) after e in
      let (closing, _, done) = >>=-eq-ok closed (finish graded) rest in
      let scores = settlement_scores g.scores bet.league in
      let decided : IsDecided graded.0 =
        grade_bet-IsDecided bet.market_type bet.side bet.line_value scores.0 scores.1 g.home_team
          g.away_team (three_way bet.league bet.market_type) graded.0 graded.1 graded_eq in
      ground arith
    where
      closed : Result (Option W × Option ℤ × Option W)
      closed =
          closing_values bet
            (match_closing_line lines bet.market_type bet.side bet.sportsbook_key bet.line_value)

      finish : Status × String → Option W × Option ℤ × Option W → Result (Status × GradeValues W)
      finish graded closing = ok (graded.0, score_values g bet graded closing)

      after : Status × String → Result (Status × GradeValues W)
      after graded = closed >>= finish graded

  resolved-AllDecided : (r : Resolved W) → HasDecided r → AllDecided (resolved_status r)
  resolved-AllDecided (resolved status d a) h = h
  resolved-AllDecided (unresolved reason) h = tt

  prop_leg-AllDecided :
      (c : Context W) (box : Option BoxScore) (leg : ParlayLegRecord W)
      → AllDecided (prop_leg_status c box leg)
  prop_leg-AllDecided c none leg = tt
  prop_leg-AllDecided c (some box) leg = elim (Bool-cases (eq_market leg.market_type player_prop)) [
    | inl player ↦ rw player (
        resolved-AllDecided
          (resolve_player_prop c.unicode box leg.player_external_id leg.stat_type leg.prop_type
            leg.side leg.line_value)
          (resolve_player_prop-HasDecided c.unicode box leg.player_external_id leg.stat_type
            leg.prop_type leg.side leg.line_value))
    | inr other ↦ rw other tt
  ]

  grade_selection-IsDecided :
      (g : Completed) (leg : ParlayLegRecord W) (p : Status × String)
      → grade_selection g leg.league leg.market_type leg.side leg.line_value ≡ ok p
      → IsDecided p.0
  unfolding grade_selection
  grade_selection-IsDecided g leg p e =
      let scores = settlement_scores g.scores leg.league in
      grade_bet-IsDecided leg.market_type leg.side leg.line_value scores.0 scores.1 g.home_team
        g.away_team (three_way leg.league leg.market_type) p.0 p.1 e

  pub leg_verdict-AllDecided :
      (c : Context W) (g : Completed) (box : Option BoxScore) (leg : ParlayLegRecord W)
      (verdict : Option Status)
      → leg_verdict c g box leg ≡ ok verdict
      → AllDecided verdict
  unfolding leg_verdict
  leg_verdict-AllDecided c g box leg verdict e = elim (Bool-cases (is_prop leg.market_type)) [
    | inl player ↦
        let same : ◌≡◌ {A = Result (Option Status)} (ok (prop_leg_status c box leg)) (ok verdict) =
          rw player at e in
        subst AllDecided (ok-injective same) (prop_leg-AllDecided c box leg)
    | inr other ↦
        skipped-AllDecided (grade_selection g leg.league leg.market_type leg.side leg.line_value)
          verdict (grade_selection-IsDecided g leg) (rw other at e)
  ]

  -- a settled parlay
  abbrev pub SettledDecided : Option (Status × W) → Type 0
  SettledDecided none = Unit
  SettledDecided (some (status, _)) = IsDecided status

  pub settle_parlay-IsDecided :
      (statuses : List Status) (decimals : List W) (r : Option (Status × W))
      → settle_parlay statuses decimals ≡ ok r
      → SettledDecided r
  unfolding settle_parlay decide_parlay
  settle_parlay-IsDecided statuses decimals r e = ground arith
