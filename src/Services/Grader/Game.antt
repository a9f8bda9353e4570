-- ===== src/Services/Grader/Game.antt =====
-- GraderService.grade_game, and `_fetch_closing`.
use bookie_breaker_bookie_em.Base.{
  ℕ, ◌+◌, Bool, false, not, ◌||◌, Option, none, List, [], ◌∷◌, String, any, filter, if◌then◌else◌,
}
use bookie_breaker_bookie_em.Domain.{player_prop, eq_market, is_prop}
use bookie_breaker_bookie_em.Float.{Float}
use bookie_breaker_bookie_em.Core.Errors.{ok, err}
use bookie_breaker_bookie_em.Clients.{BoxScore, LineSnapshot}
use bookie_breaker_bookie_em.Db.Numeric.{Numeric}
use bookie_breaker_bookie_em.Db.Rows.{PaperBetRecord, ParlayLegRecord}
use bookie_breaker_bookie_em.Db.Repository.Queries.{open_bets_for_game, open_parlay_legs_for_game}
use bookie_breaker_bookie_em.Services.Action.{Context, Action, pure, gets, ◌>>=◌}
use bookie_breaker_bookie_em.Services.Grader.Values.{Completed}
use bookie_breaker_bookie_em.Services.Grader.Single.{grade_one}
use bookie_breaker_bookie_em.Services.Grader.Props.{
  one_if, is_player_prop, fetch_box_score, grade_props,
}
use bookie_breaker_bookie_em.Services.Grader.Legs.{grade_parlay_legs}

module _ {W : Type 0} where
  -- `_fetch_closing`: every exception is logged and gives the empty list.
  unfoldable pub fetch_closing : Context W → String → List (LineSnapshot W)
  fetch_closing c game_external_id = elim (c.closing_lines game_external_id) [
    | ok lines ↦ lines
    | err e ↦ []
  ]

  abbrev pub needs_box : List (PaperBetRecord W) → List (ParlayLegRecord W) → Bool
  needs_box bets legs =
      any is_player_prop bets || any (λ l. eq_market l.market_type player_prop) legs

  unfoldable pub game_box :
      Context W → ℕ → List (PaperBetRecord W) → List (ParlayLegRecord W) → Option BoxScore
  game_box c game_id bets legs = if needs_box bets legs then fetch_box_score c game_id else none

  abbrev pub is_prop_bet : PaperBetRecord W → Bool
  is_prop_bet bet = is_prop bet.market_type

module _ {W : Type 0} ⦃f : Float W⦄ ⦃n : Numeric W⦄ where
  -- A service answers the same during a call, so `closing_by_game`, which keeps each answer, is
  -- not modelled.
  unfoldable pub grade_score_bets : Context W → Completed → List (PaperBetRecord W) → Action W ℕ
  grade_score_bets c g [] = pure 0
  grade_score_bets c g (bet ∷ bets) = do
    applied ← grade_one c g bet (fetch_closing c bet.game_external_id) false
    rest ← grade_score_bets c g bets
    pure (one_if applied + rest)

  -- what follows the score bets: the props, then the parlay legs
  unfoldable pub grade_others :
      Context W
      → Completed
      → Option BoxScore
      → List (PaperBetRecord W)
      → List (ParlayLegRecord W)
      → ℕ
      → Action W ℕ
  grade_others c g box bets legs graded = do
    props ← grade_props c g box (filter is_prop_bet bets)
    settled_parents ← grade_parlay_legs c g box legs
    pure (graded + props + settled_parents)

  abbrev pub grade_all :
      Context W → ℕ → Completed → List (PaperBetRecord W) → List (ParlayLegRecord W) → Action W ℕ
  grade_all c game_id g bets legs = do
    graded ← grade_score_bets c g (filter (λ bet. not (is_prop_bet bet)) bets)
    grade_others c g (game_box c game_id bets legs) bets legs graded

  unfoldable pub grade_open :
      Context W → ℕ → Completed → List (PaperBetRecord W) → List (ParlayLegRecord W) → Action W ℕ
  grade_open c game_id g [] [] = pure 0
  grade_open c game_id g [] (leg ∷ legs) = grade_all c game_id g [] (leg ∷ legs)
  grade_open c game_id g (bet ∷ bets) legs = grade_all c game_id g (bet ∷ bets) legs

  -- The number of single bets graded plus parlay parents settled.
  unfoldable pub grade_game : Context W → ℕ → Completed → Action W ℕ
  grade_game c game_id g = do
    bets ← gets (open_bets_for_game game_id)
    legs ← gets (open_parlay_legs_for_game game_id)
    grade_open c game_id g bets legs
