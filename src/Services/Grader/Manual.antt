-- ===== src/Services/Grader/Manual.antt =====
-- GraderService.grade_manual.
use bookie_breaker_bookie_em.Base.{
  ℕ, Bool, not, ◌&&◌, Option, none, some, String, str_eq, or_text, any, if◌then◌else◌,
}
use bookie_breaker_bookie_em.Domain.{opened, player_prop, eq_status, eq_market, is_prop}
use bookie_breaker_bookie_em.Float.{Float}
use bookie_breaker_bookie_em.Core.Errors.{
  Error, Result, ok, err, not_found, duplicate_resource, unprocessable,
}
use bookie_breaker_bookie_em.Core.Props.{Resolved, resolved, unresolved}
use bookie_breaker_bookie_em.Clients.{TeamRef, Game, GameResult}
use bookie_breaker_bookie_em.Db.Numeric.{Numeric}
use bookie_breaker_bookie_em.Db.Rows.{PaperBetRecord, BetGradeRecord}
use bookie_breaker_bookie_em.Db.Repository.Inserts.{legs_for_bet}
use bookie_breaker_bookie_em.Db.Repository.Queries.{get_with_grade}
use bookie_breaker_bookie_em.Services.Action.{
  Context, Action, raise, raise_if, lift, gets, ◌>>=◌, ◌>>◌,
}
use bookie_breaker_bookie_em.Services.Grader.Values.{Completed}
use bookie_breaker_bookie_em.Services.Grader.Single.{grade_one}
use bookie_breaker_bookie_em.Services.Grader.Props.{resolve_bet, apply_prop_grade}
use bookie_breaker_bookie_em.Services.Grader.Legs.{settle_parlay_if_decided}
use bookie_breaker_bookie_em.Services.Grader.Game.{fetch_closing}

-- `except NotFoundError as exc: raise UnprocessableError(...) from exc`
abbrev pub found_or_unprocessable {ℓ} : {A : Type ℓ} → Result A → Result A
found_or_unprocessable (ok a) = ok a
found_or_unprocessable (err not_found) = err unprocessable
found_or_unprocessable (err e) = err e

-- `team.abbreviation or team.name`
abbrev pub team_label : TeamRef → String
team_label team = or_text (some team.abbreviation) team.name

abbrev pub completed_game : Game → GameResult → Completed
completed_game game result = record {
  scores = record {
    home_score = result.home_score;
    away_score = result.away_score;
    regulation_home_score = result.regulation_home_score;
    regulation_away_score = result.regulation_away_score;
  };
  total = some result.total_score;
  margin = some result.margin;
  home_team = some (team_label game.home_team);
  away_team = some (team_label game.away_team);
  game_result_id = result.id;
}

abbrev pub final_result : Game → Result Completed
final_result game = elim game.result [
  | none ↦ err unprocessable
  | some result ↦
      if str_eq game.status "FINAL" then ok (completed_game game result) else err unprocessable
]

abbrev pub or_raise {ℓ} : {A : Type ℓ} → Error → Option A → Result A
or_raise e none = err e
or_raise e (some a) = ok a

module _ {W : Type 0} ⦃f : Float W⦄ ⦃n : Numeric W⦄ where
  abbrev pub apply_resolved :
      Context W → Completed → PaperBetRecord W → Bool → Resolved W → Action W Bool
  apply_resolved c g bet force (unresolved reason) = raise unprocessable
  apply_resolved c g bet force (resolved status description actual) =
      apply_prop_grade c g bet status description actual force

  -- the branch for PROP_MARKETS
  abbrev pub grade_manual_prop : Context W → ℕ → Completed → PaperBetRecord W → Bool → Action W Bool
  grade_manual_prop c game_id g bet force = do
    raise_if (not (eq_market bet.market_type player_prop)) unprocessable
    box ← lift (found_or_unprocessable (c.get_box_score game_id))
    apply_resolved c g bet force (resolve_bet c box bet)

  abbrev pub grade_from_result : Context W → ℕ → PaperBetRecord W → Bool → Action W Bool
  grade_from_result c game_id bet force = do
    game ← lift (found_or_unprocessable (c.get_game game_id))
    g ← lift (final_result game)
    if is_prop bet.market_type
        then grade_manual_prop c game_id g bet force
        else grade_one c g bet (fetch_closing c bet.game_external_id) force

  -- (re-)settle a parlay once every leg is decided
  abbrev pub settle_manual : Context W → ℕ → Bool → Action W Bool
  settle_manual c bet_id force = do
    legs ← gets (legs_for_bet {W = W} bet_id)
    raise_if (any (λ l. eq_status l.leg_status opened) legs) unprocessable
    settle_parlay_if_decided c bet_id force

  abbrev pub grade_single : Context W → Option ℕ → PaperBetRecord W → Bool → Action W Bool
  grade_single c none bet force = raise unprocessable
  grade_single c (some game_id) bet force = grade_from_result c game_id bet force

  abbrev pub grade_found : Context W → ℕ → PaperBetRecord W → Bool → Action W Bool
  grade_found c bet_id bet force =
      if bet.is_parlay then settle_manual c bet_id force else grade_single c bet.game_id bet force

  unfoldable pub grade_manual :
      Context W → ℕ → Bool → Action W (PaperBetRecord W × Option (BetGradeRecord W))
  grade_manual c bet_id force = do
    before ← gets (get_with_grade bet_id)
    found ← lift (or_raise not_found before)
    raise_if (not (eq_status found.0.status opened) && not force) duplicate_resource
    applied ← grade_found c bet_id found.0 force
    after ← gets (get_with_grade bet_id)
    lift (or_raise not_found after)
