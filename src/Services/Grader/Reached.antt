-- ===== src/Services/Grader/Reached.antt =====
-- The grader's entry points, as sequences of transactions of the repository.
use bookie_breaker_bookie_em.Base.{
  ℕ, ◌+◌, Bool, false, not, ltb, Option, none, some, List, [], ◌∷◌, String, map, filter, Bool-cases,
  inl, inr, if◌then◌else◌,
}
use bookie_breaker_bookie_em.Domain.{Status}
use bookie_breaker_bookie_em.Float.{Float}
use bookie_breaker_bookie_em.Clients.{BoxScore, LineSnapshot}
use bookie_breaker_bookie_em.Core.Errors.{Result}
use bookie_breaker_bookie_em.Core.Grading.Decided.{IsDecided}
use bookie_breaker_bookie_em.Core.Props.{Resolved, resolved, unresolved}
use bookie_breaker_bookie_em.Core.Props.Decided.{HasDecided, resolve_player_prop-HasDecided}
use bookie_breaker_bookie_em.Core.Parlay.{settle_parlay}
use bookie_breaker_bookie_em.Db.Numeric.{Numeric}
use bookie_breaker_bookie_em.Db.Rows.{PaperBetRecord, ParlayLegRecord}
use bookie_breaker_bookie_em.Db.Repository.Inserts.{legs_for_bet}
use bookie_breaker_bookie_em.Db.Repository.Queries.{
  open_leg_count, get_with_grade, open_bets_for_game, open_parlay_legs_for_game,
}
use bookie_breaker_bookie_em.Db.Repository.Consistent.{IsConsistent}
use bookie_breaker_bookie_em.Db.Repository.Consistent.Reach.{here, Reach-IsConsistent}
use bookie_breaker_bookie_em.Services.Action.{World, Context, Action, pure, lift, gets, ◌>>=◌}
use bookie_breaker_bookie_em.Services.Grader.Values.{Completed, score_grade}
use bookie_breaker_bookie_em.Services.Grader.Decided.{
  score_grade-IsDecided, SettledDecided, settle_parlay-IsDecided,
}
use bookie_breaker_bookie_em.Services.Grader.Single.{commit_grade, grade_one}
use bookie_breaker_bookie_em.Services.Grader.Props.{
  one_if, is_player_prop, prop_values, resolve_bet, apply_prop_grade, grade_resolved,
  grade_player_props, grade_props,
}
use bookie_breaker_bookie_em.Services.Grader.Legs.{
  add_parent, repo_grade_leg, leg_verdict, record_leg, grade_legs, parlay_values, commit_parlay,
  settle_legs, settle_parent, parent_of, settle_parlay_if_decided, settle_parents,
  grade_parlay_legs,
}
use bookie_breaker_bookie_em.Services.Grader.Game.{
  fetch_closing, game_box, is_prop_bet, grade_score_bets, grade_others, grade_all, grade_open,
  grade_game,
}
use bookie_breaker_bookie_em.Services.Grader.Commits.{
  Commits, >>=-Commits, lift-Commits, commit_grade-Commits, grade_leg-Commits,
}

module _ {W : Type 0} ⦃f : Float W⦄ ⦃n : Numeric W⦄ (c : Context W) where
  stays : {A : Type 0} (r : Result A) → Commits c (lift r)
  stays r w = here

  pub grade_one-Commits :
      (g : Completed) (bet : PaperBetRecord W) (lines : List (LineSnapshot W)) (force : Bool)
      → Commits c (grade_one c g bet lines force)
  unfolding grade_one
  grade_one-Commits g bet lines force =
      lift-Commits c (score_grade g bet lines)
        (λ graded. commit_grade c bet graded.0 graded.1 force)
        (λ graded e.
          commit_grade-Commits c bet graded.0 graded.1 force
            (score_grade-IsDecided g bet lines graded e))

  pub apply_prop-Commits :
      (g : Completed) (bet : PaperBetRecord W) (status : Status) (description : String) (actual : W)
      (force : Bool)
      → IsDecided status
      → Commits c (apply_prop_grade c g bet status description actual force)
  unfolding apply_prop_grade
  apply_prop-Commits g bet status description actual force =
      commit_grade-Commits c bet status (prop_values g bet status description actual) force

  grade_resolved-Commits :
      (g : Completed) (bet : PaperBetRecord W) (r : Resolved W)
      → HasDecided r
      → Commits c (grade_resolved c g bet r)
  grade_resolved-Commits g bet (unresolved reason) h = λ w. here
  grade_resolved-Commits g bet (resolved status d actual) h =
      apply_prop-Commits g bet status d actual false h

  pub resolve_bet-HasDecided :
      (box : BoxScore) (bet : PaperBetRecord W) → HasDecided (resolve_bet c box bet)
  unfolding resolve_bet
  resolve_bet-HasDecided box bet =
      resolve_player_prop-HasDecided c.unicode box bet.player_external_id bet.stat_type
        bet.prop_type bet.side bet.line_value

  -- One call per element, and a count.
  counted : Action W Bool → Action W ℕ → Action W ℕ
  counted m rest = m >>= λ applied. rest >>= λ k. pure (one_if applied + k)

  counted-Commits :
      (m : Action W Bool) (rest : Action W ℕ)
      → Commits c m
      → Commits c rest
      → Commits c (counted m rest)
  unfolding counted
  counted-Commits m rest p q =
      >>=-Commits c m _ p
        (λ applied. >>=-Commits c rest (λ k. pure (one_if applied + k)) q (λ k w. here))

  player_props-Commits :
      (g : Completed) (box : BoxScore) (bets : List (PaperBetRecord W))
      → Commits c (grade_player_props c g box bets)
  unfolding grade_player_props counted
  player_props-Commits g box [] = λ w. here
  player_props-Commits g box (bet ∷ bets) =
      counted-Commits (grade_resolved c g bet (resolve_bet c box bet))
        (grade_player_props c g box bets)
        (grade_resolved-Commits g bet (resolve_bet c box bet) (resolve_bet-HasDecided box bet))
        (player_props-Commits g box bets)

  grade_props-Commits :
      (g : Completed) (box : Option BoxScore) (bets : List (PaperBetRecord W))
      → Commits c (grade_props c g box bets)
  unfolding grade_props
  grade_props-Commits g none bets = λ w. here
  grade_props-Commits g (some box) bets = player_props-Commits g box (filter is_player_prop bets)

  pub score_bets-Commits :
      (g : Completed) (bets : List (PaperBetRecord W)) → Commits c (grade_score_bets c g bets)
  unfolding grade_score_bets counted
  score_bets-Commits g [] = λ w. here
  score_bets-Commits g (bet ∷ bets) =
      counted-Commits (grade_one c g bet (fetch_closing c bet.game_external_id) false)
        (grade_score_bets c g bets)
        (grade_one-Commits g bet (fetch_closing c bet.game_external_id) false)
        (score_bets-Commits g bets)

  record_leg-Commits :
      (leg : ParlayLegRecord W) (verdict : Option Status) (parents : List ℕ)
      → Commits c (record_leg leg verdict parents)
  record_leg-Commits leg none parents = λ w. here
  record_leg-Commits leg (some status) parents =
      >>=-Commits c (repo_grade_leg leg.id status)
        (λ claimed. pure (if claimed then add_parent leg.bet_id parents else parents))
        (grade_leg-Commits c leg.id status) (λ claimed w. here)

  legs-Commits :
      (g : Completed) (box : Option BoxScore) (legs : List (ParlayLegRecord W)) (parents : List ℕ)
      → Commits c (grade_legs c g box legs parents)
  unfolding grade_legs
  legs-Commits g box [] parents = λ w. here
  legs-Commits g box (leg ∷ legs) parents =
      lift-Commits c (leg_verdict c g box leg)
        (λ verdict. record_leg leg verdict parents >>= λ parents'. grade_legs c g box legs parents')
        (λ verdict e.
          >>=-Commits c (record_leg leg verdict parents)
            (λ parents'. grade_legs c g box legs parents') (record_leg-Commits leg verdict parents)
            (λ parents'. legs-Commits g box legs parents'))

  commit_parlay-Commits :
      (parent : PaperBetRecord W) (statuses : List Status) (settled : Option (Status × W))
      (force : Bool)
      → SettledDecided settled
      → Commits c (commit_parlay c parent statuses settled force)
  commit_parlay-Commits parent statuses none force d = λ w. here
  commit_parlay-Commits parent statuses (some (status, repriced)) force d =
      commit_grade-Commits c parent status (parlay_values parent statuses status repriced) force d

  settle_legs-Commits :
      (parent : PaperBetRecord W) (force : Bool) (legs : List (ParlayLegRecord W))
      → Commits c (settle_legs c parent force legs)
  settle_legs-Commits parent force legs =
      let statuses = map (λ l. l.leg_status) legs in
      let decimals = map (λ l. l.odds_decimal) legs in
      lift-Commits c (settle_parlay statuses decimals)
        (λ settled. commit_parlay c parent statuses settled force)
        (λ settled e.
          commit_parlay-Commits parent statuses settled force
            (settle_parlay-IsDecided statuses decimals settled e))

  settle_parent-Commits :
      (parent : Option (PaperBetRecord W)) (force : Bool) → Commits c (settle_parent c parent force)
  settle_parent-Commits none force = λ w. here
  settle_parent-Commits (some parent) force =
      >>=-Commits c (gets (legs_for_bet {W = W} parent.id)) (settle_legs c parent force) (λ w. here)
        (settle_legs-Commits parent force)

  pub settle_if_decided-Commits :
      (bet_id : ℕ) (force : Bool) → Commits c (settle_parlay_if_decided c bet_id force)
  unfolding settle_parlay_if_decided
  settle_if_decided-Commits bet_id force w =
      elim (Bool-cases (ltb 0 (open_leg_count bet_id w.db))) [
        | inl waits ↦ rw waits here
        | inr ready ↦
            rw ready (settle_parent-Commits (parent_of (get_with_grade bet_id w.db)) force w)
      ]

  settle_parents-Commits : (parents : List ℕ) → Commits c (settle_parents c parents)
  unfolding settle_parents counted
  settle_parents-Commits [] = λ w. here
  settle_parents-Commits (bet_id ∷ parents) =
      counted-Commits (settle_parlay_if_decided c bet_id false) (settle_parents c parents)
        (settle_if_decided-Commits bet_id false) (settle_parents-Commits parents)

  parlay_legs-Commits :
      (g : Completed) (box : Option BoxScore) (legs : List (ParlayLegRecord W))
      → Commits c (grade_parlay_legs c g box legs)
  unfolding grade_parlay_legs
  parlay_legs-Commits g box legs =
      >>=-Commits c (grade_legs c g box legs []) (settle_parents c) (legs-Commits g box legs [])
        settle_parents-Commits

  pub others-Commits :
      (g : Completed) (box : Option BoxScore) (bets : List (PaperBetRecord W))
      (legs : List (ParlayLegRecord W)) (graded : ℕ)
      → Commits c (grade_others c g box bets legs graded)
  unfolding grade_others
  others-Commits g box bets legs graded =
      >>=-Commits c (grade_props c g box (filter is_prop_bet bets)) _
        (grade_props-Commits g box (filter is_prop_bet bets))
        (λ props.
          >>=-Commits c (grade_parlay_legs c g box legs)
            (λ settled_parents. pure (graded + props + settled_parents))
            (parlay_legs-Commits g box legs) (λ k w. here))

  all-Commits :
      (game_id : ℕ) (g : Completed) (bets : List (PaperBetRecord W))
      (legs : List (ParlayLegRecord W))
      → Commits c (grade_all c game_id g bets legs)
  all-Commits game_id g bets legs =
      >>=-Commits c (grade_score_bets c g (filter (λ bet. not (is_prop_bet bet)) bets))
        (grade_others c g (game_box c game_id bets legs) bets legs)
        (score_bets-Commits g (filter (λ bet. not (is_prop_bet bet)) bets))
        (others-Commits g (game_box c game_id bets legs) bets legs)

  grade_open-Commits :
      (game_id : ℕ) (g : Completed) (bets : List (PaperBetRecord W))
      (legs : List (ParlayLegRecord W))
      → Commits c (grade_open c game_id g bets legs)
  unfolding grade_open
  grade_open-Commits game_id g [] [] = λ w. here
  grade_open-Commits game_id g [] (leg ∷ legs) = all-Commits game_id g [] (leg ∷ legs)
  grade_open-Commits game_id g (bet ∷ bets) legs = all-Commits game_id g (bet ∷ bets) legs

  pub grade_game-Commits : (game_id : ℕ) (g : Completed) → Commits c (grade_game c game_id g)
  unfolding grade_game
  grade_game-Commits game_id g w =
      grade_open-Commits game_id g (open_bets_for_game game_id w.db)
        (open_parlay_legs_for_game game_id w.db) w

  -- Grading a game keeps the ids unique, one bet per idempotency key and one grade per graded bet,
  -- also when it raises in the middle.
  pub grade_game-IsConsistent :
      (game_id : ℕ) (g : Completed) (w : World W)
      → IsConsistent w.db
      → IsConsistent (grade_game c game_id g w).1.db
  grade_game-IsConsistent game_id g w h =
      Reach-IsConsistent W c.starting_bankroll_units h (grade_game-Commits game_id g w)
