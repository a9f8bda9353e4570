-- ===== src/Services/Grader/Aborts.antt =====
-- grade_game when a bet on a score market cannot be graded: `_grade_one` does not catch the
-- ValueError of grade_bet.
use bookie_breaker_bookie_em.Base.{
  ℕ, ◌+◌, ◌≡◌, refl, ◌∙◌, Bool, false, not, ◌&&◌, List, [], ◌∷◌, ◌++◌, filter, Bool-cases, inl, inr,
}
use bookie_breaker_bookie_em.Domain.{Status}
use bookie_breaker_bookie_em.Float.{Float}
use bookie_breaker_bookie_em.Clients.{LineSnapshot}
use bookie_breaker_bookie_em.Core.Errors.{Result, ok, err, value_error, IsOk}
use bookie_breaker_bookie_em.Core.Settlement.{settlement_scores}
use bookie_breaker_bookie_em.Core.Grading.Errors.{IsGradable, grade_bet_iff}
use bookie_breaker_bookie_em.Db.Numeric.{Numeric}
use bookie_breaker_bookie_em.Db.Rows.{Database, PaperBetRecord, ParlayLegRecord}
use bookie_breaker_bookie_em.Db.Values.{GradeValues}
use bookie_breaker_bookie_em.Db.Repository.Grading.{apply_grade}
use bookie_breaker_bookie_em.Db.Repository.Grading.Applied.{apply_grade_inv}
use bookie_breaker_bookie_em.Db.Repository.Queries.{open_bets_for_game, open_parlay_legs_for_game}
use bookie_breaker_bookie_em.Services.Action.{
  committed, World, Context, Action, pure, bind_result, ◌>>=◌, ◌>>◌,
}
use bookie_breaker_bookie_em.Services.Grader.Values.{
  Completed, grade_selection, score_grade, three_way,
}
use bookie_breaker_bookie_em.Services.Grader.Single.{
  repo_apply_grade, publish_bet_graded, commit_grade, grade_one,
}
use bookie_breaker_bookie_em.Services.Grader.Props.{one_if}
use bookie_breaker_bookie_em.Services.Grader.Game.{
  fetch_closing, is_prop_bet, grade_score_bets, game_box, grade_others, grade_all, grade_open,
  grade_game,
}

-- A bet that grade_bet accepts.
abbrev pub CanGrade : {W : Type 0} → PaperBetRecord W → Type 0
CanGrade bet = IsGradable bet.market_type bet.side (three_way bet.league bet.market_type)

module _ {W : Type 0} where
  -- the legs are as before
  SameLegs : World W → World W → Type 0
  SameLegs w u = u.db.parlay_legs ≡ w.db.parlay_legs

  bind-SameLegs :
      {A B : Type 0} (r : Result A) (k : A → Action W B) (w : World W)
      → ((a : A) → SameLegs w (k a w).1)
      → SameLegs w (bind_result r k w).1
  unfolding SameLegs
  bind-SameLegs (ok a) k w h = h a
  bind-SameLegs (err e) k w h = refl

  raises-first :
      {A B : Type 0} (r : Result A) (k : A → Action W B) (w : World W)
      → ¬ (IsOk r)
      → (¬ (IsOk (bind_result r k w).0)) × SameLegs w (bind_result r k w).1
  unfolding SameLegs
  raises-first (ok a) k w h = absurd (h tt)
  raises-first (err e) k w h = (λ x. x, refl)

  raises-then :
      {A B : Type 0} (r : Result A) (k : A → Action W B) (w : World W)
      → ((a : A) → ¬ (IsOk (k a w).0))
      → ¬ (IsOk (bind_result r k w).0)
  raises-then (ok a) k w h = h a
  raises-then (err e) k w h = λ x. x

module _ {W : Type 0} ⦃f : Float W⦄ ⦃n : Numeric W⦄ (c : Context W) (g : Completed) where
  score_grade-raises :
      (bet : PaperBetRecord W) (lines : List (LineSnapshot W))
      → ¬ (CanGrade bet)
      → score_grade g bet lines ≡ err value_error
  unfolding score_grade grade_selection
  score_grade-raises bet lines bad =
      let scores = settlement_scores g.scores bet.league in
      rw (
        (grade_bet_iff bet.market_type bet.side bet.line_value scores.0 scores.1 g.home_team
            g.away_team (three_way bet.league bet.market_type)).1
          bad)

  grade_one-raises :
      (bet : PaperBetRecord W) (lines : List (LineSnapshot W)) (w : World W)
      → ¬ (CanGrade bet)
      → grade_one c g bet lines false w ≡ (err value_error, w)
  unfolding grade_one
  grade_one-raises bet lines w bad = rw (score_grade-raises bet lines bad)

  committed-SameLegs :
      (id now i : ℕ) (status : Status) (v : GradeValues W) (force : Bool) (w : World W)
      (r : Result (Bool × Database))
      → apply_grade id now i status v c.starting_bankroll_units force w.db ≡ r
      → SameLegs w (committed r w).1
  unfolding SameLegs
  committed-SameLegs id now i status v force w (err e) h = refl
  committed-SameLegs id now i status v force w (ok (r, db)) h =
      elim (apply_grade_inv id now i status v c.starting_bankroll_units force w.db db r h) [
        | inl (_, a) ↦ rw a.after
        | inr (_, same, _) ↦ rw same
      ]

  commit_grade-SameLegs :
      (bet : PaperBetRecord W) (status : Status) (v : GradeValues W) (force : Bool) (w : World W)
      → SameLegs w (commit_grade c bet status v force w).1
  unfolding commit_grade repo_apply_grade publish_bet_graded SameLegs
  commit_grade-SameLegs bet status v force w =
      bind-SameLegs tried.0 then_publish tried.1 published
      ∙ committed-SameLegs w.next_id w.clock bet.id status v force w _ refl
    where
      tried : Result Bool × World W
      tried = repo_apply_grade c bet.id status v force w

      then_publish : Bool → Action W Bool
      then_publish applied = publish_bet_graded c applied bet status v >> pure applied

      published : (applied : Bool) → SameLegs tried.1 (then_publish applied tried.1).1
      published applied = elim (Bool-cases (applied && c.has_redis)) [
        | inl on ↦ rw on
        | inr off ↦ rw off
      ]

  grade_one-SameLegs :
      (bet : PaperBetRecord W) (lines : List (LineSnapshot W)) (w : World W)
      → SameLegs w (grade_one c g bet lines false w).1
  unfolding grade_one SameLegs
  grade_one-SameLegs bet lines w =
      bind-SameLegs (score_grade g bet lines) (λ graded. commit_grade c bet graded.0 graded.1 false)
        w (λ graded. commit_grade-SameLegs bet graded.0 graded.1 false w)

  score_bets-raises :
      (before : List (PaperBetRecord W)) (bad : PaperBetRecord W) (after : List (PaperBetRecord W))
      (w : World W)
      → ¬ (CanGrade bad)
      → (¬ (IsOk (grade_score_bets c g (before ++ bad ∷ after) w).0))
        × SameLegs w (grade_score_bets c g (before ++ bad ∷ after) w).1
  unfolding grade_score_bets SameLegs
  score_bets-raises [] bad after w h =
      rw (grade_one-raises bad (fetch_closing c bad.game_external_id) w h) (λ x. x, refl)
  score_bets-raises (bet ∷ before) bad after w h =
      let lines = fetch_closing c bet.game_external_id in
      later (score_bets-raises before bad after (grade_one c g bet lines false w).1 h)
    where
      one : Result Bool × World W
      one = grade_one c g bet (fetch_closing c bet.game_external_id) false w

      tail : Result ℕ × World W
      tail = grade_score_bets c g (before ++ bad ∷ after) one.1

      sum : Bool → ℕ → Action W ℕ
      sum applied rest = pure (one_if applied + rest)

      others : Bool → Action W ℕ
      others applied = grade_score_bets c g (before ++ bad ∷ after) >>= sum applied

      later :
          (¬ (IsOk tail.0)) × SameLegs one.1 tail.1
          → (¬ (IsOk (bind_result one.0 others one.1).0))
            × SameLegs w (bind_result one.0 others one.1).1
      later (stops, same) =
          let next = λ (applied : Bool). raises-first tail.0 (sum applied) tail.1 stops in
          (
            raises-then one.0 others one.1 (λ applied. (next applied).0),
            bind-SameLegs one.0 others one.1 (λ applied. (next applied).1 ∙ same)
                ∙ grade_one-SameLegs bet (fetch_closing c bet.game_external_id) w,
          )

  all-raises :
      (game_id : ℕ) (bets : List (PaperBetRecord W)) (legs : List (ParlayLegRecord W))
      (before : List (PaperBetRecord W)) (bad : PaperBetRecord W) (after : List (PaperBetRecord W))
      (w : World W)
      → filter (λ bet. not (is_prop_bet bet)) bets ≡ before ++ bad ∷ after
      → ¬ (CanGrade bad)
      → (¬ (IsOk (grade_all c game_id g bets legs w).0))
        × SameLegs w (grade_all c game_id g bets legs w).1
  unfolding SameLegs
  all-raises game_id bets legs before bad after w e h =
      let (stops, same) = score_bets-raises before bad after w h in
      let first = grade_score_bets c g (before ++ bad ∷ after) w in
      let (stops', same') =
        raises-first first.0 (grade_others c g (game_box c game_id bets legs) bets legs) first.1
          stops in
      rw e (stops', same' ∙ same)

  open-raises :
      (game_id : ℕ) (bets : List (PaperBetRecord W)) (legs : List (ParlayLegRecord W))
      (before : List (PaperBetRecord W)) (bad : PaperBetRecord W) (after : List (PaperBetRecord W))
      (w : World W)
      → filter (λ bet. not (is_prop_bet bet)) bets ≡ before ++ bad ∷ after
      → ¬ (CanGrade bad)
      → (¬ (IsOk (grade_open c game_id g bets legs w).0))
        × SameLegs w (grade_open c game_id g bets legs w).1
  unfolding grade_open
  open-raises game_id [] legs [] bad after w e h = cc
  open-raises game_id [] legs (b ∷ bs) bad after w e h = cc
  open-raises game_id (b ∷ bs) legs before bad after w e h =
      all-raises game_id (b ∷ bs) legs before bad after w e h

  -- If a bet that is open on the game has a score market and grade_bet rejects it, grade_game raises
  -- an exception, and every parlay leg stays as it was.
  pub grade_game_aborts :
      (game_id : ℕ) (before : List (PaperBetRecord W)) (bad : PaperBetRecord W)
      (after : List (PaperBetRecord W)) (w : World W)
      → filter (λ bet. not (is_prop_bet bet)) (open_bets_for_game game_id w.db)
        ≡ before ++ bad ∷ after
      → ¬ (CanGrade bad)
      → (¬ (IsOk (grade_game c game_id g w).0))
        × ((grade_game c game_id g w).1.db.parlay_legs ≡ w.db.parlay_legs)
  unfolding grade_game SameLegs
  grade_game_aborts game_id before bad after w e h =
      open-raises game_id (open_bets_for_game game_id w.db) (open_parlay_legs_for_game game_id w.db)
        before bad after w e h
