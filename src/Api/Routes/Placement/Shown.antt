-- ===== src/Api/Routes/Placement/Shown.antt =====
-- What a placement answers, and that the bet can be read back.
use bookie_breaker_bookie_em.Base.{
  ℕ, ◌≡◌, refl, sym, ap, ◌∙◌, Bool, true, false, none, some, String, arith,
}
use bookie_breaker_bookie_em.Float.{Float}
use bookie_breaker_bookie_em.Core.Errors.{Error, Result, ok, err, ok-injective}
use bookie_breaker_bookie_em.Db.Numeric.{Numeric}
use bookie_breaker_bookie_em.Db.Rows.{PaperBetRecord}
use bookie_breaker_bookie_em.Db.Repository.Queries.{get_with_grade}
use bookie_breaker_bookie_em.Db.Repository.Consistent.{IsConsistent}
use bookie_breaker_bookie_em.Db.Repository.Consistent.Created.{insert_idempotent-get}
use bookie_breaker_bookie_em.Services.Action.{World, bind_result, ◌>>=◌}
use bookie_breaker_bookie_em.Services.Grader.Cleared.{bind-eq-ok, pair_of}
use bookie_breaker_bookie_em.Services.Bets.Odds.{Desk}
use bookie_breaker_bookie_em.Services.Bets.Price.{PlaceBetRequest}
use bookie_breaker_bookie_em.Services.Bets.Place.{place_bet}
use bookie_breaker_bookie_em.Services.Bets.Funded.{place_bet_funded, place_bet_raises}
use mathlib.Core.Path.{subst}
use bookie_breaker_bookie_em.Services.Bets.Remaps.{Remaps, after_lift-RaisesClean}
use bookie_breaker_bookie_em.Api.Schemas.Bets.{BetData, BetDetailData, bet_to_data, bet_to_detail}
use bookie_breaker_bookie_em.Api.Schemas.Requests.{valid_bet}
use bookie_breaker_bookie_em.Api.Routes.Bets.{detail_or_raise, get_bet}
use bookie_breaker_bookie_em.Api.Routes.Placement.{status_code, bet_response, post_bet}

module _ {W : Type 0} where
  -- a bet as its detail shows it before it is graded
  abbrev pub undecided : BetData W → BetDetailData W
  undecided shown = record {
    base = shown;
    closing_line_value = none;
    closing_odds_american = none;
    grade = none;
  }

absurd_ok {ℓ} :
    {A : Type ℓ} {B : Type 0} {b : B} {e : Error} → ◌≡◌ {A = Result B} (ok b) (err e) → A
absurd_ok h = cc

module _ {W : Type 0} ⦃f : Float W⦄ ⦃n : Numeric W⦄ (c : Desk W) (u : W)
    (request : PlaceBetRequest W) (key : String) where
  -- An answer of POST /bets comes from a placement of a valid request.
  post_bet-eq-ok :
      (code : ℕ) (shown : BetData W) (w w' : World W)
      → post_bet c u request key w ≡ (ok (code, shown), w')
      → (bet : PaperBetRecord W) × (created : Bool) × (valid_bet request ≡ ok tt)
        × (place_bet c request key w ≡ (ok (bet, created), w'))
        × (code ≡ status_code created)
        × (shown ≡ bet_to_data bet none u)
  unfolding post_bet
  post_bet-eq-ok code shown w w' h =
      let (_, valid, placing) =
        bind-eq-ok (valid_bet request) (λ _. place_bet c request key >>= bet_response u) w w'
          (code, shown) h in
      let ((bet, created), placed, answered) =
        bind-eq-ok (place_bet c request key w).0 (bet_response u) (place_bet c request key w).1 w'
          (code, shown) placing in
      (
        bet,
        created,
        valid,
        pair_of (place_bet c request key w) placed (ap (λ p. p.1) answered),
        ok_code (ap (λ p. p.0) answered),
        ok_shown (ap (λ p. p.0) answered),
      )
    where
      ok_code :
          {a b : ℕ} {x y : BetData W}
          → ◌≡◌ {A = Result (ℕ × BetData W)} (ok (a, x)) (ok (b, y))
          → b ≡ a
      ok_code e = sym (ap (λ p. p.0) (ok-injective e))

      ok_shown :
          {a b : ℕ} {x y : BetData W}
          → ◌≡◌ {A = Result (ℕ × BetData W)} (ok (a, x)) (ok (b, y))
          → y ≡ x
      ok_shown e = sym (ap (λ p. p.1) (ok-injective e))

  detail_of_new :
      (bet : PaperBetRecord W) (shown : BetData W)
      → shown ≡ bet_to_data bet none u
      → bet_to_detail bet none u ≡ undecided shown
  unfolding bet_to_detail
  detail_of_new bet shown e = ap undecided (sym e)

  id_of_shown :
      (bet : PaperBetRecord W) (shown : BetData W)
      → shown ≡ bet_to_data bet none u
      → bet.id ≡ shown.id
  unfolding bet_to_data
  id_of_shown bet shown e = sym (ap (λ d. d.id) e)

  read_new :
      (bet : PaperBetRecord W) (shown : BetData W) (w : World W)
      → shown ≡ bet_to_data bet none u
      → get_with_grade bet.id w.db ≡ some (bet, none)
      → get_bet u w.db shown.id ≡ ok (undecided shown)
  unfolding get_bet
  read_new bet shown w e stored =
      ap (λ i. detail_or_raise u (get_with_grade i w.db)) (sym (id_of_shown bet shown e))
      ∙ ap (detail_or_raise u) stored
      ∙ ap ok (detail_of_new bet shown e)

  created_of_code : (created : Bool) → 201 ≡ status_code created → created ≡ true
  created_of_code true h = refl
  created_of_code false h = absurd (omega arith)

  -- When POST /bets answers 201 on a consistent database, GET /bets/{id} with the id of the answer
  -- finds the bet, and shows the same data, with no closing line, no closing odds and no grade.
  pub post_bet-get_bet :
      (shown : BetData W) (w w' : World W)
      → IsConsistent w.db
      → post_bet c u request key w ≡ (ok (201, shown), w')
      → get_bet u w'.db shown.id ≡ ok (undecided shown)
  post_bet-get_bet shown w w' h e =
      let (bet, created, valid, placed, code, data_eq) = post_bet-eq-ok 201 shown w w' e in
      let new : created ≡ true = created_of_code created code in
      let (_, _, values, _, inserted) = place_bet_funded c request key w w' (bet, created) placed in
      read_new bet shown w' data_eq (
        insert_idempotent-get w.next_id w.clock values w.db w'.db bet h
          (inserted ∙ ap (λ b. ok ((bet, b), w'.db)) new))

  -- An exception from POST /bets, the refusal of the request included, leaves the database, the
  -- events, the ids and the time as they were; the reconciler's map of games in redis may have been
  -- written before.
  pub post_bet_raises :
      (e : Error) (w w' : World W) → post_bet c u request key w ≡ (err e, w') → Remaps w w'
  unfolding post_bet
  post_bet_raises =
      after_lift-RaisesClean (valid_bet request) (λ _. place_bet c request key >>= bet_response u)
        (λ _ e w w' h. answered e w w' (place_bet c request key w) refl h)
    where
      answered :
          (e : Error) (w w' : World W) (p : Result (PaperBetRecord W × Bool) × World W)
          → place_bet c request key w ≡ p
          → bind_result p.0 (bet_response u) p.1 ≡ (err e, w')
          → Remaps w w'
      answered e w w' (ok (bet, created), w'') placed k = absurd_ok (ap (λ r. r.0) k)
      answered e w w' (err raised, w'') placed k =
          subst (λ v. Remaps w v) (ap (λ r. r.1) k)
            (place_bet_raises c request key raised w w'' placed)
