-- ===== src/Services/Bets/Funded.antt =====
-- What a placement that returns has checked, and what one that raises leaves.
use mathlib.Core.Path.{subst}
use bookie_breaker_bookie_em.Base.{
  ◌≡◌, refl, sym, ap, ◌∙◌, Bool, false, Option, String, arith, Bool-cases, inl, inr,
}
use bookie_breaker_bookie_em.Float.{Float, zero_f}
use bookie_breaker_bookie_em.Clients.{Game}
use bookie_breaker_bookie_em.Core.Errors.{Result, ok, err, unprocessable, ok-injective}
use bookie_breaker_bookie_em.Db.Numeric.{Numeric}
use bookie_breaker_bookie_em.Db.Rows.{Database, PaperBetRecord}
use bookie_breaker_bookie_em.Db.Values.{BetValues}
use bookie_breaker_bookie_em.Db.Repository.Inserts.{insert_idempotent}
use bookie_breaker_bookie_em.Db.Repository.Consistent.{IsConsistent}
use bookie_breaker_bookie_em.Db.Repository.Consistent.Placed.{insert_idempotent-IsConsistent}
use bookie_breaker_bookie_em.Services.Action.{
  committed, World, Action, pure, lift, raise_if, ◌>>=◌, ◌>>◌,
}
use bookie_breaker_bookie_em.Services.Grader.Cleared.{bind-eq-ok, pair_of, committed-eq-ok}
use bookie_breaker_bookie_em.Services.Grader.Manual.{found_or_unprocessable}
use bookie_breaker_bookie_em.Services.Bets.Odds.{Desk, Quote, capture_odds}
use bookie_breaker_bookie_em.Services.Bets.Price.{
  PlaceBetRequest, price, placed_values, selection_of, to_open, given_or_resolved, matched,
}
use bookie_breaker_bookie_em.Services.Bets.Place.{
  available_units, check_bankroll, place_at, repo_insert, place_bet,
}
use bookie_breaker_bookie_em.Services.Bets.Remaps.{
  Remaps, unmoved, db-Remaps, RaisesClean, lift-RaisesClean, >>=-RaisesClean, price-Maps,
}
use bookie_breaker_bookie_em.Services.Bets.Games.{
  TakesBets, takes_bets, IsIdOf, id_of, found_ok, matched_ok,
}

module _ {W : Type 0} ⦃f : Float W⦄ ⦃n : Numeric W⦄ (c : Desk W) (request : PlaceBetRequest W)
    (key : String) where
  -- The values that a placement has been priced with: the request's game takes bets, the id is the
  -- request's or the reconciler's, and capture_odds found the odds.
  abbrev pub IsPriced : World W → BetValues W → Type 0
  IsPriced w values =
      (game : Game) × (external_id : String) × (odds : Quote W) × (c.get_game request.game_id
        ≡ ok game)
      × TakesBets request.is_live c.utc_now game.status (c.parse_start game.scheduled_start)
      × IsIdOf c game request.game_external_id w external_id
      × (capture_odds c (selection_of request) external_id request.is_live ≡ ok odds)
      × (values ≡ placed_values c request key game external_id odds)

  price-IsPriced :
      (values : BetValues W) (w w' : World W)
      → price c request key w ≡ (ok values, w')
      → IsPriced w values
  unfolding price
  price-IsPriced values w w' h =
      let (game, found, opening) =
        bind-eq-ok (found_or_unprocessable (c.get_game request.game_id)) from_game w w' values h in
      let (_, opened_eq, resolving) =
        bind-eq-ok (to_open c request game) (λ _. with_game game) w w' values opening in
      let (resolved, resolved_eq, matching) =
        bind-eq-ok (given_or_resolved c game request.game_external_id w).0 (with_resolved game)
          (given_or_resolved c game request.game_external_id w).1 w' values resolving in
      let u = (given_or_resolved c game request.game_external_id w).1 in
      let (external_id, id_eq, capturing) =
        bind-eq-ok (matched resolved) (with_id game) u w' values matching in
      let (odds, odds_eq, done) =
        bind-eq-ok (capture_odds c (selection_of request) external_id request.is_live)
          (with_odds game external_id) u w' values capturing in
      (
        game,
        external_id,
        odds,
        found_ok (c.get_game request.game_id) game found,
        takes_bets request.is_live c.utc_now game.status (c.parse_start game.scheduled_start)
            (ground (arith, opened_eq)),
        id_of c game request.game_external_id w external_id
            (resolved_eq ∙ ap ok (matched_ok resolved external_id id_eq)),
        odds_eq,
        sym (ok-injective (ap (λ p. p.0) done)),
      )
    where
      with_odds : Game → String → Quote W → Action W (BetValues W)
      with_odds game external_id odds = pure (placed_values c request key game external_id odds)

      with_id : Game → String → Action W (BetValues W)
      with_id game external_id =
          lift (capture_odds c (selection_of request) external_id request.is_live)
          >>= with_odds game external_id

      with_resolved : Game → Option String → Action W (BetValues W)
      with_resolved game resolved = lift (matched resolved) >>= with_id game

      with_game : Game → Action W (BetValues W)
      with_game game = given_or_resolved c game request.game_external_id >>= with_resolved game

      from_game : Game → Action W (BetValues W)
      from_game game = lift (to_open c request game) >> with_game game

  stake-IsPriced :
      (w : World W) (values : BetValues W) → IsPriced w values → values.stake ≡ request.stake
  unfolding placed_values
  stake-IsPriced w values (_, _, _, _, _, _, _, e) = ap (λ v. v.stake) e

  place_at-eq-ok :
      (values : BetValues W) (w w' : World W) (result : PaperBetRecord W × Bool)
      → place_at c values w ≡ (ok result, w')
      → (f.lt (available_units c.starting_bankroll_units w.db) values.stake ≡ false)
        × (insert_idempotent w.next_id w.clock values w.db ≡ ok (result, w'.db))
  place_at-eq-ok values w w' result h =
      elim (Bool-cases (f.lt (available_units c.starting_bankroll_units w.db) values.stake)) [
        | inl short ↦ cc (rw short at h)
        | inr enough ↦
            let ran : repo_insert values w ≡ (ok result, w') = rw enough at h in
            (
              enough,
              rw (← ap (λ p. p.1.db) ran) (
                  committed-eq-ok (insert_idempotent w.next_id w.clock values w.db) w result
                    (ap (λ p. p.0) ran)),
            )
      ]

  -- A placement that returns, a replay included, had a stake that is not below or at zero and not
  -- above the bankroll less the open stakes. Its game is the one that statistics-service gave for
  -- the request's id, and takes bets: for a live bet it is SCHEDULED or IN_PROGRESS, else SCHEDULED
  -- with no known start that has passed. The id of its lines is the request's, or else the
  -- reconciler's, the odds are what capture_odds found for it, and the database is what
  -- insert_idempotent made of these values.
  pub place_bet_funded :
      (w w' : World W) (result : PaperBetRecord W × Bool)
      → place_bet c request key w ≡ (ok result, w')
      → (f.le request.stake zero_f ≡ false)
        × (f.lt (available_units c.starting_bankroll_units w.db) request.stake ≡ false)
        × (values : BetValues W) × IsPriced w values
        × (insert_idempotent w.next_id w.clock values w.db ≡ ok (result, w'.db))
  unfolding place_bet
  place_bet_funded w w' result h = elim (Bool-cases (f.le request.stake zero_f)) [
    | inl low ↦ cc (rw low at h)
    | inr positive ↦
        let r = price-Maps c request key w in
        let (values, values_eq, placing) =
          bind-eq-ok (price c request key w).0 (place_at c) (price c request key w).1 w' result
            (rw positive at h) in
        let u : World W = record w { game_map = r.game_map } in
        let priced = price-IsPriced values w u (pair_of (price c request key w) values_eq r.same) in
        let (enough, inserted) =
          place_at-eq-ok values u w' result
            (subst (λ v. place_at c values v ≡ (ok result, w')) r.same placing) in
        (positive, rw (stake-IsPriced w values priced) at enough, values, priced, inserted)
  ]

  committed-RaisesClean :
      {A : Type 0} (r : World W → Result (A × Database)) → RaisesClean (λ w. committed (r w) w)
  committed-RaisesClean {A = A} r e w w' h = of_result (r w) h
    where
      of_result : (x : Result (A × Database)) → committed x w ≡ (err e, w') → Remaps w w'
      of_result (ok a) k = cc
      of_result (err raised) k = lift-RaisesClean {A = A} (err raised) e w w' k

  place_at-RaisesClean : (values : BetValues W) → RaisesClean (place_at c values)
  place_at-RaisesClean values =
      >>=-RaisesClean (check_bankroll c values.stake) (λ _. repo_insert values) unmoved
        (λ _. committed-RaisesClean (λ w. insert_idempotent w.next_id w.clock values w.db))

  -- A placement that raises, whatever the exception, leaves everything but the reconciler's map of
  -- games in redis as it was.
  pub place_bet_raises : RaisesClean (place_bet c request key)
  unfolding place_bet
  place_bet_raises =
      >>=-RaisesClean (raise_if (f.le request.stake zero_f) unprocessable) _ unmoved (λ _.
        >>=-RaisesClean (price c request key) (place_at c) (price-Maps c request key)
          place_at-RaisesClean)

  -- A placement, returned or raised, keeps the database consistent.
  pub place_bet-IsConsistent :
      (w : World W) → IsConsistent w.db → IsConsistent (place_bet c request key w).1.db
  place_bet-IsConsistent w before = cases (place_bet c request key w) refl
    where
      cases :
          (p : Result (PaperBetRecord W × Bool) × World W)
          → place_bet c request key w ≡ p
          → IsConsistent p.1.db
      cases (ok result, w') h =
          let (_, _, values, _, inserted) = place_bet_funded w w' result h in
          insert_idempotent-IsConsistent w.next_id w.clock values w.db w'.db result before inserted
      cases (err e, w') h = subst IsConsistent (sym (db-Remaps (place_bet_raises e w w' h))) before
