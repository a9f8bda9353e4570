-- ===== src/Services/Bets/Committed.antt =====
-- What a parlay placement that returns has checked, and what one that raises leaves.
use bookie_breaker_bookie_em.Base.{
  ℕ, ◌+◌, ◌≡◌, refl, sym, false, List, String, map, arith, if◌then◌else◌,
}
use bookie_breaker_bookie_em.Float.{Float, zero_f}
use bookie_breaker_bookie_em.Core.Errors.{Error, Result, ok, err, unprocessable}
use bookie_breaker_bookie_em.Db.Numeric.{Numeric}
use bookie_breaker_bookie_em.Db.Rows.{Database}
use bookie_breaker_bookie_em.Db.Values.{BetValues}
use bookie_breaker_bookie_em.Db.Repository.Inserts.{insert_parlay}
use bookie_breaker_bookie_em.Db.Repository.Consistent.{IsConsistent}
use bookie_breaker_bookie_em.Db.Repository.Consistent.Placed.{insert_parlay-IsConsistent}
use bookie_breaker_bookie_em.Services.Action.{World, Action, lift, ◌>>=◌}
use bookie_breaker_bookie_em.Services.Grader.Cleared.{bind-eq-ok, pair_of}
use bookie_breaker_bookie_em.Clients.Reconcile.{Cache}
use mathlib.Core.Path.{subst}
use bookie_breaker_bookie_em.Services.Bets.Remaps.{
  Remaps, unmoved, db-Remaps, RaisesClean, lift-RaisesClean, >>=-RaisesClean,
  after_lift-RaisesClean, price_legs-Maps,
}
use bookie_breaker_bookie_em.Services.Bets.Odds.{Desk}
use bookie_breaker_bookie_em.Services.Bets.Legs.{validate_parlay_legs}
use bookie_breaker_bookie_em.Services.Bets.Place.{available_units, check_bankroll}
use bookie_breaker_bookie_em.Services.Bets.LegPrices.{price_legs}
use bookie_breaker_bookie_em.Services.Bets.Ticket.{PlaceParlayRequest, PricedLeg, parent_of_legs}
use bookie_breaker_bookie_em.Services.Bets.Parlay.{
  Placed, committed_legs, repo_insert_parlay, insert_ticket, place_ticket, place_parlay,
}

module _ {W : Type 0} where
  committed_legs-eq-ok :
      {A : Type 0} (legs : ℕ) (r : Result (A × Database)) (w w' : World W) (result : A)
      → committed_legs legs r w ≡ (ok result, w')
      → r ≡ ok (result, w'.db)
  committed_legs-eq-ok legs (ok (a, db)) w w' result h = ground arith
  committed_legs-eq-ok legs (err e) w w' result h = cc

  committed_legs-RaisesClean :
      {A : Type 0} (legs : ℕ) (r : World W → Result (A × Database))
      → RaisesClean (λ w. committed_legs legs (r w) w)
  committed_legs-RaisesClean {A = A} legs r e w w' h = of_result (r w) h
    where
      of_result : (x : Result (A × Database)) → committed_legs legs x w ≡ (err e, w') → Remaps w w'
      of_result (ok a) k = cc
      of_result (err raised) k = lift-RaisesClean {A = A} (err raised) e w w' k

module _ {W : Type 0} ⦃f : Float W⦄ ⦃n : Numeric W⦄ (c : Desk W) (request : PlaceParlayRequest W)
    (key : String) where
  low : Result (Unit {0})
  low = if f.le request.stake zero_f then err unprocessable else ok tt

  short : World W → Result (Unit {0})
  short w =
      if f.lt (available_units c.starting_bankroll_units w.db) request.stake
      then err unprocessable
      else ok tt

  priced : Action W (Placed W)
  priced = price_legs c 0 request.legs >>= place_ticket c request key

  validated : Action W (Placed W)
  validated = lift (validate_parlay_legs request.legs) >>= λ _. priced

  inserted : List (PricedLeg W) → BetValues W → Action W (Placed W)
  inserted legs values = repo_insert_parlay values (map (λ p. p.values) legs)

  -- A parlay placement that returns, a replay included, had a stake that is not below or at zero and
  -- not above the bankroll less the open stakes, valid legs, and a price for each leg; the database
  -- is what insert_parlay made of the parent and the legs. Pricing the legs has written nothing but
  -- the reconciler's map of games in redis.
  pub place_parlay_funded :
      (w w' : World W) (result : Placed W)
      → place_parlay c request key w ≡ (ok result, w')
      → (f.le request.stake zero_f ≡ false)
        × (f.lt (available_units c.starting_bankroll_units w.db) request.stake ≡ false)
        × (validate_parlay_legs request.legs ≡ ok tt)
        × (legs : List (PricedLeg W)) × (values : BetValues W) × (m : Cache) × (price_legs c 0
              request.legs w
            ≡ (ok legs, record w { game_map = m }))
        × (parent_of_legs c request key legs ≡ ok values)
        × (insert_parlay w.next_id (w.next_id + 1) w.clock values (map (λ p. p.values) legs) w.db
            ≡ ok (result, w'.db))
  unfolding place_parlay low short priced validated inserted
  place_parlay_funded w w' result h =
      let (_, low_eq, checking) = bind-eq-ok low (λ _. validated) w w' result h in
      let (_, valid, pricing) =
        bind-eq-ok (validate_parlay_legs request.legs) (λ _. priced) w w' result checking in
      let r = price_legs-Maps c 0 request.legs w in
      let u : World W = record w { game_map = r.game_map } in
      let (legs, legs_eq, moved) =
        bind-eq-ok (price_legs c 0 request.legs w).0 (place_ticket c request key)
          (price_legs c 0 request.legs w).1 w' result pricing in
      let placing : place_ticket c request key legs u ≡ (ok result, w') =
        subst (λ v. place_ticket c request key legs v ≡ (ok result, w')) r.same moved in
      let (_, short_eq, inserting) =
        bind-eq-ok (short u) (λ _. insert_ticket c request key legs) u w' result placing in
      let (values, values_eq, done) =
        bind-eq-ok (parent_of_legs c request key legs) (inserted legs) u w' result inserting in
      (
        ground arith,
        ground arith,
        valid,
        legs,
        values,
        r.game_map,
        pair_of (price_legs c 0 request.legs w) legs_eq r.same,
        values_eq,
        committed_legs-eq-ok _ _ u w' result done,
      )

  -- A parlay placement that raises, whatever the exception, leaves everything but the reconciler's
  -- map of games in redis as it was: neither the parent nor any leg is stored.
  pub place_parlay_raises :
      (e : Error) (w w' : World W) → place_parlay c request key w ≡ (err e, w') → Remaps w w'
  unfolding place_parlay low priced validated inserted
  place_parlay_raises =
      after_lift-RaisesClean low (λ _. validated)
        (λ _.
          after_lift-RaisesClean (validate_parlay_legs request.legs) (λ _. priced)
            (λ _.
              >>=-RaisesClean (price_legs c 0 request.legs) (place_ticket c request key)
                (price_legs-Maps c 0 request.legs)
                (λ legs.
                  >>=-RaisesClean (check_bankroll c request.stake)
                    (λ _. insert_ticket c request key legs) unmoved
                    (λ _.
                      after_lift-RaisesClean (parent_of_legs c request key legs) (inserted legs)
                        (λ values. committed_legs-RaisesClean _ (λ w.
                          insert_parlay w.next_id (w.next_id + 1) w.clock values
                            (map (λ p. p.values) legs) w.db))))))

  -- A parlay placement, returned or raised, keeps the database consistent.
  pub place_parlay-IsConsistent :
      (w : World W) → IsConsistent w.db → IsConsistent (place_parlay c request key w).1.db
  place_parlay-IsConsistent w before = cases (place_parlay c request key w) refl
    where
      cases :
          (p : Result (Placed W) × World W) → place_parlay c request key w ≡ p → IsConsistent p.1.db
      cases (ok result, w') h =
          let (_, _, _, legs, values, _, _, _, inserted_eq) = place_parlay_funded w w' result h in
          insert_parlay-IsConsistent w.next_id (w.next_id + 1) w.clock values
            (map (λ p. p.values) legs) w.db w'.db result before inserted_eq
      cases (err e, w') h =
          subst IsConsistent (sym (db-Remaps (place_parlay_raises e w w' h))) before
