-- ===== src/Services/Bets/Remaps.antt =====
-- Calls that change nothing but the map of games in redis, and calls of which this holds if they raise.
use mathlib.Core.Path.{subst}
use bookie_breaker_bookie_em.Base.{
  ℕ, suc, false, ◌≡◌, refl, sym, ap, ◌∙◌, Option, List, [], ◌∷◌, String, is_blank, Bool-cases, inl,
  inr,
}
use bookie_breaker_bookie_em.Float.{Float}
use bookie_breaker_bookie_em.Clients.{Game}
use bookie_breaker_bookie_em.Clients.Reconcile.{Cache}
use bookie_breaker_bookie_em.Core.Errors.{Error, Result, ok, err}
use bookie_breaker_bookie_em.Services.Action.{World, Action, bind_result, lift, pure, ◌>>=◌}
use bookie_breaker_bookie_em.Services.Grader.Manual.{found_or_unprocessable}
use bookie_breaker_bookie_em.Services.Bets.Odds.{Desk, capture_odds}
use bookie_breaker_bookie_em.Services.Bets.Legs.{ParlayLegRequest}
use bookie_breaker_bookie_em.Services.Bets.Price.{
  PlaceBetRequest, given_or_resolved, reconcile, to_open, matched, selection_of, price,
}
use bookie_breaker_bookie_em.Services.Bets.Ticket.{leg_selection}
use bookie_breaker_bookie_em.Services.Bets.LegPrices.{leg_open, price_leg, price_legs}

-- The database, the events, the ids and the time are the same.
pub record Remaps {W : Type 0} (w w' : World W) : Type 0 where
  pub game_map : Cache
  pub same : w' ≡ record w { game_map = game_map }

module _ {W : Type 0} where
  pub unmoved : (w : World W) → Remaps w w
  unmoved w = record { game_map = w.game_map; same = refl }

  pub db-Remaps : {w w' : World W} → Remaps w w' → w'.db ≡ w.db
  db-Remaps r = ap (λ u. u.db) r.same

  remapped : (m : Cache) → World W → World W
  remapped m w = record w { game_map = m }

  pub Remaps-trans : {u v w : World W} → Remaps u v → Remaps v w → Remaps u w
  unfolding remapped
  Remaps-trans r s = record {
    game_map = s.game_map;
    same = s.same ∙ ap (remapped s.game_map) r.same;
  }

  abbrev pub Maps : {A : Type 0} → Action W A → Type 0
  Maps call = (w : World W) → Remaps w (call w).1

  abbrev pub RaisesClean : {A : Type 0} → Action W A → Type 0
  RaisesClean call = (e : Error) (w w' : World W) → call w ≡ (err e, w') → Remaps w w'

  pub lift-Maps : {A : Type 0} (r : Result A) → Maps (lift r)
  lift-Maps r w = unmoved w

  module _ {A B : Type 0} (call : Action W A) (k : A → Action W B) where
    pub >>=-Maps : Maps call → ((a : A) → Maps (k a)) → Maps (call >>= k)
    >>=-Maps maps rest w = after (call w) (maps w)
      where
        after : (p : Result A × World W) → Remaps w p.1 → Remaps w (bind_result p.0 k p.1).1
        after (ok a, u) h = Remaps-trans h (rest a u)
        after (err e, u) h = h

    pub >>=-RaisesClean : Maps call → ((a : A) → RaisesClean (k a)) → RaisesClean (call >>= k)
    >>=-RaisesClean maps rest e w w' h = after (call w) (maps w) h
      where
        after :
            (p : Result A × World W)
            → Remaps w p.1
            → bind_result p.0 k p.1 ≡ (err e, w')
            → Remaps w w'
        after (ok a, u) r raised = Remaps-trans r (rest a e u w' raised)
        after (err x, u) r raised = subst (λ v. Remaps w v) (ap (λ p. p.1) raised) r

  pub lift-RaisesClean : {A : Type 0} (r : Result A) → RaisesClean (lift r)
  lift-RaisesClean r e w w' h = record { game_map = w.game_map; same = sym (ap (λ p. p.1) h) }

  module _ {A B : Type 0} (r : Result A) (k : A → Action W B) where
    pub after_lift-Maps : ((a : A) → Maps (k a)) → Maps (lift r >>= k)
    after_lift-Maps = >>=-Maps (lift r) k (lift-Maps r)

    pub after_lift-RaisesClean : ((a : A) → RaisesClean (k a)) → RaisesClean (lift r >>= k)
    after_lift-RaisesClean = >>=-RaisesClean (lift r) k (lift-Maps r)

  pub given_or_resolved-Maps :
      (c : Desk W) (game : Game) (given : Option String) → Maps (given_or_resolved c game given)
  unfolding given_or_resolved reconcile
  given_or_resolved-Maps c game given w = elim (Bool-cases (is_blank given)) [
    | inl blank ↦ rw blank (record { game_map = (reconcile c game w).1.game_map; same = refl })
    | inr full ↦ rw full (unmoved w)
  ]

  pub price_leg-Maps :
      (c : Desk W) (index : ℕ) (leg : ParlayLegRequest) → Maps (price_leg c index leg)
  unfolding price_leg
  price_leg-Maps c index leg =
      after_lift-Maps (found_or_unprocessable (c.get_game leg.game_id)) _ (λ game.
        after_lift-Maps (leg_open c game) _ (λ _.
          >>=-Maps (given_or_resolved c game leg.game_external_id) _
            (given_or_resolved-Maps c game leg.game_external_id)
            (λ resolved. after_lift-Maps (matched resolved) _ (λ external_id.
              after_lift-Maps (capture_odds c (leg_selection leg) external_id false) _
                (λ odds. unmoved)))))

  pub price_legs-Maps :
      (c : Desk W) (index : ℕ) (legs : List ParlayLegRequest) → Maps (price_legs c index legs)
  unfolding price_legs
  price_legs-Maps c index [] w = unmoved w
  price_legs-Maps c index (leg ∷ legs) w =
      >>=-Maps (price_leg c index leg) (λ p. price_legs c (suc index) legs >>= λ ps. pure (p ∷ ps))
        (price_leg-Maps c index leg)
        (λ p.
          >>=-Maps (price_legs c (suc index) legs) (λ ps. pure (p ∷ ps))
            (price_legs-Maps c (suc index) legs) (λ ps. unmoved))
        w

module _ {W : Type 0} ⦃f : Float W⦄ where
  pub price-Maps :
      (c : Desk W) (request : PlaceBetRequest W) (key : String) → Maps (price c request key)
  unfolding price
  price-Maps c request key =
      after_lift-Maps (found_or_unprocessable (c.get_game request.game_id)) _ (λ game.
        after_lift-Maps (to_open c request game) _ (λ _.
          >>=-Maps (given_or_resolved c game request.game_external_id) _
            (given_or_resolved-Maps c game request.game_external_id)
            (λ resolved. after_lift-Maps (matched resolved) _ (λ external_id.
              after_lift-Maps (capture_odds c (selection_of request) external_id request.is_live) _
                (λ odds. unmoved)))))
