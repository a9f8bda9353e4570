-- ===== src/Services/Bets/Scheduled.antt =====
-- The start of a placed parlay: the loop of place_parlay over the legs, its `min(starts)`, and the
-- row of insert_parlay.
use mathlib.Core.Option.{some-injective}
use bookie_breaker_bookie_em.Base.{
  ℕ, suc, ◌+◌, ◌≡◌, refl, sym, ap, ◌∙◌, inl, inr, false, true, Option, none, some, List, [], ◌∷◌,
  String, map, arith,
}
use bookie_breaker_bookie_em.Float.{Float}
use bookie_breaker_bookie_em.Clients.{Game}
use bookie_breaker_bookie_em.Core.Errors.{ok, >>=-eq-ok, ok-injective}
use bookie_breaker_bookie_em.Core.Odds.{decimal_to_american}
use bookie_breaker_bookie_em.Core.Parlay.{combined_decimal}
use bookie_breaker_bookie_em.Db.Numeric.{Numeric}
use bookie_breaker_bookie_em.Db.Rows.{
  BetRow, Database, PaperBetRecord, ParlayLegRecord, bet_from_row,
}
use bookie_breaker_bookie_em.Db.Values.{BetValues, LegValues}
use bookie_breaker_bookie_em.Db.Repository.Inserts.{
  bet_row, insert_bet, leg_rows, insert_legs, with_key, with_legs, one_row, insert_parlay,
}
use bookie_breaker_bookie_em.Db.Repository.Consistent.Inserted.{insert_bet_inv}
use bookie_breaker_bookie_em.Services.Action.{World, Action, pure, lift, ◌>>=◌, ◌>>◌}
use bookie_breaker_bookie_em.Services.Grader.Cleared.{bind-eq-ok}
use bookie_breaker_bookie_em.Services.Grader.Manual.{found_or_unprocessable}
use bookie_breaker_bookie_em.Services.Bets.Odds.{Desk, Quote, capture_odds}
use bookie_breaker_bookie_em.Services.Bets.Legs.{ParlayLegRequest}
use bookie_breaker_bookie_em.Services.Bets.Price.{given_or_resolved, matched}
use bookie_breaker_bookie_em.Services.Bets.LegPrices.{leg_open, price_leg, price_legs}
use bookie_breaker_bookie_em.Services.Bets.Ticket.{
  PlaceParlayRequest, PricedLeg, priced_leg, leg_selection, earliest, parent_of_legs,
}
use bookie_breaker_bookie_em.Services.Bets.Parlay.{place_parlay}
use bookie_breaker_bookie_em.Services.Bets.Games.{found_ok}
use bookie_breaker_bookie_em.Services.Bets.Committed.{place_parlay_funded}
use bookie_breaker_bookie_em.Services.Bets.Starts.{IsEarliest, earliest-IsEarliest}

both_eq : {A : Type 0} {x y : A} {xs ys : List A} → x ≡ y → xs ≡ ys → x ∷ xs ≡ y ∷ ys
both_eq e es = cc

module _ {W : Type 0} (c : Desk W) where
  abbrev pub start_of : Game → Option ℕ
  start_of game = c.parse_start game.scheduled_start

  -- A priced leg starts with the game that statistics-service gave for it.
  price_leg_start :
      (index : ℕ) (leg : ParlayLegRequest) (p : PricedLeg W) (w w' : World W)
      → price_leg c index leg w ≡ (ok p, w')
      → (game : Game) × (c.get_game leg.game_id ≡ ok game) × (p.start_at ≡ start_of game)
  unfolding price_leg priced_leg
  price_leg_start index leg p w w' h =
      let (game, found, opening) =
        bind-eq-ok (found_or_unprocessable (c.get_game leg.game_id)) from_game w w' p h in
      let (_, _, resolving) = bind-eq-ok (leg_open c game) (λ _. with_game game) w w' p opening in
      let (resolved, _, matching) =
        bind-eq-ok (given_or_resolved c game leg.game_external_id w).0 (with_resolved game)
          (given_or_resolved c game leg.game_external_id w).1 w' p resolving in
      let u = (given_or_resolved c game leg.game_external_id w).1 in
      let (external_id, _, capturing) =
        bind-eq-ok (matched resolved) (with_id game) u w' p matching in
      let (odds, _, done) =
        bind-eq-ok (capture_odds c (leg_selection leg) external_id false)
          (with_odds game external_id) u w' p capturing in
      (
        game,
        found_ok (c.get_game leg.game_id) game found,
        sym (ap (λ q. q.start_at) (ok-injective (ap (λ t. t.0) done))),
      )
    where
      with_odds : Game → String → Quote W → Action W (PricedLeg W)
      with_odds game external_id odds = pure (priced_leg c index leg game external_id odds)

      with_id : Game → String → Action W (PricedLeg W)
      with_id game external_id =
          lift (capture_odds c (leg_selection leg) external_id false) >>= with_odds game external_id

      with_resolved : Game → Option String → Action W (PricedLeg W)
      with_resolved game resolved = lift (matched resolved) >>= with_id game

      with_game : Game → Action W (PricedLeg W)
      with_game game = given_or_resolved c game leg.game_external_id >>= with_resolved game

      from_game : Game → Action W (PricedLeg W)
      from_game game = lift (leg_open c game) >> with_game game

  -- the games of the legs, and the starts that the loop has collected
  abbrev Collected : List ParlayLegRequest → List (PricedLeg W) → Type 0
  Collected legs ps =
      (games : List Game) × (map (λ (leg : ParlayLegRequest). c.get_game leg.game_id) legs
        ≡ map ok games)
      × (map (λ (p : PricedLeg W). p.start_at) ps ≡ map start_of games)

  price_legs_starts :
      (index : ℕ) (legs : List ParlayLegRequest) (ps : List (PricedLeg W)) (w w' : World W)
      → price_legs c index legs w ≡ (ok ps, w')
      → Collected legs ps
  unfolding price_legs
  price_legs_starts index [] ps w w' h =
      let none_priced : [] ≡ ps = ok-injective (ap (λ t. t.0) h) in
      ([], refl, rw (← none_priced) refl)
  price_legs_starts index (leg ∷ legs) ps w w' h =
      let (p, priced, others) =
        bind-eq-ok (price_leg c index leg w).0 after_leg (price_leg c index leg w).1 w' ps h in
      let u = (price_leg c index leg w).1 in
      let (qs, rest, done) =
        bind-eq-ok (price_legs c (suc index) legs u).0 (λ rs. pure (p ∷ rs))
          (price_legs c (suc index) legs u).1 w' ps others in
      let (game, found, start) = price_leg_start index leg p w u (ap (λ r. (r, u)) priced) in
      let (games, answers, starts) =
        price_legs_starts (suc index) legs qs u (price_legs c (suc index) legs u).1
          (ap (λ r. (r, (price_legs c (suc index) legs u).1)) rest) in
      let both : p ∷ qs ≡ ps = ok-injective (ap (λ t. t.0) done) in
      (
        game ∷ games,
        both_eq found answers,
        ap (map (λ (q : PricedLeg W). q.start_at)) (sym both) ∙ both_eq start starts,
      )
    where
      after_leg : PricedLeg W → Action W (List (PricedLeg W))
      after_leg p = price_legs c (suc index) legs >>= λ rs. pure (p ∷ rs)

module _ {W : Type 0} ⦃f : Float W⦄ where
  parent_of_legs_start :
      (c : Desk W) (request : PlaceParlayRequest W) (key : String) (ps : List (PricedLeg W))
      (v : BetValues W)
      → parent_of_legs c request key ps ≡ ok v
      → v.game_start_at ≡ earliest (map (λ (p : PricedLeg W). p.start_at) ps)
  unfolding parent_of_legs
  parent_of_legs_start c request key [] v h = cc
  parent_of_legs_start c request key (p ∷ ps) v h =
      let (product, _, k) =
        >>=-eq-ok (combined_decimal (map (λ (q : PricedLeg W). q.values.odds_decimal) (p ∷ ps))) _
          h in
      let (odds_american, _, last) = >>=-eq-ok (decimal_to_american (f.round_to 4 product)) _ k in
      sym (ap (λ u. u.game_start_at) (ok-injective last))

module _ {W : Type 0} ⦃n : Numeric W⦄ where
  bet_row_start :
      (id now : ℕ) (v : BetValues W) {row : BetRow}
      → bet_row id now v ≡ ok row
      → row.game_start_at ≡ v.game_start_at
  unfolding bet_row
  bet_row_start id now v h = ground arith

  with_legs_new :
      (first : ℕ) (key : String) (legs : List (LegValues W)) (r : Option BetRow) (db db' : Database)
      (parent : PaperBetRecord W) (placed : List (ParlayLegRecord W))
      → with_legs first key legs (r, db) ≡ ok ((parent, placed, true), db')
      → (b : BetRow) × (r ≡ some b) × (parent ≡ bet_from_row b)
  unfolding with_legs
  with_legs_new first key legs (some b) db db' parent placed h =
      let (rows, _, k) = >>=-eq-ok (leg_rows first b.id legs) _ h in
      let (db'', _, last) = >>=-eq-ok (insert_legs rows db) _ k in
      (b, refl, sym (ap (λ t. t.0.0) (ok-injective last)))
  with_legs_new first key legs none db db' parent placed h =
      let (old, _, last) = >>=-eq-ok (one_row (with_key key db.paper_bets)) _ h in absurd (cc)

  -- A new parent starts when its values say.
  insert_parlay_start :
      (id first now : ℕ) (v : BetValues W) (legs : List (LegValues W)) (db db' : Database)
      (parent : PaperBetRecord W) (placed : List (ParlayLegRecord W))
      → insert_parlay id first now v legs db ≡ ok ((parent, placed, true), db')
      → parent.game_start_at ≡ v.game_start_at
  unfolding insert_parlay bet_from_row
  insert_parlay_start id first now v legs db db' parent placed h =
      let (row, made, k) = >>=-eq-ok (bet_row id now v) _ h in
      let ((r, db''), ran, last) = >>=-eq-ok (insert_bet row db) _ k in
      let (b, new, e) = with_legs_new first v.idempotency_key legs r db'' db' parent placed last in
      elim (insert_bet_inv row db db'' r ran) [
        | inr (old, _, _, _) ↦ absurd (cc)
        | inl (rr, _) ↦
            ap (λ (x : PaperBetRecord W). x.game_start_at) e
            ∙ ap (λ (x : BetRow). x.game_start_at) (some-injective b row (sym new ∙ rr))
            ∙ bet_row_start id now v made
      ]

module _ {W : Type 0} ⦃f : Float W⦄ ⦃n : Numeric W⦄ where
  -- Where place_parlay returns a new parlay, statistics-service answered a game for each leg, and
  -- the parent starts with the earliest of these games: its start is one of theirs, and no known
  -- start of them is before it. It has no start only if none of these games has one that parses.
  pub place_parlay_starts :
      (c : Desk W) (request : PlaceParlayRequest W) (key : String) (w w' : World W)
      (parent : PaperBetRecord W) (legs : List (ParlayLegRecord W))
      → place_parlay c request key w ≡ (ok (parent, legs, true), w')
      → (games : List Game) × (map (λ (leg : ParlayLegRequest). c.get_game leg.game_id) request.legs
          ≡ map ok games)
        × IsEarliest
            (map (λ (g : Game). c.parse_start g.scheduled_start) games)
            parent.game_start_at
  place_parlay_starts c request key w w' parent legs h =
      let (_, _, _, priced, values, m, priced_eq, values_eq, inserted) =
        place_parlay_funded c request key w w' (parent, legs, true) h in
      let (games, answers, starts) =
        price_legs_starts c 0 request.legs priced w (record w { game_map = m }) priced_eq in
      let start : parent.game_start_at ≡ earliest (map (start_of c) games) =
        insert_parlay_start w.next_id (w.next_id + 1) w.clock values (map (λ p. p.values) priced)
          w.db w'.db parent legs inserted
        ∙ parent_of_legs_start c request key priced values values_eq
        ∙ ap earliest starts in
      (games, answers, rw start (earliest-IsEarliest (map (start_of c) games)))
