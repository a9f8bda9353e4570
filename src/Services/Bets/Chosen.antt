-- ===== src/Services/Bets/Chosen.antt =====
-- Which line the odds are captured from.
use bookie_breaker_bookie_em.Base.{
  earlier, ◌≡◌, refl, Bool, true, false, Option, none, some, List, [], ◌∷◌, String, map, filter,
  any, All, All-filter, filter_tests, ap, str_eq, arith, Bool-cases, inl, inr,
}
use bookie_breaker_bookie_em.Clients.{LineSnapshot}
use bookie_breaker_bookie_em.Core.Errors.{Result, ok, err, not_found, >>=-eq-ok, ok-injective}
use bookie_breaker_bookie_em.Services.Bets.Odds.{
  Desk, OddsSelection, Quote, quote_of_snapshot, freshest, freshest_of, select_line, or_any,
  at_pinned_book, found_line, pick_pinned_line, known_to_lines, capture_at, capture_odds,
}

some-injective : {A : Type 0} {a b : A} → some a ≡ some b → a ≡ b
some-injective {A} {a} e = ap (λ o. elim o [ none ↦ a | some x ↦ x ]) e

module _ {W : Type 0} where
  Meets : (Quote W → Bool) → List (Quote W) → Type 0
  Meets p quotes = All (λ q. p q ≡ true) quotes

  -- what a choice inherits from the lines it is made among
  abbrev Keeps : (Quote W → Bool) → Option (Quote W) → Type 0
  Keeps p none = Unit
  Keeps p (some q) = p q ≡ true

  freshest-Keeps :
      (p : Quote W → Bool) (best : Quote W) (qs : List (Quote W))
      → p best ≡ true
      → Meets p qs
      → p (freshest best qs) ≡ true
  unfolding freshest Meets
  freshest-Keeps p best [] h hs = h
  freshest-Keeps p best (q ∷ qs) h (hq, hs) =
      elim (Bool-cases (earlier best.timestamp q.timestamp)) [
        | inl later ↦ rw later (freshest-Keeps p q qs hq hs)
        | inr older ↦ rw older (freshest-Keeps p best qs h hs)
      ]

  freshest_of-Keeps :
      (p : Quote W → Bool) (qs : List (Quote W)) → Meets p qs → Keeps p (freshest_of qs)
  unfolding Meets
  freshest_of-Keeps p [] h = tt
  freshest_of-Keeps p (q ∷ qs) (hq, hs) = freshest-Keeps p q qs hq hs

  none-live :
      (qs : List (Quote W)) → any (λ q. q.is_live) qs ≡ true → ¬ (filter (λ q. q.is_live) qs ≡ [])
  none-live [] h e = cc
  none-live (q ∷ qs) h e = elim (Bool-cases q.is_live) [
    | inl live ↦ cc (rw live at e)
    | inr pregame ↦ none-live qs (rw pregame at h) (rw pregame at e)
  ]

  or_any-Keeps :
      (p : Quote W → Bool) (live : Option (Quote W)) (qs : List (Quote W))
      → Keeps p live
      → Meets p qs
      → Keeps p (freshest_of qs)
      → (q : Quote W) → or_any live qs ≡ some q
      → p q ≡ true
  or_any-Keeps p (some l) qs h hs any_of q e = rw (← some-injective e) h
  or_any-Keeps p none [] h hs any_of q e = cc
  or_any-Keeps p none (r ∷ rs) h hs any_of q e = rw (← some-injective e) any_of

  Meets-filter : (p t : Quote W → Bool) (qs : List (Quote W)) → Meets p qs → Meets p (filter t qs)
  unfolding Meets
  Meets-filter p t qs hs = All-filter (λ q. p q ≡ true) t qs hs

  select_line-Keeps :
      (p : Quote W → Bool) (qs : List (Quote W)) (prefer_live : Bool) (q : Quote W)
      → Meets p qs
      → select_line qs prefer_live ≡ some q
      → p q ≡ true
  unfolding select_line Meets
  select_line-Keeps p [] prefer_live q hs e = cc
  select_line-Keeps p (r ∷ rs) false q (hr, hs) e = rw (← some-injective e) hr
  select_line-Keeps p (r ∷ rs) true q hs e =
      or_any-Keeps p (freshest_of (filter (λ l. l.is_live) (r ∷ rs))) (r ∷ rs)
        (freshest_of-Keeps p (filter (λ l. l.is_live) (r ∷ rs))
          (Meets-filter p (λ l. l.is_live) (r ∷ rs) hs))
        hs (freshest_of-Keeps p (r ∷ rs) hs) q e

  live_first :
      (live qs : List (Quote W)) (q : Quote W)
      → Meets (λ l. l.is_live) live
      → ¬ (live ≡ [])
      → or_any (freshest_of live) qs ≡ some q
      → q.is_live ≡ true
  unfolding Meets
  live_first [] qs q hs some_live e = absurd (some_live refl)
  live_first (l ∷ ls) qs q (hl, hs) some_live e =
      rw (← some-injective e) (freshest-Keeps (λ l. l.is_live) l ls hl hs)

  -- A placement that prefers live lines gets a live one whenever a live line matches.
  pub select_line_live :
      (matches : List (Quote W)) (q : Quote W)
      → any (λ l. l.is_live) matches ≡ true
      → select_line matches true ≡ some q
      → q.is_live ≡ true
  unfolding select_line Meets
  select_line_live [] q h e = cc
  select_line_live (r ∷ rs) q h e =
      live_first (filter (λ l. l.is_live) (r ∷ rs)) (r ∷ rs) q
        (filter_tests (λ l. l.is_live) (r ∷ rs)) (none-live (r ∷ rs) h) e

  snapshots-Meet :
      (p : Quote W → Bool) (t : LineSnapshot W → Bool) (ss : List (LineSnapshot W))
      → ((s : LineSnapshot W) → t s ≡ true → p (quote_of_snapshot s) ≡ true)
      → All (λ s. t s ≡ true) ss
      → Meets p (map quote_of_snapshot ss)
  unfolding Meets
  snapshots-Meet p t [] h hs = tt
  snapshots-Meet p t (s ∷ ss) h (hs, hss) = (h s hs, snapshots-Meet p t ss h hss)

  found_line-eq-ok : (o : Option (Quote W)) (q : Quote W) → found_line o ≡ ok q → o ≡ some q
  found_line-eq-ok none q h = cc
  found_line-eq-ok (some r) q h = ap some (ok-injective h)

  pick_pinned_line-Keeps :
      (request : OddsSelection) (book : String) (ss : List (LineSnapshot W)) (prefer_live : Bool)
      (q : Quote W)
      → pick_pinned_line request book ss prefer_live ≡ ok q
      → str_eq q.sportsbook_key book ≡ true
  unfolding pick_pinned_line quote_of_snapshot
  pick_pinned_line-Keeps request book ss prefer_live q h =
      select_line-Keeps (λ l. str_eq l.sportsbook_key book)
        (map quote_of_snapshot (filter (at_pinned_book request book) ss)) prefer_live q
        (snapshots-Meet (λ l. str_eq l.sportsbook_key book) (at_pinned_book request book)
          (filter (at_pinned_book request book) ss) (λ s admitted. ground arith)
          (filter_tests (at_pinned_book request book) ss))
        (found_line-eq-ok _ q h)

  known_to_lines-eq-ok : (r : Result (Quote W)) (q : Quote W) → known_to_lines r ≡ ok q → r ≡ ok q
  known_to_lines-eq-ok (ok a) q h = h
  known_to_lines-eq-ok (err not_found) q h = cc
  known_to_lines-eq-ok (err _) q h = cc

  -- A request that pins a sportsbook captures odds of that sportsbook.
  pub capture_odds_pinned :
      (c : Desk W) (request : OddsSelection) (book external_id : String) (prefer_live : Bool)
      (q : Quote W)
      → request.sportsbook_key ≡ some book
      → str_eq book "" ≡ false
      → capture_odds c request external_id prefer_live ≡ ok q
      → str_eq q.sportsbook_key book ≡ true
  unfolding capture_odds
  capture_odds_pinned c request book external_id prefer_live q pins given h =
      let picked : capture_at c request external_id prefer_live (some book) ≡ ok q =
        known_to_lines-eq-ok (capture_at c request external_id prefer_live (some book)) q
          (rw (pins, given) at h) in
      let (ss, _, chosen) =
        >>=-eq-ok (c.game_lines external_id)
          (λ lines. pick_pinned_line request book lines prefer_live) picked in
      pick_pinned_line-Keeps request book ss prefer_live q chosen
