-- ===== src/Clients/Reconcile/Settles.antt =====
-- An answer of the reconciler is right, and stays until it expires.

use bookie_breaker_bookie_em.Base.{
  ℕ, ◌+◌, ◌≤◌, ◌<◌, ◌≡◌, refl, sym, ap, ◌∙◌, inl, inr, true, false, Option, none, some, List, ◌∷◌,
  ◌==◌, String, str_eq, is_blank, Bool-cases, arith,
}
use bookie_breaker_bookie_em.Clients.{LineSnapshot, Game}
use bookie_breaker_bookie_em.Core.Errors.{Error, Result, ok, err}
use bookie_breaker_bookie_em.Clients.Reconcile.{
  Lookup, Cache, cached, written, resolved_or, remember, first_match, matched_in, resolve_after,
  resolve,
}
use bookie_breaker_bookie_em.Clients.Reconcile.Named.{FirstNamed, first_match-FirstNamed}

-- The cache holds a text of a game until a time.
abbrev Holds : ℕ → String → ℕ → Cache → Type 0
Holds id external_id deadline cache = (t : ℕ) → t < deadline → cached id t cache ≡ some external_id

Holds-new :
    (id deadline : ℕ) (x : String) (cache : Cache)
    → Holds id x deadline ((id, (x, deadline)) ∷ cache)
unfolding cached
Holds-new id deadline x cache t early = ground arith

Holds-other :
    (id j deadline expires : ℕ) (x y : String) (cache : Cache)
    → (j == id) ≡ false
    → Holds id x deadline cache
    → Holds id x deadline ((j, (y, expires)) ∷ cache)
unfolding cached
Holds-other id j deadline expires x y cache other h t early = rw other (h t early)

-- any number of calls later, for any games, whatever the services answer to them
pub data Later (W : Type 0) (now : ℕ) (cache : Cache) : ℕ → Cache → Type 0 where
  at_once : Later W now cache now cache
  time_passed :
      {t : ℕ} {m : Cache} (t' : ℕ) → Later W now cache t m → t ≤ t' → Later W now cache t' m
  then_resolved :
      {t : ℕ} {m : Cache} (t' : ℕ) (l : Lookup W) (game : Game)
      → Later W now cache t m
      → t ≤ t'
      → Later W now cache t' (resolve l game t' m).1

module _ {W : Type 0} where
  module _ (id deadline : ℕ) (x : String) (filled : str_eq x "" ≡ false) where
    remember-Holds :
        (l : Lookup W) (j now : ℕ) (o : Option String) (cache : Cache)
        → (j == id) ≡ false
        → Holds id x deadline cache
        → Holds id x deadline (remember l j now o cache).1
    remember-Holds l j now none cache other h = h
    remember-Holds l j now (some y) cache other h = by_set (l.set_raises j)
      where
        by_set :
            (s : Option Error) → Holds id x deadline (written s j y (now + l.ttl_seconds) cache).1
        by_set none = Holds-other id j deadline (now + l.ttl_seconds) x y cache other h
        by_set (some e) = h

    matched_in-Holds :
        (l : Lookup W) (game : Game) (now : ℕ) (cache : Cache) (r : Result (List (LineSnapshot W)))
        → (game.id == id) ≡ false
        → Holds id x deadline cache
        → Holds id x deadline (matched_in l game now cache r).1
    matched_in-Holds l game now cache (err e) other h = h
    matched_in-Holds l game now cache (ok snapshots) other h =
        remember-Holds l game.id now (first_match l game snapshots) cache other h

    resolve-Holds :
        (l : Lookup W) (game : Game) (now : ℕ) (cache : Cache)
        → now < deadline
        → Holds id x deadline cache
        → Holds id x deadline (resolve l game now cache).1
    unfolding resolve
    resolve-Holds l game now cache early h = by_get (l.get_raises game.id)
      where
        looked : Result (Option String) × Cache
        looked =
            matched_in l game now cache
              (l.current_lines game.league (l.game_date game.scheduled_start))

        by_cache :
            (o : Option String)
            → cached game.id now cache ≡ o
            → Holds id x deadline (resolved_or o looked cache).1
        by_cache o e = elim (Bool-cases (game.id == id)) [
          | inl same ↦
              let found : o ≡ some x =
                sym e ∙ ap (λ k. cached k now cache) (ground (arith, same)) ∙ h now early in
              rw (found, filled) h
          | inr other ↦ elim (Bool-cases (is_blank o)) [
            | inl blank ↦ rw blank (
                matched_in-Holds l game now cache
                  (l.current_lines game.league (l.game_date game.scheduled_start)) other h)
            | inr full ↦ rw full h
          ]
        ]

        by_get : (g : Option Error) → Holds id x deadline (resolve_after l game now cache g).1
        by_get (some e) = h
        by_get none = by_cache (cached game.id now cache) refl

    Later-Holds :
        (now : ℕ) (cache : Cache) (t : ℕ) (m : Cache)
        → Later W now cache t m
        → t < deadline
        → Holds id x deadline cache
        → Holds id x deadline m
    Later-Holds now cache t m at_once early h = h
    Later-Holds now cache t m (time_passed {t = t₀} t' before le) early h =
        Later-Holds now cache t₀ m before (omega arith) h
    Later-Holds now cache t m (then_resolved {t = t₀} {m = m₀} t' l game before le) early h =
        resolve-Holds l game t' m₀ early (Later-Holds now cache t₀ m₀ before (omega arith) h)

  remembered :
      (l : Lookup W) (id now : ℕ) (o : Option String) (cache cache' : Cache) (x : String)
      → remember l id now o cache ≡ (ok (some x), cache')
      → (o ≡ some x) × (cache' ≡ (id, (x, now + l.ttl_seconds)) ∷ cache)
  remembered l id now none cache cache' x h = cc
  remembered l id now (some y) cache cache' x h = by_set (l.set_raises id) h
    where
      by_set :
          (s : Option Error)
          → written s id y (now + l.ttl_seconds) cache ≡ (ok (some x), cache')
          → (some y ≡ some x) × (cache' ≡ (id, (x, now + l.ttl_seconds)) ∷ cache)
      by_set (some e) k = cc
      by_set none k = ground arith

  found_in_lines :
      (l : Lookup W) (game : Game) (now : ℕ) (cache cache' : Cache) (x : String)
      (snapshots : List (LineSnapshot W))
      → is_blank (cached game.id now cache) ≡ true
      → l.current_lines game.league (l.game_date game.scheduled_start) ≡ ok snapshots
      → (g : Option Error) → resolve_after l game now cache g ≡ (ok (some x), cache')
      → (first_match l game snapshots ≡ some x)
        × (cache' ≡ (game.id, (x, now + l.ttl_seconds)) ∷ cache)
  found_in_lines l game now cache cache' x snapshots missing answered (some e) h = cc
  found_in_lines l game now cache cache' x snapshots missing answered none h =
      remembered l game.id now (first_match l game snapshots) cache cache' x
        (rw (missing, answered) at h)

  -- Where a game is not in the cache, lines-service answers, and the reconciler gives an id that is
  -- not empty, then it is the id of the first moneyline row that names the home team on the HOME side
  -- or the away team on the AWAY side. And for `ttl_seconds` from then on, whatever calls of the
  -- reconciler come in between and whatever the services answer to them, a call for the game whose
  -- read of redis does not raise gives the same id and leaves the cache alone.
  pub resolve_settles :
      (l l' : Lookup W) (game : Game) (now t : ℕ) (cache cache' m : Cache) (external_id : String)
      (snapshots : List (LineSnapshot W))
      → is_blank (cached game.id now cache) ≡ true
      → l.current_lines game.league (l.game_date game.scheduled_start) ≡ ok snapshots
      → resolve l game now cache ≡ (ok (some external_id), cache')
      → str_eq external_id "" ≡ false
      → Later W now cache' t m
      → t < now + l.ttl_seconds
      → l'.get_raises game.id ≡ none
      → FirstNamed l game snapshots external_id × (resolve l' game t m ≡ (ok (some external_id), m))
  unfolding resolve
  resolve_settles l l' game now t cache cache' m x snapshots missing answered found filled later
        early reads =
      let (matched, stored) =
        found_in_lines l game now cache cache' x snapshots missing answered (l.get_raises game.id)
          found in
      let held : Holds game.id x (now + l.ttl_seconds) m =
        Later-Holds game.id (now + l.ttl_seconds) x filled now cache' t m later early
          (rw stored (Holds-new game.id (now + l.ttl_seconds) x cache)) in
      (first_match-FirstNamed l game snapshots x matched, rw (reads, held t early, filled) refl)
