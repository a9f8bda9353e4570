-- ===== src/Clients/Reconcile.antt =====
-- clients/reconcile.py: which lines-service game a statistics-service game is.
pub mod Named
pub mod Settles
use text.Mathlib.Text.{starts_with}
use bookie_breaker_bookie_em.Base.{
  ℕ, ◌+◌, Bool, true, false, ◌&&◌, ◌||◌, Option, none, some, List, [], ◌∷◌, ◌==◌, ltb, String,
  is_blank, if◌then◌else◌,
}
use bookie_breaker_bookie_em.Domain.{Side, home, away, League, eq_side}
use bookie_breaker_bookie_em.Clients.{LineSnapshot, Game}
use bookie_breaker_bookie_em.Core.Errors.{Error, Result, ok, err}

-- What lines-service answers to the query for the moneylines of a league on a day, the texts of the
-- standard library, the time to live of an entry, and whether the two calls of redis raise, for the
-- id of a game.
pub record Lookup (W : Type 0) : Type 0 where
  pub current_lines : League → Option String → Result (List (LineSnapshot W))
  -- `_normalize`: casefold, with one space between the words
  pub normalize : String → String
  -- `_game_date`
  pub game_date : String → Option String
  pub ttl_seconds : ℕ
  pub get_raises : ℕ → Option Error
  pub set_raises : ℕ → Option Error

-- the texts of the cache in redis, by the game's id, each with the time at which it expires
abbrev pub Cache : Type 0
Cache = List (ℕ × (String × ℕ))

unfoldable pub cached : ℕ → ℕ → Cache → Option String
cached id now [] = none
cached id now (e ∷ es) =
    let rest = cached id now es in
    if e.0 == id then (if ltb now e.1.1 then some e.1.0 else none) else rest

-- `redis.set(..., ex=ttl)`
abbrev pub written : Option Error → ℕ → String → ℕ → Cache → Result (Option String) × Cache
written (some e) id external_id expires cache = (err e, cache)
written none id external_id expires cache =
    (ok (some external_id), (id, (external_id, expires)) ∷ cache)

-- `if cached: return`
abbrev pub resolved_or :
    Option String → Result (Option String) × Cache → Cache → Result (Option String) × Cache
resolved_or found looked cache = if is_blank found then looked else (ok found, cache)

abbrev pub side_is : Side → Option Side → Bool
side_is side none = false
side_is side (some s) = eq_side s side

module _ {W : Type 0} where
  abbrev pub remember : Lookup W → ℕ → ℕ → Option String → Cache → Result (Option String) × Cache
  remember l id now none cache = (ok none, cache)
  remember l id now (some external_id) cache =
      written (l.set_raises id) id external_id (now + l.ttl_seconds) cache

  -- a HOME row that begins with the home team's name, or an AWAY row with the away team's
  abbrev pub names_game : Lookup W → Game → LineSnapshot W → Bool
  names_game l game s =
      (side_is home s.side
        && starts_with (l.normalize s.selection) (l.normalize game.home_team.name))
      || (side_is away s.side
          && starts_with (l.normalize s.selection) (l.normalize game.away_team.name))

  -- the loop over the snapshots
  unfoldable pub first_match : Lookup W → Game → List (LineSnapshot W) → Option String
  first_match l game [] = none
  first_match l game (s ∷ ss) =
      let rest = first_match l game ss in if names_game l game s then some s.game_id else rest

  -- `except Exception`: no answer, and nothing is cached
  abbrev pub matched_in :
      Lookup W → Game → ℕ → Cache → Result (List (LineSnapshot W)) → Result (Option String) × Cache
  matched_in l game now cache (err e) = (ok none, cache)
  matched_in l game now cache (ok snapshots) =
      remember l game.id now (first_match l game snapshots) cache

  -- what follows the read of the cache
  abbrev pub resolve_after :
      Lookup W → Game → ℕ → Cache → Option Error → Result (Option String) × Cache
  resolve_after l game now cache (some e) = (err e, cache)
  resolve_after l game now cache none =
      resolved_or (cached game.id now cache)
        (matched_in l game now cache
          (l.current_lines game.league (l.game_date game.scheduled_start)))
        cache

  unfoldable pub resolve : Lookup W → Game → ℕ → Cache → Result (Option String) × Cache
  unfolding cached first_match
  resolve l game now cache = resolve_after l game now cache (l.get_raises game.id)
