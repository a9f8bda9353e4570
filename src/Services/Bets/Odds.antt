-- ===== src/Services/Bets/Odds.antt =====
-- `_capture_odds`, `_select_line`, `_pick_pinned_line` and `_pick_best_line`.
use bookie_breaker_bookie_em.Base.{
  ℕ, Bool, true, false, not, ◌&&◌, ◌||◌, Option, none, some, List, [], ◌∷◌, String, map, filter,
  str_eq, is_blank, earlier, if◌then◌else◌,
}
use bookie_breaker_bookie_em.Base.Int.{ℤ}
use bookie_breaker_bookie_em.Domain.{Market, Side, is_prop}
use bookie_breaker_bookie_em.Clients.{LineSnapshot, BestLine, Game}
use bookie_breaker_bookie_em.Clients.Reconcile.{Lookup}
use bookie_breaker_bookie_em.Core.Errors.{Result, ok, err, not_found, unprocessable, ◌>>=◌}
use bookie_breaker_bookie_em.Core.Clv.{same_market, same_side}

-- What the other services answer during a placement, what the standard library reads from their
-- texts, the time, and the settings.
pub record Desk (W : Type 0) : Type 0 where
  pub get_game : ℕ → Result Game
  -- the GameReconciler
  pub lookup : Lookup W
  pub game_lines : String → Result (List (LineSnapshot W))
  pub best_lines : String → Market → Result (List (BestLine W))
  -- `_parse_start` and `_parse_uuid`
  pub parse_start : String → Option ℕ
  pub parse_uuid : Option String → Option ℕ
  pub utc_now : ℕ
  pub starting_bankroll_units : W
  pub kelly_fraction : W

-- OddsSelection
pub record OddsSelection : Type 0 where
  pub market_type : Market
  pub selection : String
  pub side : Side
  pub sportsbook_key : Option String

-- The fields that the two kinds of line share, as the captured odds name them.
pub record Quote (W : Type 0) : Type 0 where
  pub line_value : Option W
  pub odds_american : ℤ
  pub odds_decimal : W
  pub sportsbook_id : Option String
  pub sportsbook_key : String
  pub is_live : Bool
  pub timestamp : String

-- `except NotFoundError as exc: raise UnprocessableError(...) from exc`
abbrev pub known_to_lines : {A : Type 0} → Result A → Result A
known_to_lines (ok a) = ok a
known_to_lines (err not_found) = err unprocessable
known_to_lines (err e) = err e

-- an empty key pins no book
abbrev pub pinned : Option String → Option String
pinned book = if is_blank book then none else book

module _ {W : Type 0} where
  unfoldable pub quote_of_snapshot : LineSnapshot W → Quote W
  quote_of_snapshot s = record {
    line_value = s.line_value;
    odds_american = s.odds_american;
    odds_decimal = s.odds_decimal;
    sportsbook_id = s.sportsbook_id;
    sportsbook_key = s.sportsbook_key;
    is_live = s.is_live;
    timestamp = s.timestamp;
  }

  unfoldable pub quote_of_best : BestLine W → Quote W
  quote_of_best s = record {
    line_value = s.line_value;
    odds_american = s.best_odds_american;
    odds_decimal = s.best_odds_decimal;
    sportsbook_id = s.sportsbook_id;
    sportsbook_key = s.sportsbook_key;
    is_live = s.is_live;
    timestamp = s.timestamp;
  }

  -- `max(lines, key=lambda line: line.timestamp)`: the first of the freshest
  unfoldable pub freshest : Quote W → List (Quote W) → Quote W
  freshest best [] = best
  freshest best (q ∷ qs) = freshest (if earlier best.timestamp q.timestamp then q else best) qs

  abbrev pub freshest_of : List (Quote W) → Option (Quote W)
  freshest_of [] = none
  freshest_of (q ∷ qs) = some (freshest q qs)

  abbrev pub or_any : Option (Quote W) → List (Quote W) → Option (Quote W)
  or_any (some live) matches = some live
  or_any none matches = freshest_of matches

  unfoldable pub select_line : List (Quote W) → Bool → Option (Quote W)
  unfolding freshest
  select_line [] prefer_live = none
  select_line (q ∷ qs) false = some q
  select_line (q ∷ qs) true = or_any (freshest_of (filter (λ l. l.is_live) (q ∷ qs))) (q ∷ qs)

  abbrev pub at_pinned_book : OddsSelection → String → LineSnapshot W → Bool
  at_pinned_book request book s =
      str_eq s.sportsbook_key book
      && same_market request.market_type s.market_type
      && same_side (some request.side) s.side
      && (not (is_prop request.market_type) || str_eq s.selection request.selection)

  abbrev pub offers : OddsSelection → BestLine W → Bool
  offers request l =
      same_market request.market_type l.market_type
      && (if is_prop request.market_type
          then str_eq l.selection request.selection
          else same_side (some request.side) l.side || str_eq l.selection request.selection)

  abbrev pub found_line : Option (Quote W) → Result (Quote W)
  found_line none = err unprocessable
  found_line (some q) = ok q

  unfoldable pub pick_pinned_line :
      OddsSelection → String → List (LineSnapshot W) → Bool → Result (Quote W)
  pick_pinned_line request book snapshots prefer_live = found_line (
      select_line (map quote_of_snapshot (filter (at_pinned_book request book) snapshots))
        prefer_live)

  unfoldable pub pick_best_line : OddsSelection → List (BestLine W) → Bool → Result (Quote W)
  pick_best_line request best_lines prefer_live =
      found_line (select_line (map quote_of_best (filter (offers request) best_lines)) prefer_live)

  abbrev pub capture_at : Desk W → OddsSelection → String → Bool → Option String → Result (Quote W)
  capture_at c request external_id prefer_live none = do
    lines ← c.best_lines external_id request.market_type
    pick_best_line request lines prefer_live
  capture_at c request external_id prefer_live (some book) = do
    lines ← c.game_lines external_id
    pick_pinned_line request book lines prefer_live

  unfoldable pub capture_odds : Desk W → OddsSelection → String → Bool → Result (Quote W)
  unfolding pick_pinned_line pick_best_line select_line
  capture_odds c request external_id prefer_live =
      known_to_lines (capture_at c request external_id prefer_live (pinned request.sportsbook_key))
