-- ===== src/Services/Bets/Legs.antt =====
-- validate_parlay_legs.
use bookie_breaker_bookie_em.Base.{
  ℕ, Bool, true, false, not, ◌&&◌, ◌||◌, ◌==◌, Option, none, some, List, [], ◌∷◌, String, str_eq,
  is_blank, any, if◌then◌else◌,
}
use bookie_breaker_bookie_em.Domain.{
  Market, spread, total, moneyline, player_prop, eq_market, Side, over, under, side_yes, side_no,
}
use bookie_breaker_bookie_em.Core.Errors.{
  Result, ok, err, unprocessable, unexpected, ◌>>=◌, ◌>>◌, raise_if,
}

-- ParlayLegRequest, without the advisory line
pub record ParlayLegRequest : Type 0 where
  pub game_id : ℕ
  pub game_external_id : Option String
  pub market_type : Market
  pub selection : String
  pub side : Side
  pub sportsbook_key : Option String
  pub player_external_id : Option String
  pub stat_type : Option String
  pub prop_type : Option String

-- membership in PARLAY_MARKETS
abbrev pub is_parlay_market : Market → Bool
is_parlay_market spread = true
is_parlay_market total = true
is_parlay_market moneyline = true
is_parlay_market player_prop = true
is_parlay_market _ = false

-- `leg.side in _PROP_SIDES_BY_TYPE[leg.prop_type]`; another type is a KeyError.
abbrev pub is_yes_no : Side → Bool
is_yes_no side_yes = true
is_yes_no side_no = true
is_yes_no _ = false

abbrev pub is_over_under : Side → Bool
is_over_under over = true
is_over_under under = true
is_over_under _ = false

abbrev pub valid_side : Option String → Side → Result Bool
valid_side none side = err unexpected
valid_side (some prop_type) side =
    if str_eq prop_type "YES_NO"
    then ok (is_yes_no side)
    else if str_eq prop_type "OVER_UNDER"
    then ok (is_over_under side)
    else err unexpected

abbrev pub check_prop_terms : ParlayLegRequest → Result (Unit {0})
check_prop_terms leg = do
  raise_if (is_blank leg.stat_type || is_blank leg.prop_type) unprocessable
  valid ← valid_side leg.prop_type leg.side
  raise_if (not valid) unprocessable

unfoldable pub check_leg : ParlayLegRequest → Result (Unit {0})
check_leg leg =
    if not (is_parlay_market leg.market_type)
    then err unprocessable
    else if eq_market leg.market_type player_prop
    then check_prop_terms leg
    else ok tt

abbrev pub eq_text : Option String → Option String → Bool
eq_text none none = true
eq_text (some s) (some t) = str_eq s t
eq_text _ _ = false

-- equality of the keys (game_id, market_type, player_external_id, stat_type)
unfoldable pub same_key : ParlayLegRequest → ParlayLegRequest → Bool
same_key l m =
    l.game_id == m.game_id
    && eq_market l.market_type m.market_type
    && eq_text l.player_external_id m.player_external_id
    && eq_text l.stat_type m.stat_type

-- The legs with the keys of `seen`, the latest first.
unfoldable pub validate_from : List ParlayLegRequest → List ParlayLegRequest → Result (Unit {0})
validate_from seen [] = ok tt
validate_from seen (leg ∷ legs) =
    let rest = validate_from (leg ∷ seen) legs in
    do check_leg leg; raise_if (any (same_key leg) seen) unprocessable; rest

unfoldable pub validate_parlay_legs : List ParlayLegRequest → Result (Unit {0})
unfolding validate_from
validate_parlay_legs legs = validate_from [] legs
