-- ===== src/Core/Clv.antt =====
-- core/clv.py: the closing line that a bet is compared with, and the value of the comparison.
pub mod Closing
use bookie_breaker_bookie_em.Base.{
  Bool, true, false, ◌&&◌, Option, none, some, List, [], ◌∷◌, String, str_eq, filter, head?,
  if◌then◌else◌,
}
use bookie_breaker_bookie_em.Base.Int.{ℤ}
use bookie_breaker_bookie_em.Domain.{Market, Side, eq_market, eq_side}
use bookie_breaker_bookie_em.Clients.{LineSnapshot}
use bookie_breaker_bookie_em.Float.{Float, zero_f}
use bookie_breaker_bookie_em.Core.Errors.{Result, ok, ◌>>=◌}
use bookie_breaker_bookie_em.Core.Odds.{implied_probability}

-- a text of the service against a market or side of ours; what is no such word equals none
abbrev pub same_market : Market → Option Market → Bool
same_market m none = false
same_market m (some k) = eq_market k m

abbrev pub same_side : Option Side → Option Side → Bool
same_side (some s) (some t) = eq_side t s
same_side _ _ = false

module _ {W : Type 0} ⦃f : Float W⦄ where
  abbrev pub is_candidate : Market → Option Side → LineSnapshot W → Bool
  is_candidate market_type side s = same_market market_type s.market_type && same_side side s.side

  unfoldable pub distance : Option W → LineSnapshot W → W
  distance none s = zero_f
  distance (some l) s = elim s.line_value [ none ↦ zero_f | some v ↦ f.abs (f.sub v l) ]

  -- `min(candidates, key=distance)`: the first of the nearest
  unfoldable pub nearest : Option W → LineSnapshot W → List (LineSnapshot W) → LineSnapshot W
  nearest line_value best [] = best
  nearest line_value best (s ∷ ss) =
      nearest line_value
        (if f.lt (distance line_value s) (distance line_value best) then s else best) ss

  abbrev pub nearest_of : Option W → List (LineSnapshot W) → Option (LineSnapshot W)
  nearest_of line_value [] = none
  nearest_of line_value (s ∷ ss) = some (nearest line_value s ss)

  abbrev pub same_book_first :
      Option (LineSnapshot W) → Option W → List (LineSnapshot W) → Option (LineSnapshot W)
  same_book_first (some s) line_value candidates = some s
  same_book_first none line_value candidates = nearest_of line_value candidates

  unfoldable pub match_closing_line :
      List (LineSnapshot W) → Market → Option Side → String → Option W → Option (LineSnapshot W)
  unfolding nearest distance
  match_closing_line closing_lines market_type side sportsbook_key line_value =
      let candidates = filter (is_candidate market_type side) closing_lines in
      let same_book = filter (λ s. str_eq s.sportsbook_key sportsbook_key) candidates in
      same_book_first (head? same_book) line_value candidates

  unfoldable pub compute_clv : ℤ → ℤ → Result W
  compute_clv placement_odds_american closing_odds_american = do
    closing ← implied_probability closing_odds_american
    placement ← implied_probability placement_odds_american
    ok (f.sub closing placement)
