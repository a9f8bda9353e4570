-- ===== src/Core/Performance.antt =====
-- core/performance.py: the analytics over graded bets.
pub mod Streaks
pub mod Bins
pub mod Breakdown
pub mod Metrics
use bookie_breaker_bookie_em.Base.{
  ℕ, ◌+◌, ◌==◌, Bool, true, false, ◌||◌, Option, none, some, List, [], ◌∷◌, length, count,
  if◌then◌else◌, String,
}
use bookie_breaker_bookie_em.Base.Int.{pos}
use bookie_breaker_bookie_em.Domain.{Status, won, lost, push, Market, League, eq_status, is_prop}
use bookie_breaker_bookie_em.Float.{Float, zero_f, hundred_f}

pub record GradedBet (W : Type 0) : Type 0 where
  pub league : League
  pub market_type : Market
  pub sportsbook_key : String
  pub stake : W
  pub odds_decimal : W
  pub predicted_probability : W
  pub edge_at_placement : W
  pub status : Status
  pub profit_loss : W
  pub clv : Option W
  pub placed_at : ℕ
  pub graded_at : ℕ
  pub is_parlay : Bool
  pub is_live : Bool

-- `status in _SETTLED`
abbrev pub is_settled : Status → Bool
is_settled s = eq_status s won || eq_status s lost

module _ {W : Type 0} where
  abbrev pub has_status : Status → GradedBet W → Bool
  has_status s b = eq_status b.status s

  abbrev pub settled : GradedBet W → Bool
  settled b = is_settled b.status

  -- parlay > prop > live > single
  unfoldable pub bet_class : GradedBet W → String
  bet_class b =
      if b.is_parlay
      then "parlay"
      else if is_prop b.market_type
      then "prop"
      else if b.is_live
      then "live"
      else "single"

  abbrev pub with_clv : Option W → List W → List W
  with_clv none rest = rest
  with_clv (some x) rest = x ∷ rest

  -- `[b.clv for b in bets if b.clv is not None]`
  unfoldable pub known_clvs : List (GradedBet W) → List W
  known_clvs [] = []
  known_clvs (b ∷ bs) = with_clv b.clv (known_clvs bs)

module _ {W : Type 0} ⦃f : Float W⦄ where
  unfoldable pub win_rate : ℕ → ℕ → W
  win_rate wins losses =
      if wins + losses == 0
      then zero_f
      else f.div (f.of_int (pos wins)) (f.of_int (pos (wins + losses)))

  unfoldable pub roi : W → W → W
  roi total_profit total_wagered =
      if f.beq total_wagered zero_f then zero_f else f.div total_profit total_wagered

  -- `_mean`
  unfoldable pub mean : List W → Option W
  mean [] = none
  mean (x ∷ xs) = some (f.div (f.sum (x ∷ xs)) (f.of_int (pos (length (x ∷ xs)))))

  -- `mean_edge * 100.0 if mean_edge is not None else None`
  abbrev pub as_percent : Option W → Option W
  as_percent none = none
  as_percent (some x) = some (f.mul x hundred_f)
