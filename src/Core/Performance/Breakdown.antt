-- ===== src/Core/Performance/Breakdown.antt =====
-- compute_breakdown.
pub mod Order
pub mod Groups
pub mod Partition
use bookie_breaker_bookie_em.Base.{
  ℕ, Bool, true, not, Option, List, [], ◌∷◌, ◌++◌, map, count, length, String, str_eq, earlier,
  if◌then◌else◌,
}
use bookie_breaker_bookie_em.Base.Sorting.{sort_by}
use bookie_breaker_bookie_em.Domain.{won, lost, push, league_name, market_name}
use bookie_breaker_bookie_em.Float.{Float}
use bookie_breaker_bookie_em.Core.Performance.{
  GradedBet, has_status, bet_class, known_clvs, win_rate, roi, mean, as_percent,
}

-- GroupBy of api/schemas.py, the keys of _GROUP_KEYS
pub data GroupBy : Type 0 where
  by_league by_market_type by_sportsbook by_month by_bet_class : GroupBy

pub record BreakdownGroup (W : Type 0) : Type 0 where
  pub group : String
  pub total_bets : ℕ
  pub wins : ℕ
  pub losses : ℕ
  pub pushes : ℕ
  pub win_rate : W
  pub roi : W
  pub total_profit_units : W
  pub avg_clv : Option W
  pub avg_edge_percentage : Option W

module _ {W : Type 0} where
  -- _GROUP_KEYS; how the calendar prints the month of a time is a parameter
  unfoldable pub group_key : (ℕ → String) → GroupBy → GradedBet W → String
  unfolding bet_class
  group_key month_of by_league b = league_name b.league
  group_key month_of by_market_type b = market_name b.market_type
  group_key month_of by_sportsbook b = b.sportsbook_key
  group_key month_of by_month b = month_of b.placed_at
  group_key month_of by_bet_class b = bet_class b

-- a dict of lists, with its keys in the order of their insertion
abbrev pub Groups : Type 0 → Type 0
Groups A = List (String × List A)

module _ {A : Type 0} where
  -- `grouped.setdefault(key, []).append(x)`
  unfoldable pub append_under : String → A → Groups A → Groups A
  append_under key x [] = (key, x ∷ []) ∷ []
  append_under key x (g ∷ gs) =
      if str_eq g.0 key then (g.0, g.1 ++ x ∷ []) ∷ gs else g ∷ append_under key x gs

  unfoldable pub group_loop : (A → String) → List A → Groups A → Groups A
  unfolding append_under
  group_loop key_of [] grouped = grouped
  group_loop key_of (x ∷ xs) grouped = group_loop key_of xs (append_under (key_of x) x grouped)

  abbrev pub keys : Groups A → List String
  keys = map (λ g. g.0)

  -- `grouped[key]`
  unfoldable pub members_of : String → Groups A → List A
  members_of key [] = []
  members_of key (g ∷ gs) = if str_eq g.0 key then g.1 else members_of key gs

-- the order of texts
abbrev pub text_le : String → String → Bool
text_le a b = not (earlier b a)

module _ {W : Type 0} ⦃f : Float W⦄ where
  unfoldable pub breakdown_of : String → List (GradedBet W) → BreakdownGroup W
  unfolding known_clvs win_rate roi mean
  breakdown_of group members = record {
    group = group;
    total_bets = length members;
    wins = count (has_status won) members;
    losses = count (has_status lost) members;
    pushes = count (has_status push) members;
    win_rate = win_rate (count (has_status won) members) (count (has_status lost) members);
    roi = roi (f.sum (map (λ b. b.profit_loss) members)) (f.sum (map (λ b. b.stake) members));
    total_profit_units = f.sum (map (λ b. b.profit_loss) members);
    avg_clv = mean (known_clvs members);
    avg_edge_percentage = as_percent (mean (map (λ b. b.edge_at_placement) members));
  }

  abbrev pub breakdown_rows : Groups (GradedBet W) → List (BreakdownGroup W)
  breakdown_rows grouped =
      map (λ key. breakdown_of key (members_of key grouped)) (sort_by text_le (keys grouped))

  unfoldable pub compute_breakdown :
      (ℕ → String) → List (GradedBet W) → GroupBy → List (BreakdownGroup W)
  unfolding group_key group_loop members_of breakdown_of
  compute_breakdown month_of bets group_by =
      breakdown_rows (group_loop (group_key month_of group_by) bets [])
