-- ===== src/Core/Parlay.antt =====
-- core/parlay.py: combined odds, and the settlement of a parlay from its legs.
pub mod Verdict
pub mod Dropped
use bookie_breaker_bookie_em.Base.{
  Bool, true, false, not, ◌&&◌, ◌||◌, Option, none, some, List, [], ◌∷◌, String, ◌<>◌, ◌==◌, map,
  any, all, length, if◌then◌else◌,
}
use mathlib.Core.List.{foldl}
use bookie_breaker_bookie_em.Domain.{Status, opened, won, lost, push, void, eq_status}
use bookie_breaker_bookie_em.Float.{Float, one_f}
use bookie_breaker_bookie_em.Core.Errors.{Result, ok, err, value_error, ◌>>=◌, ◌>>◌, raise_if}

-- membership in _DROPPED
abbrev pub is_dropped : Status → Bool
is_dropped push = true
is_dropped void = true
is_dropped _ = false

-- `_LEG_LABEL.get(status, status)`
abbrev leg_label : Status → String
leg_label won = "W"
leg_label lost = "L"
leg_label push = "PUSH"
leg_label void = "VOID"
leg_label opened = "OPEN"

-- `"-".join(labels)`
join : List String → String
join [] = ""
join (s ∷ []) = s
join (s ∷ t ∷ rest) = s <> "-" <> join (t ∷ rest)

module _ {W : Type 0} ⦃f : Float W⦄ where
  -- `prod(decimals, start=1.0)`
  unfoldable pub prod : List W → W
  prod = foldl f.mul one_f

  unfoldable pub combined_decimal : List W → Result W
  unfolding prod
  combined_decimal [] = err value_error
  combined_decimal (d ∷ ds) = ok (prod (d ∷ ds))

  -- the decimals of the legs that WON, in order
  unfoldable pub won_decimals : List Status → List W → List W
  won_decimals [] decimals = []
  won_decimals (s ∷ ss) [] = []
  won_decimals (s ∷ ss) (d ∷ ds) =
      if eq_status s won then d ∷ won_decimals ss ds else won_decimals ss ds

  -- The three outcomes, once no leg is OPEN.
  unfoldable pub decide_parlay : List Status → W → Status × W
  decide_parlay statuses repriced =
      if any (eq_status lost) statuses
      then (lost, repriced)
      else if all is_dropped statuses
      then (push, one_f)
      else (won, repriced)

  -- `some none` is the source's None: a leg is still OPEN.
  unfoldable pub settle_parlay : List Status → List W → Result (Option (Status × W))
  unfolding decide_parlay
  settle_parlay statuses decimals = do
    raise_if (not (length statuses == length decimals)) value_error
    ok (
        if any (eq_status opened) statuses
        then none
        else some (decide_parlay statuses (prod (won_decimals statuses decimals))))

  unfoldable pub leg_outcome_summary : List Status → Status → W → String
  unfolding join
  leg_outcome_summary statuses status repriced =
      let legs = "Legs: " <> join (map leg_label statuses) in
      if eq_status status won && any is_dropped statuses
      then legs <> " (re-priced " <> f.two_f repriced <> ")"
      else if eq_status status push
      then legs <> " (all legs push/void: stake refunded)"
      else legs
