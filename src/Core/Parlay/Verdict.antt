-- ===== src/Core/Parlay/Verdict.antt =====
-- The outcome of a parlay, against the rules that the module states for it.
use bookie_breaker_bookie_em.Base.{
  ◌≡◌, refl, ◌≢◌, inl, inr, true, false, not, Option, none, some, List, [], ◌∷◌, any, all, length,
  arith, Bool-cases,
}
use bookie_breaker_bookie_em.Domain.{Status, opened, won, lost, push, void, eq_status}
use bookie_breaker_bookie_em.Float.{Float, one_f}
use bookie_breaker_bookie_em.Core.Errors.{ok, err, value_error}
use bookie_breaker_bookie_em.Core.Parlay.{
  is_dropped, prod, won_decimals, decide_parlay, settle_parlay,
}

-- Some leg has the status.
abbrev pub Has : Status → List Status → Type 0
Has s statuses = any (eq_status s) statuses ≡ true

-- The rules of core/parlay.py for a parlay with these legs.
abbrev pub IsVerdict : {W : Type 0} → List Status → Option (Status × W) → Type 0
IsVerdict statuses none = Has opened statuses
IsVerdict statuses (some (won, _)) =
    Has won statuses × ¬ (Has lost statuses) × ¬ (Has opened statuses)
IsVerdict statuses (some (lost, _)) = Has lost statuses × ¬ (Has opened statuses)
IsVerdict statuses (some (push, _)) =
    ¬ (Has won statuses) × ¬ (Has lost statuses) × ¬ (Has opened statuses)
IsVerdict statuses (some _) = ⊥

-- Without OPEN and LOST legs, some leg WON unless every leg dropped out.
any-won :
    (statuses : List Status)
    → any (eq_status opened) statuses ≡ false
    → any (eq_status lost) statuses ≡ false
    → any (eq_status won) statuses ≡ not (all is_dropped statuses)
any-won [] p q = refl
any-won (opened ∷ ss) p q = cc
any-won (lost ∷ ss) p q = cc
any-won (won ∷ ss) p q = refl
any-won (push ∷ ss) p q = any-won ss p q
any-won (void ∷ ss) p q = any-won ss p q

module _ {W : Type 0} ⦃f : Float W⦄ (statuses : List Status) (decimals : List W) where
  -- the price that the parlay settles at
  abbrev pub IsPrice : Option (Status × W) → Type 0
  IsPrice none = Unit
  IsPrice (some (push, price)) = price ≡ one_f
  IsPrice (some (_, price)) = price ≡ prod (won_decimals statuses decimals)

  decide-IsVerdict :
      (price : W)
      → any (eq_status opened) statuses ≡ false
      → IsVerdict statuses (some (decide_parlay statuses price))
  unfolding decide_parlay
  decide-IsVerdict price p = ground (arith, any-won statuses p)

  decide-IsPrice :
      (price : W)
      → price ≡ prod (won_decimals statuses decimals)
      → IsPrice (some (decide_parlay statuses price))
  unfolding decide_parlay
  decide-IsPrice price e = ground arith

  -- With as many decimals as legs, a parlay stays undecided exactly while a leg is OPEN; else it is
  -- WON exactly if a leg WON and none LOST, LOST exactly if a leg LOST, and PUSH exactly if neither
  -- happened. It settles at the product of the decimals of the legs that WON, a PUSH at 1.0.
  -- With another number of decimals a ValueError is raised.
  pub settle_parlay-IsVerdict :
      (length statuses ≡ length decimals
        → (r : Option (Status × W)) × (settle_parlay statuses decimals ≡ ok r)
          × IsVerdict statuses r
          × IsPrice r)
      × (length statuses ≢ length decimals → settle_parlay statuses decimals ≡ err value_error)
  unfolding settle_parlay
  settle_parlay-IsVerdict = (aligned, ground arith)
    where
      aligned :
          length statuses ≡ length decimals
          → (r : Option (Status × W)) × (settle_parlay statuses decimals ≡ ok r)
            × IsVerdict statuses r
            × IsPrice r
      aligned e = elim (Bool-cases (any (eq_status opened) statuses)) [
        | inl waits ↦ (none, ground arith, waits, tt)
        | inr done ↦ (
          some (decide_parlay statuses product),
          ground arith,
          decide-IsVerdict product done,
          decide-IsPrice product refl,
        )
      ]
        where
          product : W
          product = prod (won_decimals statuses decimals)
