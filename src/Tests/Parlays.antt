-- ===== src/Tests/Parlays.antt =====
-- Tests of core/parlay.py.
use bookie_breaker_bookie_em.Base.{◌≡◌, refl, ◌≢◌, Option, some, [], ◌∷◌, length}
use bookie_breaker_bookie_em.Base.Int.{pos}
use bookie_breaker_bookie_em.Domain.{Status, won, lost, push}
use bookie_breaker_bookie_em.Float.Fixed.{Fixed, fixed_float, fixed_runs}
use bookie_breaker_bookie_em.Core.Errors.{ok, err, value_error}
use bookie_breaker_bookie_em.Core.Parlay.{settle_parlay, combined_decimal}
use bookie_breaker_bookie_em.Core.Parlay.Verdict.{IsVerdict, IsPrice, settle_parlay-IsVerdict}
use bookie_breaker_bookie_em.Core.Parlay.Dropped.{settle_parlay-drop, settle_parlay-combined}
use bookie_breaker_bookie_em.Tests.Data.{ten_thousandths, evens, odds_on}

settle_parlay-IsVerdict_example :
    (length (won ∷ push ∷ []) ≡ length (evens ∷ odds_on ∷ [])
      → (r : Option (Status × Fixed)) × (settle_parlay (won ∷ push ∷ []) (evens ∷ odds_on ∷ [])
          ≡ ok r)
        × IsVerdict (won ∷ push ∷ []) r
        × IsPrice (won ∷ push ∷ []) (evens ∷ odds_on ∷ []) r)
    × (length (won ∷ push ∷ []) ≢ length (evens ∷ odds_on ∷ [])
        → settle_parlay (won ∷ push ∷ []) (evens ∷ odds_on ∷ []) ≡ err value_error)
settle_parlay-IsVerdict_example = settle_parlay-IsVerdict (won ∷ push ∷ []) (evens ∷ odds_on ∷ [])

settle_parlay-drop_example :
    settle_parlay (won ∷ push ∷ lost ∷ []) (evens ∷ odds_on ∷ evens ∷ [])
    ≡ settle_parlay (won ∷ lost ∷ []) (evens ∷ evens ∷ [])
settle_parlay-drop_example =
    settle_parlay-drop push odds_on (won ∷ []) (lost ∷ []) (evens ∷ []) (evens ∷ []) refl refl

settle_parlay-combined_example :
    settle_parlay (won ∷ won ∷ []) (evens ∷ odds_on ∷ [])
    ≡ ok (some (won, ten_thousandths (pos 38_000)))
unfolding fixed_runs combined_decimal
settle_parlay-combined_example =
    settle_parlay-combined (won ∷ won ∷ []) (evens ∷ odds_on ∷ []) (ten_thousandths (pos 38_000))
      refl refl refl
