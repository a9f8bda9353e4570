-- ===== src/Services/Bets/Distinct.antt =====
-- What validate_parlay_legs admits.
use bookie_breaker_bookie_em.Base.{◌≡◌, refl, false, List, [], ◌∷◌, ◌++◌, any, arith}
use bookie_breaker_bookie_em.Core.Errors.{ok, unprocessable, raise_if, ◌>>◌, >>=-eq-ok}
use bookie_breaker_bookie_em.Services.Bets.Legs.{
  ParlayLegRequest, check_leg, same_key, validate_from, validate_parlay_legs,
}

-- A leg with valid terms, and no leg of the list before it with its key.
abbrev pub IsAdmitted : List ParlayLegRequest → ParlayLegRequest → Type 0
IsAdmitted before leg = (check_leg leg ≡ ok tt) × (any (same_key leg) before ≡ false)

step :
    (seen legs : List ParlayLegRequest) (leg : ParlayLegRequest)
    → validate_from seen (leg ∷ legs) ≡ ok tt
    → (check_leg leg ≡ ok tt)
      × (any (same_key leg) seen ≡ false)
      × (validate_from (leg ∷ seen) legs ≡ ok tt)
unfolding validate_from
step seen legs leg h =
    let (_, terms, distinct) =
      >>=-eq-ok (check_leg leg)
        (λ _. raise_if (any (same_key leg) seen) unprocessable >> validate_from (leg ∷ seen) legs)
        h in
    let (_, fresh, rest) =
      >>=-eq-ok (raise_if (any (same_key leg) seen) unprocessable)
        (λ _. validate_from (leg ∷ seen) legs) distinct in
    (terms, ground arith, rest)

admits :
    (seen before : List ParlayLegRequest) (leg : ParlayLegRequest) (after : List ParlayLegRequest)
    → validate_from seen (before ++ leg ∷ after) ≡ ok tt
    → IsAdmitted before leg × (any (same_key leg) seen ≡ false)
admits seen [] leg after h = let (terms, fresh, _) = step seen after leg h in ((terms, refl), fresh)
admits seen (b ∷ before) leg after h =
    let (_, _, rest) = step seen (before ++ leg ∷ after) b h in
    let ((terms, fresh), unseen) = admits (b ∷ seen) before leg after rest in
    ((terms, ground arith), ground arith)

-- Every leg of a parlay that passes the validation has valid terms, and no earlier leg has the same
-- game, market, player and statistic.
pub validate_parlay_legs-IsAdmitted :
    (before : List ParlayLegRequest) (leg : ParlayLegRequest) (after : List ParlayLegRequest)
    → validate_parlay_legs (before ++ leg ∷ after) ≡ ok tt
    → IsAdmitted before leg
unfolding validate_parlay_legs
validate_parlay_legs-IsAdmitted before leg after h = (admits [] before leg after h).0
