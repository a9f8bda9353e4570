-- ===== src/Api/Schemas.antt =====
-- The vocabularies of api/schemas.py.
pub mod Bets
pub mod Bankroll
pub mod Performance
pub mod Requests
use bookie_breaker_bookie_em.Base.{
  ◌≡◌, refl, Bool, Option, none, some, List, [], ◌∷◌, map, if◌then◌else◌,
}
use bookie_breaker_bookie_em.Domain.{Status, opened, won, lost, eq_status}
use bookie_breaker_bookie_em.Float.{Float, hundred_f}

-- ApiResult
pub data ApiResult : Type 0 where
  pending win loss push void : ApiResult

abbrev api_code : ApiResult → Status
api_code pending = opened
api_code win = won
api_code loss = lost
api_code ApiResult.push = Status.push
api_code ApiResult.void = Status.void

abbrev pub eq_result : ApiResult → ApiResult → Bool
eq_result a b = eq_status (api_code a) (api_code b)

-- DB_TO_API_RESULT, whose keys are all values of the enum
unfoldable pub db_to_api_result : Status → ApiResult
db_to_api_result opened = pending
db_to_api_result won = win
db_to_api_result lost = loss
db_to_api_result Status.push = ApiResult.push
db_to_api_result Status.void = ApiResult.void

abbrev db_values : List Status
db_values = opened ∷ won ∷ lost ∷ Status.push ∷ Status.void ∷ []

-- a lookup in a dict; a missing key is a KeyError
abbrev pub lookup_result : ApiResult → List (ApiResult × Status) → Option Status
lookup_result r [] = none
lookup_result r (p ∷ ps) = if eq_result r p.0 then some p.1 else lookup_result r ps

-- API_TO_DB_RESULT, the items of DB_TO_API_RESULT the other way round
unfoldable pub api_to_db_result : ApiResult → Option Status
unfolding db_to_api_result
api_to_db_result r = lookup_result r (map (λ db. (db_to_api_result db, db)) db_values)

-- Every value of the API stands for the one value of the database that is shown as it.
pub api_to_db_result_lem :
    (r : ApiResult) → (s : Status) × (api_to_db_result r ≡ some s) × (db_to_api_result s ≡ r)
unfolding api_to_db_result
api_to_db_result_lem pending = (opened, refl, refl)
api_to_db_result_lem win = (won, refl, refl)
api_to_db_result_lem loss = (lost, refl, refl)
api_to_db_result_lem ApiResult.push = (Status.push, refl, refl)
api_to_db_result_lem ApiResult.void = (Status.void, refl, refl)

module _ {W : Type 0} ⦃f : Float W⦄ where
  unfoldable pub edge_fraction_to_percent : W → W
  edge_fraction_to_percent fraction = f.mul fraction hundred_f
