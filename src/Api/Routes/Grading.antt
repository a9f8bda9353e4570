-- ===== src/Api/Routes/Grading.antt =====
-- POST /bets/{bet_id}/grade of api/routes/bets.py.
use bookie_breaker_bookie_em.Base.{ℕ, Bool, false, Option, none, some}
use bookie_breaker_bookie_em.Float.{Float}
use bookie_breaker_bookie_em.Db.Numeric.{Numeric}
use bookie_breaker_bookie_em.Services.Action.{Context, Action, pure, ◌>>=◌}
use bookie_breaker_bookie_em.Services.Grader.Manual.{grade_manual}
use bookie_breaker_bookie_em.Api.Schemas.Bets.{BetDetailData, bet_to_detail}

-- GradeRequest
pub record GradeRequest : Type 0 where
  pub force : Bool

-- `request.force if request is not None else False`
abbrev pub forced : Option GradeRequest → Bool
forced none = false
forced (some request) = request.force

module _ {W : Type 0} ⦃f : Float W⦄ ⦃n : Numeric W⦄ where
  unfoldable pub post_grade : Context W → W → ℕ → Option GradeRequest → Action W (BetDetailData W)
  unfolding grade_manual bet_to_detail
  post_grade c unit_size_dollars bet_id request =
      grade_manual c bet_id (forced request) >>= λ graded.
      pure (bet_to_detail graded.0 graded.1 unit_size_dollars)
