-- ===== src/Process/Keeps.antt =====
-- What the process keeps, whatever it does.
use mathlib.Core.Path.{subst}
use bookie_breaker_bookie_em.Base.{ℕ, ◌+◌, ◌≡◌, refl, sym, Bool, String, map}
use bookie_breaker_bookie_em.Float.{Float}
use bookie_breaker_bookie_em.Core.Errors.{Result, ok, err}
use bookie_breaker_bookie_em.Db.Numeric.{Numeric}
use bookie_breaker_bookie_em.Db.Rows.{PaperBetRecord}
use bookie_breaker_bookie_em.Db.Repository.Consistent.{IsConsistent}
use bookie_breaker_bookie_em.Db.Repository.Consistent.Once.{IsGraded, Reach-IsGraded}
use bookie_breaker_bookie_em.Db.Repository.Consistent.Reach.{
  Reach, here, next, placed, placed_parlay, Reach-IsConsistent,
}
use bookie_breaker_bookie_em.Services.Action.{World, Action, bind_result, ◌>>=◌}
use bookie_breaker_bookie_em.Services.Grader.Commits.{trans, >>=-Commits}
use bookie_breaker_bookie_em.Services.Grader.ByHand.{grade_manual-Commits}
use bookie_breaker_bookie_em.Services.Grader.Manual.{grade_manual}
use bookie_breaker_bookie_em.Services.Bets.Odds.{Desk}
use bookie_breaker_bookie_em.Services.Bets.Price.{PlaceBetRequest}
use bookie_breaker_bookie_em.Services.Bets.Ticket.{PlaceParlayRequest}
use bookie_breaker_bookie_em.Services.Bets.Place.{place_bet}
use bookie_breaker_bookie_em.Services.Bets.Parlay.{Placed, place_parlay}
use bookie_breaker_bookie_em.Services.Bets.Remaps.{db-Remaps}
use bookie_breaker_bookie_em.Services.Bets.Funded.{place_bet_funded, place_bet_raises}
use bookie_breaker_bookie_em.Services.Bets.Committed.{place_parlay_funded, place_parlay_raises}
use bookie_breaker_bookie_em.Services.Poller.{poll_cycle}
use bookie_breaker_bookie_em.Events.Subscriber.{handle}
use bookie_breaker_bookie_em.Services.Poller.Sweep.{run_once-Commits}
use bookie_breaker_bookie_em.Events.Subscriber.Safe.{handle-Reach}
use bookie_breaker_bookie_em.Api.Schemas.Requests.{valid_bet, valid_parlay}
use bookie_breaker_bookie_em.Api.Routes.Placement.{
  bet_response, post_bet, parlay_response, post_parlay,
}
use bookie_breaker_bookie_em.Api.Routes.Grading.{forced, post_grade}
use bookie_breaker_bookie_em.Process.{
  Activity, bet_posted, parlay_posted, grade_posted, event_received, polled, time_passed, Runs,
  idle, then_does,
}

module _ {W : Type 0} ⦃f : Float W⦄ ⦃n : Numeric W⦄ (starting : W) where
  place_bet-Reach :
      (c : Desk W) (request : PlaceBetRequest W) (key : String) (w : World W)
      → Reach W starting w.db (place_bet c request key w).1.db
  place_bet-Reach c request key w = cases (place_bet c request key w) refl
    where
      cases :
          (p : Result (PaperBetRecord W × Bool) × World W)
          → place_bet c request key w ≡ p
          → Reach W starting w.db p.1.db
      cases (ok result, w') h =
          let (_, _, values, _, inserted) = place_bet_funded c request key w w' result h in
          next here (placed w.next_id w.clock values result inserted)
      cases (err e, w') h =
          subst (λ d. Reach W starting w.db d)
            (sym (db-Remaps (place_bet_raises c request key e w w' h))) here

  place_parlay-Reach :
      (c : Desk W) (request : PlaceParlayRequest W) (key : String) (w : World W)
      → Reach W starting w.db (place_parlay c request key w).1.db
  place_parlay-Reach c request key w = cases (place_parlay c request key w) refl
    where
      cases :
          (p : Result (Placed W) × World W)
          → place_parlay c request key w ≡ p
          → Reach W starting w.db p.1.db
      cases (ok result, w') h =
          let (_, _, _, legs, values, _, _, _, inserted) =
            place_parlay_funded c request key w w' result h in
          next here (
            placed_parlay w.next_id (w.next_id + 1) w.clock values (map (λ p. p.values) legs) result
              inserted)
      cases (err e, w') h =
          subst (λ d. Reach W starting w.db d)
            (sym (db-Remaps (place_parlay_raises c request key e w w' h))) here

  -- A check before, and an answer after, commit nothing.
  around-Reach :
      {A B : Type 0} (checked : Result (Unit {0})) (m : Action W A) (answer : A → Action W B)
      (w : World W)
      → ((a : A) (u : World W) → (answer a u).1.db ≡ u.db)
      → Reach W starting w.db (m w).1.db
      → Reach W starting w.db (bind_result checked (λ _. m >>= answer) w).1.db
  around-Reach (err e) m answer w same h = here
  around-Reach {A = A} {B = B} (ok _) m answer w same h = after (m w) h
    where
      after :
          (p : Result A × World W)
          → Reach W starting w.db p.1.db
          → Reach W starting w.db (bind_result p.0 answer p.1).1.db
      after (ok a, u) k = subst (λ d. Reach W starting w.db d) (sym (same a u)) k
      after (err e, u) k = k

  Activity-Reach : {w v : World W} → Activity starting w v → Reach W starting w.db v.db
  unfolding post_bet post_parlay post_grade poll_cycle
  Activity-Reach (bet_posted w c u request key) =
      around-Reach (valid_bet request) (place_bet c request key) (bet_response u) w (λ a v. refl)
        (place_bet-Reach c request key w)
  Activity-Reach (parlay_posted w c u request key) =
      around-Reach (valid_parlay request) (place_parlay c request key) (parlay_response u) w
        (λ a v. refl) (place_parlay-Reach c request key w)
  Activity-Reach (grade_posted w c u bet_id request e) =
      subst (λ s. Reach W s w.db (post_grade c u bet_id request w).1.db) e
        (>>=-Commits c (grade_manual c bet_id (forced request)) _
          (grade_manual-Commits c bet_id (forced request)) (λ _ _. here) w)
  Activity-Reach (event_received w c read raw e) =
      subst (λ s. Reach W s w.db (handle c read raw w).db) e (handle-Reach read c raw w)
  Activity-Reach (polled w c grace queried e) =
      subst (λ s. Reach W s w.db (poll_cycle c grace queried w).db) e
        (run_once-Commits c grace queried w)
  Activity-Reach (time_passed w t) = here

  pub Runs-Reach : {w v : World W} → Runs starting w v → Reach W starting w.db v.db
  Runs-Reach idle = here
  Runs-Reach (then_does r a) = trans (Runs-Reach r) (Activity-Reach a)

  -- Whatever requests, events and polls the process handles, in whatever order, a consistent database
  -- stays consistent, and a bet that is graded stays graded.
  pub Runs-keeps :
      {w v : World W} (i : ℕ)
      → Runs starting w v
      → IsConsistent w.db
      → IsGraded i w.db
      → IsConsistent v.db × IsGraded i v.db
  Runs-keeps i r h g =
      (Reach-IsConsistent W starting h (Runs-Reach r), Reach-IsGraded starting i g (Runs-Reach r))
