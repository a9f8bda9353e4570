-- ===== src/Services/Bets/Games.antt =====
-- Which games of statistics-service take bets, and which id their lines have.
use bookie_breaker_bookie_em.Base.{
  ℕ, ◌<◌, ◌≡◌, refl, ap, ◌⊎◌, Bool, true, false, Option, none, some, String, str_eq, is_blank,
  eq_iff, arith, Bool-cases, inl, inr,
}
use bookie_breaker_bookie_em.Clients.{Game}
use bookie_breaker_bookie_em.Clients.Reconcile.{resolve}
use bookie_breaker_bookie_em.Core.Errors.{Result, ok, err, not_found, ok-injective}
use bookie_breaker_bookie_em.Services.Action.{World}
use bookie_breaker_bookie_em.Services.Grader.Manual.{found_or_unprocessable}
use bookie_breaker_bookie_em.Services.Bets.Odds.{Desk}
use bookie_breaker_bookie_em.Services.Bets.Price.{
  is_open_for_betting, has_started, given_or_resolved, matched, reconcile,
}

-- The bet's game takes bets: a live bet needs a game that is SCHEDULED or IN_PROGRESS, another one a
-- SCHEDULED game whose start, where it is known, lies ahead.
abbrev pub NotStarted : ℕ → Option ℕ → Type 0
NotStarted now none = Unit
NotStarted now (some start_at) = now < start_at

abbrev pub TakesBets : Bool → ℕ → String → Option ℕ → Type 0
TakesBets is_live now status start_at =
    ((is_live ≡ true) × ((status ≡ "SCHEDULED") ⊎ (status ≡ "IN_PROGRESS")))
    ⊎ ((is_live ≡ false) × (status ≡ "SCHEDULED") × NotStarted now start_at)

not_started :
    (now : ℕ) (start_at : Option ℕ) → has_started now start_at ≡ false → NotStarted now start_at
not_started now none h = tt
not_started now (some start_at) h = ground arith

pub takes_bets :
    (is_live : Bool) (now : ℕ) (status : String) (start_at : Option ℕ)
    → is_open_for_betting is_live now status start_at ≡ true
    → TakesBets is_live now status start_at
unfolding is_open_for_betting
takes_bets true now status start_at h = inl (
  refl,
  elim (Bool-cases (str_eq status "SCHEDULED")) [
    | inl scheduled ↦ inl ((eq_iff status "SCHEDULED").0 scheduled)
    | inr other ↦ inr ((eq_iff status "IN_PROGRESS").0 (ground (arith, h, other)))
  ],
)
takes_bets false now status start_at h = inr (
  refl,
  (eq_iff status "SCHEDULED").0 (ground (arith, h)),
  not_started now start_at (ground (arith, h)),
)

pub found_ok : {A : Type 0} (r : Result A) (a : A) → found_or_unprocessable r ≡ ok a → r ≡ ok a
found_ok (ok x) a h = h
found_ok (err not_found) a h = cc
found_ok (err _) a h = cc

pub matched_ok : (o : Option String) (x : String) → matched o ≡ ok x → o ≡ some x
matched_ok none x h = cc
matched_ok (some y) x h = ap some (ok-injective h)

module _ {W : Type 0} where
  -- the id of a request, or else what the reconciler finds
  abbrev pub IsIdOf : Desk W → Game → Option String → World W → String → Type 0
  IsIdOf c game given w external_id =
      ((is_blank given ≡ false) × (given ≡ some external_id))
      ⊎ ((is_blank given ≡ true)
          × ((resolve c.lookup game w.clock w.game_map).0 ≡ ok (some external_id)))

  pub id_of :
      (c : Desk W) (game : Game) (given : Option String) (w : World W) (external_id : String)
      → (given_or_resolved c game given w).0 ≡ ok (some external_id)
      → IsIdOf c game given w external_id
  unfolding given_or_resolved reconcile
  id_of c game given w external_id h = elim (Bool-cases (is_blank given)) [
    | inl blank ↦ inr (blank, rw blank at h)
    | inr full ↦ inl (full, ok-injective (rw full at h))
  ]
