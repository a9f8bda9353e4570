-- ===== src/Core/Performance/Streaks/Longest.antt =====
-- streaks, against the runs in the settled statuses in the order of their grading.
use mathlib.Core.Path.{subst}
use mathlib.Core.List.{reverse, reverse_aux, reverse_aux-append, reverse_aux-eq, reverse-reverse}
use bookie_breaker_bookie_em.Base.{
  ℕ, zero, suc, ◌≤◌, ◌≡◌, refl, sym, ap, ◌∙◌, true, List, [], ◌∷◌, ◌++◌, map, filter_tests,
  if◌then◌else◌, arith,
}
use bookie_breaker_bookie_em.Base.Int.{ℤ, pos, sub_ℕ}
use bookie_breaker_bookie_em.Base.Sorting.{sort_by}
use bookie_breaker_bookie_em.Domain.{Status, opened, won, lost, push, void, eq_status}
use bookie_breaker_bookie_em.Core.Performance.{GradedBet, is_settled}
use bookie_breaker_bookie_em.Core.Performance.Streaks.{
  Run, no_run, run_loop, signed_run, graded_before, settled_statuses, streaks,
}
use bookie_breaker_bookie_em.Core.Performance.Streaks.Runs.{
  replicate, lead, best, best-replicate, best-splits, Fits, run_loop-Fits,
}

replicate-cons :
    (s : Status) (j : ℕ) (rest : List Status)
    → replicate j s ++ s ∷ rest ≡ s ∷ (replicate j s ++ rest)
replicate-cons s zero rest = refl
replicate-cons s (suc j) rest = ap (λ r. s ∷ r) (replicate-cons s j rest)

reverse-replicate :
    (s : Status) (j : ℕ) (rest : List Status)
    → reverse_aux (replicate j s) rest ≡ replicate j s ++ rest
reverse-replicate s zero rest = refl
reverse-replicate s (suc j) rest = reverse-replicate s j (s ∷ rest) ∙ replicate-cons s j rest

-- A run of a list is a run of the reversed list.
reverse_run :
    (a : List Status) (s : Status) (j : ℕ) (b : List Status)
    → reverse (a ++ (replicate j s ++ b)) ≡ reverse b ++ (replicate j s ++ reverse a)
reverse_run a s j b =
    reverse_aux-append a (replicate j s ++ b) []
    ∙ reverse_aux-append (replicate j s) b (reverse a)
    ∙ ap (reverse_aux b) (reverse-replicate s j (reverse a))
    ∙ reverse_aux-eq b (replicate j s ++ reverse a)

-- the run of the newest status, with the sign of a win or a loss
abbrev pub current : List Status → ℤ
current [] = pos 0
current (s ∷ ss) = if eq_status s won then pos (lead s (s ∷ ss)) else sub_ℕ 0 (lead s (s ∷ ss))

-- the component of the streaks that counts wins or losses
abbrev pub longest : Status → ℤ × ℕ × ℕ → ℕ
longest won r = r.1
longest _ r = r.2

signed_run-current : (r : Run) (seen : List Status) → Fits r seen → signed_run r ≡ current seen
signed_run-current r [] (run, status, wins, losses) = rw (status, run) refl
signed_run-current r (s ∷ ss) (run, status, wins, losses) = rw (status, run) (ground arith)

module _ {W : Type 0} (bets : List (GradedBet W)) where
  fits : Fits (run_loop no_run (settled_statuses bets)) (reverse (settled_statuses bets))
  unfolding settled_statuses
  fits =
      run_loop-Fits no_run (settled_statuses bets) []
        (filter_tests is_settled (map (λ b. b.status) (sort_by graded_before bets)))
        (refl, refl, refl, refl)

  longest-best :
      (s : Status)
      → is_settled s ≡ true
      → longest s (streaks bets) ≡ best s (reverse (settled_statuses bets))
  unfolding streaks
  longest-best won h = fits.2
  longest-best lost h = fits.3
  longest-best opened h = cc
  longest-best push h = cc
  longest-best void h = cc

  longest-reached :
      (s : Status)
      → is_settled s ≡ true
      → (a : List Status) × (b : List Status) × (settled_statuses bets
          ≡ a ++ (replicate (longest s (streaks bets)) s ++ b))
  longest-reached s h =
      let (a, b, e) = best-splits s (reverse (settled_statuses bets)) in
      (
        reverse b,
        reverse a,
        sym (reverse-reverse (settled_statuses bets))
            ∙ ap reverse e
            ∙ reverse_run a s (best s (reverse (settled_statuses bets))) b
            ∙ ap (λ k. reverse b ++ (replicate k s ++ reverse a)) (sym (longest-best s h)),
      )

  longest-bounds :
      (s : Status) (j : ℕ) (before after : List Status)
      → is_settled s ≡ true
      → settled_statuses bets ≡ before ++ (replicate j s ++ after)
      → j ≤ longest s (streaks bets)
  longest-bounds s j before after h e =
      subst (λ k. j ≤ k) (sym (longest-best s h))
        (subst (λ ss. j ≤ best s ss) (sym (ap reverse e ∙ reverse_run before s j after))
          (best-replicate s (reverse after) j (reverse before)))

  -- Take the WON and LOST statuses of any graded bets in the order of their grading. The longest win
  -- streak (and likewise the longest loss streak) is the length of a run of wins in this list, and no
  -- run of wins in it is longer. The current streak is the length of the run of equal statuses at the
  -- end of the list, positive for wins and negative for losses, and zero where the list is empty.
  -- Pushes and voids count for nothing.
  pub streaks_runs :
      (s : Status) (j : ℕ) (before after : List Status)
      → is_settled s ≡ true
      → settled_statuses bets ≡ before ++ (replicate j s ++ after)
      → (j ≤ longest s (streaks bets))
        × ((a : List Status) × (b : List Status) × (settled_statuses bets
              ≡ a ++ (replicate (longest s (streaks bets)) s ++ b)))
        × ((streaks bets).0 ≡ current (reverse (settled_statuses bets)))
  unfolding streaks
  streaks_runs s j before after h e = (
    longest-bounds s j before after h e,
    longest-reached s h,
    signed_run-current (run_loop no_run (settled_statuses bets)) (reverse (settled_statuses bets))
        fits,
  )
