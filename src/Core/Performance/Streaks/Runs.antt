-- ===== src/Core/Performance/Streaks/Runs.antt =====
-- The streaks are runs of one status: which run is the current one, and that the longest is reached
-- and not exceeded.
use mathlib.Core.List.{reverse_aux}
use bookie_breaker_bookie_em.Base.{
  ℕ, zero, suc, ◌≤◌, ◌≡◌, refl, ap, Bool, true, false, List, [], ◌∷◌, ◌++◌, head?, All, ltb,
  if◌then◌else◌, arith, inl, inr, Bool-cases,
}
use bookie_breaker_bookie_em.Domain.{Status, opened, won, lost, push, void, eq_status}
use bookie_breaker_bookie_em.Core.Performance.{is_settled}
use bookie_breaker_bookie_em.Core.Performance.Streaks.{Run, max, run_on, step_run, run_loop}

abbrev pub replicate {ℓ} : {A : Type ℓ} → ℕ → A → List A
replicate zero x = []
replicate (suc n) x = x ∷ replicate n x

-- the length of the run with which a list begins
abbrev pub lead : Status → List Status → ℕ
lead s [] = 0
lead s (t ∷ ts) = if eq_status t s then suc (lead s ts) else 0

-- the length of the longest run
abbrev pub best : Status → List Status → ℕ
best s [] = 0
best s (t ∷ ts) = max (best s ts) (lead s (t ∷ ts))

-- the run of the first status of a list
abbrev pub first_run : List Status → ℕ
first_run [] = 0
first_run (s ∷ ss) = lead s (s ∷ ss)

eq_status-eq : (s t : Status) → eq_status s t ≡ true → s ≡ t
eq_status-eq opened opened h = refl
eq_status-eq opened won h = cc
eq_status-eq opened lost h = cc
eq_status-eq opened push h = cc
eq_status-eq opened void h = cc
eq_status-eq won opened h = cc
eq_status-eq won won h = refl
eq_status-eq won lost h = cc
eq_status-eq won push h = cc
eq_status-eq won void h = cc
eq_status-eq lost opened h = cc
eq_status-eq lost won h = cc
eq_status-eq lost lost h = refl
eq_status-eq lost push h = cc
eq_status-eq lost void h = cc
eq_status-eq push opened h = cc
eq_status-eq push won h = cc
eq_status-eq push lost h = cc
eq_status-eq push push h = refl
eq_status-eq push void h = cc
eq_status-eq void opened h = cc
eq_status-eq void won h = cc
eq_status-eq void lost h = cc
eq_status-eq void push h = cc
eq_status-eq void void h = refl

eq_status_comm : (s t : Status) → eq_status s t ≡ eq_status t s
eq_status_comm s t = ground arith

pub eq_status_refl : (s : Status) → eq_status s s ≡ true
eq_status_refl s = ground arith

lead-replicate : (s : Status) (j : ℕ) (rest : List Status) → j ≤ lead s (replicate j s ++ rest)
lead-replicate s zero rest = omega arith
lead-replicate s (suc j) rest = rw (eq_status_refl s) (omega (arith, lead-replicate s j rest))

lead-le-best : (s : Status) (ss : List Status) → lead s ss ≤ best s ss
lead-le-best s [] = omega arith
lead-le-best s (t ∷ ts) = ground arith

-- No run is longer than the best.
pub best-replicate :
    (s : Status) (a : List Status) (j : ℕ) (b : List Status)
    → j ≤ best s (a ++ (replicate j s ++ b))
best-replicate s [] j b = omega (arith, lead-replicate s j b, lead-le-best s (replicate j s ++ b))
best-replicate s (x ∷ a) j b = ground (arith, best-replicate s a j b)

lead-splits :
    (s : Status) (ss : List Status) → (b : List Status) × (ss ≡ replicate (lead s ss) s ++ b)
lead-splits s [] = ([], refl)
lead-splits s (t ∷ ts) = split (eq_status t s) (eq_status-eq t s) (lead-splits s ts)
  where
    split :
        (same : Bool)
        → (same ≡ true → t ≡ s)
        → (b : List Status) × (ts ≡ replicate (lead s ts) s ++ b)
        → (b : List Status) × (t ∷ ts ≡ replicate (if same then suc (lead s ts) else 0) s ++ b)
    split true e (b, h) = (b, cc (e refl))
    split false e (b, h) = (t ∷ ts, refl)

-- The best run stands somewhere in the list.
pub best-splits :
    (s : Status) (ss : List Status)
    → (a : List Status) × (b : List Status) × (ss ≡ a ++ (replicate (best s ss) s ++ b))
best-splits s [] = ([], [], refl)
best-splits s (t ∷ ts) =
    longer (ltb (best s ts) (lead s (t ∷ ts))) (lead-splits s (t ∷ ts)) (best-splits s ts)
  where
    longer :
        (more : Bool)
        → (b : List Status) × (t ∷ ts ≡ replicate (lead s (t ∷ ts)) s ++ b)
        → (a : List Status) × (b : List Status) × (ts ≡ a ++ (replicate (best s ts) s ++ b))
        → (a : List Status) × (b : List Status) × (t ∷ ts
            ≡ a ++ (replicate (if more then lead s (t ∷ ts) else best s ts) s ++ b))
    longer true (b, h) rest = ([], b, h)
    longer false here (a, b, h) = (t ∷ a, b, ap (λ r. t ∷ r) h)

-- What the loop's variables hold when it has seen these statuses, the last one first.
abbrev pub Fits : Run → List Status → Type 0
Fits r seen =
    (r.run ≡ first_run seen)
    × (r.run_status ≡ head? seen)
    × (r.longest_win ≡ best won seen)
    × (r.longest_loss ≡ best lost seen)

run_on-lead :
    (r : Run) (s : Status) (seen : List Status)
    → r.run ≡ first_run seen
    → r.run_status ≡ head? seen
    → run_on r s ≡ suc (lead s seen)
run_on-lead r s [] e h = rw h refl
run_on-lead r s (t ∷ ts) e h = elim (Bool-cases (eq_status s t)) [
  | inl same ↦ rw (h, same) (omega (arith, e, ap (λ x. lead x (t ∷ ts)) (eq_status-eq s t same)))
  | inr other ↦ rw (h, other, eq_status_comm t s, other) (omega arith)
]

first_run-cons : (s : Status) (ss : List Status) → first_run (s ∷ ss) ≡ suc (lead s ss)
first_run-cons s ss = rw (eq_status_refl s) refl

-- A win (a loss) extends no run of losses (wins).
step_run-Fits :
    (r : Run) (s : Status) (seen : List Status)
    → is_settled s ≡ true
    → Fits r seen
    → Fits (step_run r s) (s ∷ seen)
unfolding step_run
step_run-Fits r won seen h (run, status, wins, losses) =
    let on = run_on-lead r won seen run status in
    (on, refl, ground (arith, on, wins), ground (arith, losses))
step_run-Fits r lost seen h (run, status, wins, losses) =
    let on = run_on-lead r lost seen run status in
    (on, refl, ground (arith, wins), ground (arith, on, losses))
step_run-Fits r opened seen h k = cc
step_run-Fits r push seen h k = cc
step_run-Fits r void seen h k = cc

-- The loop ends with the variables that fit the statuses it has gone through.
pub run_loop-Fits :
    (r : Run) (ss seen : List Status)
    → All (λ s. is_settled s ≡ true) ss
    → Fits r seen
    → Fits (run_loop r ss) (reverse_aux ss seen)
unfolding run_loop
run_loop-Fits r [] seen h k = k
run_loop-Fits r (s ∷ ss) seen (first, h) k =
    run_loop-Fits (step_run r s) ss (s ∷ seen) h (step_run-Fits r s seen first k)
