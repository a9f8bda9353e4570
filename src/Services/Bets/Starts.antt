-- ===== src/Services/Bets/Starts.antt =====
-- The start of a parlay.
use bookie_breaker_bookie_em.Base.{
  ℕ, ◌≤◌, ◌≡◌, Bool, true, false, Option, none, some, List, [], ◌∷◌, ◌==◌, leb, any, All, All-map,
  arith, Bool-cases, inl, inr,
}
use bookie_breaker_bookie_em.Services.Bets.Ticket.{sooner, earliest}

abbrev pub NotBefore : ℕ → Option ℕ → Type 0
NotBefore t none = Unit
NotBefore t (some u) = t ≤ u

abbrev pub is_at : ℕ → Option ℕ → Bool
is_at t none = false
is_at t (some u) = t == u

abbrev pub IsNone : Option ℕ → Type 0
IsNone none = Unit
IsNone (some _) = ⊥

-- the least of the starts that are known
abbrev pub IsEarliest : List (Option ℕ) → Option ℕ → Type 0
IsEarliest starts none = All IsNone starts
IsEarliest starts (some t) = All (NotBefore t) starts × (any (is_at t) starts ≡ true)

NotBefore-none : (t : ℕ) (s : Option ℕ) → IsNone s → NotBefore t s
NotBefore-none t none h = tt
NotBefore-none t (some u) h = absurd h

NotBefore-trans : (t u : ℕ) → t ≤ u → (s : Option ℕ) → NotBefore u s → NotBefore t s
NotBefore-trans t u le none h = tt
NotBefore-trans t u le (some v) h = omega arith

later_none :
    (starts : List (Option ℕ)) (o : Option ℕ) → IsEarliest starts o → IsEarliest (none ∷ starts) o
later_none starts none h = (tt, h)
later_none starts (some t) (h, e) = ((tt, h), e)

later_some :
    (t : ℕ) (starts : List (Option ℕ)) (o : Option ℕ)
    → IsEarliest starts o
    → IsEarliest (some t ∷ starts) (sooner t o)
unfolding sooner
later_some t starts none h =
    ((omega arith, All-map IsNone (NotBefore t) (NotBefore-none t) starts h), ground arith)
later_some t starts (some u) (h, e) = elim (Bool-cases (leb t u)) [
  | inl first ↦ rw first (
    (
      omega arith,
      All-map (NotBefore u) (NotBefore t) (NotBefore-trans t u (ground arith)) starts h,
    ),
    ground arith,
  )
  | inr later ↦ rw later ((ground arith, h), ground arith)
]

-- `earliest` gives the least of the starts that are known, and none if there is none.
pub earliest-IsEarliest : (starts : List (Option ℕ)) → IsEarliest starts (earliest starts)
unfolding earliest
earliest-IsEarliest [] = tt
earliest-IsEarliest (none ∷ starts) =
    later_none starts (earliest starts) (earliest-IsEarliest starts)
earliest-IsEarliest (some t ∷ starts) =
    later_some t starts (earliest starts) (earliest-IsEarliest starts)
