-- ===== src/Core/Clv/Closing.antt =====
-- The choice of match_closing_line.
use bookie_breaker_bookie_em.Base.{
  ◌≡◌, refl, sym, ◌⊎◌, Bool, true, false, Option, none, some, List, [], ◌∷◌, String, str_eq, filter,
  any, head?, All, Bool-cases, inl, inr, if◌then◌else◌,
}
use bookie_breaker_bookie_em.Domain.{Market, Side}
use bookie_breaker_bookie_em.Clients.{LineSnapshot}
use bookie_breaker_bookie_em.Float.{Float, HasSigns, HasOrder}
use bookie_breaker_bookie_em.Core.Clv.{
  is_candidate, distance, nearest, nearest_of, match_closing_line,
}

module _ {W : Type 0} ⦃f : Float W⦄ (signs : HasSigns W) (order : HasOrder W) where
  irrefl : (x : W) → f.lt x x ≡ false
  irrefl x = elim (Bool-cases (f.lt x x)) [ inl below ↦ signs.lt_asym x x below | inr h ↦ h ]

  -- What does not undercut an element does not undercut one that undercuts it.
  undercut : (t b s : W) → f.lt t b ≡ false → f.lt s b ≡ true → f.lt t s ≡ false
  undercut t b s h below = elim (Bool-cases (f.lt t s)) [
    | inl lower ↦ cc (order.lt_le_trans t s b lower (order.lt-le s b below))
    | inr level ↦ level
  ]

  module _ (line_value : Option W) where
    abbrev NotBelow : LineSnapshot W → LineSnapshot W → Type 0
    NotBelow best t = f.lt (distance line_value t) (distance line_value best) ≡ false

    nearest-keeps :
        (best t : LineSnapshot W) (ss : List (LineSnapshot W))
        → NotBelow best t
        → NotBelow (nearest line_value best ss) t
    unfolding nearest
    nearest-keeps best t [] h = h
    nearest-keeps best t (s ∷ ss) h =
        elim (Bool-cases (f.lt (distance line_value s) (distance line_value best))) [
          | inl below ↦ rw below (
              nearest-keeps s t ss (
                undercut (distance line_value t) (distance line_value best) (distance line_value s)
                  h below))
          | inr level ↦ rw level (nearest-keeps best t ss h)
        ]

    nearest-min :
        (best : LineSnapshot W) (ss : List (LineSnapshot W))
        → All (NotBelow (nearest line_value best ss)) ss
    unfolding nearest
    nearest-min best [] = tt
    nearest-min best (s ∷ ss) = (first, nearest-min chosen ss)
      where
        chosen : LineSnapshot W
        chosen = if f.lt (distance line_value s) (distance line_value best) then s else best

        first : NotBelow (nearest line_value chosen ss) s
        first = elim (Bool-cases (f.lt (distance line_value s) (distance line_value best))) [
          | inl below ↦ rw below (nearest-keeps s s ss (irrefl (distance line_value s)))
          | inr level ↦ rw level (nearest-keeps best s ss level)
        ]

module _ {W : Type 0} ⦃f : Float W⦄ where
  nearest-test :
      (p : LineSnapshot W → Bool) (line_value : Option W) (best : LineSnapshot W)
      (ss : List (LineSnapshot W))
      → p best ≡ true
      → All (λ s. p s ≡ true) ss
      → p (nearest line_value best ss) ≡ true
  unfolding nearest
  nearest-test p line_value best [] h hs = h
  nearest-test p line_value best (s ∷ ss) h (hp, hs) =
      elim (Bool-cases (f.lt (distance line_value s) (distance line_value best))) [
        | inl below ↦ rw below (nearest-test p line_value s ss hp hs)
        | inr level ↦ rw level (nearest-test p line_value best ss h hs)
      ]

module _ {W : Type 0} where
  filter-tests :
      (p : LineSnapshot W → Bool) (xs : List (LineSnapshot W)) → All (λ s. p s ≡ true) (filter p xs)
  filter-tests p [] = tt
  filter-tests p (x ∷ xs) = elim (Bool-cases (p x)) [
    | inl kept ↦ rw kept (kept, filter-tests p xs)
    | inr skipped ↦ rw skipped (filter-tests p xs)
  ]

  -- the first element that a filter keeps
  head-cases :
      (p q : LineSnapshot W → Bool) (xs : List (LineSnapshot W))
      → All (λ s. q s ≡ true) xs
      → ((head? (filter p xs) ≡ none) × (any p xs ≡ false))
        ⊎ ((s : LineSnapshot W) × (head? (filter p xs) ≡ some s) × (p s ≡ true) × (q s ≡ true))
  head-cases p q [] h = inl (refl, refl)
  head-cases p q (x ∷ xs) (hx, h) = elim (Bool-cases (p x)) [
    | inl kept ↦ rw kept (inr (x, refl, kept, hx))
    | inr skipped ↦ rw skipped (head-cases p q xs h)
  ]

module _ {W : Type 0} ⦃f : Float W⦄ (lines : List (LineSnapshot W)) (market : Market)
    (side : Option Side) (book : String) (line_value : Option W) where
  abbrev pub candidates : List (LineSnapshot W)
  candidates = filter (is_candidate market side) lines

  -- what the choice must be
  abbrev pub IsClosing : Option (LineSnapshot W) → Type 0
  IsClosing none = candidates ≡ []
  IsClosing (some s) =
      (is_candidate market side s ≡ true)
      × ((str_eq s.sportsbook_key book ≡ true)
          ⊎ ((any (λ t. str_eq t.sportsbook_key book) candidates ≡ false)
              × All (λ t. f.lt (distance line_value t) (distance line_value s) ≡ false) candidates))

  nearest_of-IsClosing :
      HasSigns W
      → HasOrder W
      → (ss : List (LineSnapshot W)) → ss ≡ candidates
      → All (λ s. is_candidate market side s ≡ true) ss
      → any (λ t. str_eq t.sportsbook_key book) candidates ≡ false
      → IsClosing (nearest_of line_value ss)
  nearest_of-IsClosing signs order [] e h no_book = sym e
  nearest_of-IsClosing signs order (s ∷ ss) e (hs, h) no_book = (
    nearest-test (is_candidate market side) line_value s ss hs h,
    inr (
      no_book,
      rw (← e) (
        nearest-keeps signs order line_value s s ss (irrefl signs order (distance line_value s)),
        nearest-min signs order line_value s ss,
      ),
    ),
  )

  -- The closing line offers the bet's market and side. It is the bet's own sportsbook's, if that
  -- book offers them; otherwise no line that offers them is nearer to the bet's line. There is no
  -- closing line exactly when no line offers them.
  pub match_closing_line_lem :
      HasSigns W → HasOrder W → IsClosing (match_closing_line lines market side book line_value)
  unfolding match_closing_line
  match_closing_line_lem signs order =
      elim (head-cases (λ t. str_eq t.sportsbook_key book) (is_candidate market side) candidates
        (filter-tests (is_candidate market side) lines)) [
          | inl (nothing, no_book) ↦ rw nothing (
              nearest_of-IsClosing signs order candidates refl
                (filter-tests (is_candidate market side) lines) no_book)
          | inr (s, found, same_book, candidate) ↦ rw found (candidate, inl same_book)
        ]
