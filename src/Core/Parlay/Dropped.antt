-- ===== src/Core/Parlay/Dropped.antt =====
-- Legs that push or are void leave the parlay, and what is left is priced as placed.
use bookie_breaker_bookie_em.Base.{
  ◌≡◌, refl, ap, true, false, ◌||◌, some, List, [], ◌∷◌, ◌++◌, any, all, length, length-append,
  arith, ◌==◌,
}
use bookie_breaker_bookie_em.Domain.{Status, opened, won, lost, push, void, eq_status}
use bookie_breaker_bookie_em.Float.{Float}
use bookie_breaker_bookie_em.Core.Errors.{ok}
use bookie_breaker_bookie_em.Core.Parlay.{is_dropped, combined_decimal, won_decimals, settle_parlay}

any-drop :
    (s d : Status) (ss ts : List Status)
    → eq_status s d ≡ false
    → any (eq_status s) (ss ++ d ∷ ts) ≡ any (eq_status s) (ss ++ ts)
any-drop s d [] ts h = rw h
any-drop s d (x ∷ ss) ts h = ap (λ b. eq_status s x || b) (any-drop s d ss ts h)

all-drop :
    (d : Status) (ss ts : List Status)
    → is_dropped d ≡ true
    → all is_dropped (ss ++ d ∷ ts) ≡ all is_dropped (ss ++ ts)
all-drop d [] ts h = rw h
all-drop d (x ∷ ss) ts h = rw (all-drop d ss ts h)

any-all_won :
    (s : Status) (statuses : List Status)
    → eq_status s won ≡ false
    → all (eq_status won) statuses ≡ true
    → any (eq_status s) statuses ≡ false
any-all_won s [] n h = refl
any-all_won s (won ∷ ss) n h = rw (n, any-all_won s ss n h)
any-all_won s (_ ∷ ss) n h = cc

module _ {W : Type 0} ⦃f : Float W⦄ where
  won_decimals-drop :
      (d : Status) (x : W) (ss ts : List Status) (xs ys : List W)
      → is_dropped d ≡ true
      → length ss ≡ length xs
      → won_decimals (ss ++ d ∷ ts) (xs ++ x ∷ ys) ≡ won_decimals (ss ++ ts) (xs ++ ys)
  unfolding won_decimals
  won_decimals-drop push x [] ts [] ys h e = refl
  won_decimals-drop void x [] ts [] ys h e = refl
  won_decimals-drop _ x [] ts [] ys h e = cc
  won_decimals-drop d x [] ts (y ∷ xs) ys h e = absurd (omega arith)
  won_decimals-drop d x (s ∷ ss) ts [] ys h e = absurd (omega arith)
  won_decimals-drop d x (s ∷ ss) ts (y ∷ xs) ys h e =
      rw (won_decimals-drop d x ss ts xs ys h (omega arith))

  aligned-drop :
      (d : Status) (x : W) (ss ts : List Status) (xs ys : List W)
      → (length (ss ++ d ∷ ts) == length (xs ++ x ∷ ys)) ≡ (length (ss ++ ts) == length (xs ++ ys))
  aligned-drop d x ss ts xs ys = ground (
    arith,
    length-append ss (d ∷ ts),
    length-append xs (x ∷ ys),
    length-append ss ts,
    length-append xs ys,
  )

  drop_step :
      (d : Status) (x : W) (ss ts : List Status) (xs ys : List W)
      → is_dropped d ≡ true
      → eq_status opened d ≡ false
      → eq_status lost d ≡ false
      → length ss ≡ length xs
      → settle_parlay (ss ++ d ∷ ts) (xs ++ x ∷ ys) ≡ settle_parlay (ss ++ ts) (xs ++ ys)
  unfolding settle_parlay
  drop_step d x ss ts xs ys h o l e = rw (
    won_decimals-drop d x ss ts xs ys h e,
    any-drop opened d ss ts o,
    any-drop lost d ss ts l,
    all-drop d ss ts h,
    aligned-drop d x ss ts xs ys,
  )

  -- A leg that pushed or is void can be left out of the parlay, wherever it stands: the outcome and
  -- the price are the same.
  pub settle_parlay-drop :
      (d : Status) (x : W) (ss ts : List Status) (xs ys : List W)
      → is_dropped d ≡ true
      → length ss ≡ length xs
      → settle_parlay (ss ++ d ∷ ts) (xs ++ x ∷ ys) ≡ settle_parlay (ss ++ ts) (xs ++ ys)
  unfolding settle_parlay
  settle_parlay-drop push x ss ts xs ys h e = drop_step push x ss ts xs ys refl refl refl e
  settle_parlay-drop void x ss ts xs ys h e = drop_step void x ss ts xs ys refl refl refl e
  settle_parlay-drop _ x ss ts xs ys h e = cc

  won_decimals-all_won :
      (statuses : List Status) (decimals : List W)
      → all (eq_status won) statuses ≡ true
      → length statuses ≡ length decimals
      → won_decimals statuses decimals ≡ decimals
  unfolding won_decimals
  won_decimals-all_won [] [] h e = refl
  won_decimals-all_won [] (d ∷ ds) h e = absurd (omega arith)
  won_decimals-all_won (s ∷ ss) [] h e = absurd (omega arith)
  won_decimals-all_won (won ∷ ss) (d ∷ ds) h e = rw (won_decimals-all_won ss ds h (omega arith))
  won_decimals-all_won (_ ∷ ss) (d ∷ ds) h e = cc

  -- A parlay whose legs all WON pays the combined price of its legs.
  pub settle_parlay-combined :
      (statuses : List Status) (decimals : List W) (price : W)
      → all (eq_status won) statuses ≡ true
      → length statuses ≡ length decimals
      → combined_decimal decimals ≡ ok price
      → settle_parlay statuses decimals ≡ ok (some (won, price))
  unfolding settle_parlay combined_decimal
  settle_parlay-combined statuses [] price h e c = cc
  settle_parlay-combined [] (d ∷ ds) price h e c = absurd (omega arith)
  settle_parlay-combined (won ∷ ss) (d ∷ ds) price h e c = ground (
    arith,
    any-all_won opened ss refl h,
    any-all_won lost ss refl h,
    won_decimals-all_won (won ∷ ss) (d ∷ ds) h e,
  )
  settle_parlay-combined (_ ∷ ss) (d ∷ ds) price h e c = cc
