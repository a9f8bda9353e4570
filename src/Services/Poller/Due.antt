-- ===== src/Services/Poller/Due.antt =====
-- Which games a cycle of the poller asks about.
use bookie_breaker_bookie_em.Base.{
  ℕ, ◌≡◌, refl, ap, ◌∙◌, inl, inr, Bool, true, false, not, ◌&&◌, ◌||◌, Option, List, [], ◌∷◌, ◌++◌,
  map, filter, any, count, ◌==◌, leb, Option-cases, if◌then◌else◌, Bool-cases, arith,
}
use bookie_breaker_bookie_em.Db.Rows.{BetRow, LegRow, Database}
use bookie_breaker_bookie_em.Db.Repository.Grading.{is_open}
use bookie_breaker_bookie_em.Db.Repository.Queries.{
  eq_opt, started_before, catalogue, distinct, leg_is_open, parent_started,
  open_game_ids_started_before, open_parlay_leg_game_ids_started_before,
}
use bookie_breaker_bookie_em.Services.Poller.{due_game_ids}

abbrev is_id : ℕ → ℕ → Bool
is_id k j = j == k

-- Dropping other numbers keeps the count of one.
count-filter_other :
    (k x : ℕ) (xs : List ℕ)
    → count (is_id k) (filter (λ y. not (y == x)) xs) ≡ (if x == k then 0 else count (is_id k) xs)
count-filter_other k x [] = ground arith
count-filter_other k x (y ∷ ys) = ground (arith, count-filter_other k x ys)

-- A set holds a number once or not at all.
count-distinct :
    (k : ℕ) (xs : List ℕ) → count (is_id k) (distinct xs) ≡ (if any (is_id k) xs then 1 else 0)
unfolding distinct
count-distinct k [] = refl
count-distinct k (x ∷ xs) =
    ground (arith, count-filter_other k x (distinct xs), count-distinct k xs)

any-append {ℓ} :
    {A : Type ℓ} (p : A → Bool) (xs ys : List A) → any p (xs ++ ys) ≡ (any p xs || any p ys)
any-append p [] ys = refl
any-append p (x ∷ xs) ys = ground (arith, any-append p xs ys)

any-count {ℓ} : {A : Type ℓ} (p : A → Bool) (xs : List A) → any p xs ≡ leb 1 (count p xs)
any-count p [] = refl
any-count p (x ∷ xs) = ground (arith, any-count p xs)

any-distinct : (k : ℕ) (xs : List ℕ) → any (is_id k) (distinct xs) ≡ any (is_id k) xs
any-distinct k xs =
    any-count (is_id k) (distinct xs) ∙ ap (leb 1) (count-distinct k xs) ∙ once (any (is_id k) xs)
  where
    once : (b : Bool) → leb 1 (if b then 1 else 0) ≡ b
    once true = refl
    once false = refl

module _ {A : Type 0} (id_of : A → Option ℕ) (p : A → Bool) where
  any-catalogue :
      (k : ℕ) (xs : List A)
      → any (is_id k) (catalogue (map id_of (filter p xs)))
        ≡ any (λ x. p x && eq_opt k (id_of x)) xs
  any-catalogue k [] = refl
  any-catalogue k (x ∷ xs) = elim (Bool-cases (p x)) [
    | inr e ↦ rw e (any-catalogue k xs)
    | inl e ↦ elim (Option-cases (id_of x)) [
      | inl h ↦ rw (e, h) (any-catalogue k xs)
      | inr (j, h) ↦ rw (e, h) (ap (λ r. (j == k) || r) (any-catalogue k xs))
    ]
  ]

-- An OPEN bet, or an OPEN leg, on the game, whose bet starts before the cutoff.
abbrev pub is_due : ℕ → ℕ → Database → Bool
is_due k cutoff db =
    any (λ b. (is_open b && started_before cutoff b.game_start_at) && eq_opt k b.game_id)
      db.paper_bets
    || any (λ l. (leg_is_open l && parent_started cutoff db.paper_bets l) && eq_opt k l.game_id)
        db.parlay_legs

-- A cycle asks about a game exactly once where a bet that is OPEN, or an OPEN leg of a parlay, is on
-- the game and its bet's start lies before the cutoff, and otherwise not at all.
pub due_game_ids_once :
    (k cutoff : ℕ) (db : Database)
    → count (λ j. j == k) (due_game_ids cutoff db) ≡ (if is_due k cutoff db then 1 else 0)
unfolding due_game_ids open_game_ids_started_before open_parlay_leg_game_ids_started_before
due_game_ids_once k cutoff db =
    count-distinct k (distinct bet_games ++ distinct leg_games)
    ∙ ap (λ b. if b then 1 else 0)
        (any-append (is_id k) (distinct bet_games) (distinct leg_games)
          ∙ ap (λ r. r || any (is_id k) (distinct leg_games))
              (any-distinct k bet_games ∙ any-catalogue (λ b. b.game_id) bet_due k db.paper_bets)
          ∙ ap (λ r. any (λ b. bet_due b && eq_opt k b.game_id) db.paper_bets || r)
              (any-distinct k leg_games ∙ any-catalogue (λ l. l.game_id) leg_due k db.parlay_legs))
  where
    bet_due : BetRow → Bool
    bet_due b = is_open b && started_before cutoff b.game_start_at

    leg_due : LegRow → Bool
    leg_due l = leg_is_open l && parent_started cutoff db.paper_bets l

    bet_games : List ℕ
    bet_games = catalogue (map (λ b. b.game_id) (filter bet_due db.paper_bets))

    leg_games : List ℕ
    leg_games = catalogue (map (λ l. l.game_id) (filter leg_due db.parlay_legs))
