-- ===== src/Db/Repository/Ledger/Laws.antt =====
-- The order of the ledger: newest first, without ties where ids are unique, so that a cursor cuts it
-- in two.
use bookie_breaker_bookie_em.Base.{
  ℕ, ◌≤◌, ◌≡◌, refl, sym, ap, ◌∙◌, Bool, true, false, ◌&&◌, none, some, List, [], ◌∷◌, ◌++◌, filter,
  count, length, All, count-filter-le, length-filter-le, filter-All, filter-filter, arith,
}
use bookie_breaker_bookie_em.Base.Sorting.{sort_by, IsUntied, IsStrict, IsOrder}
use bookie_breaker_bookie_em.Base.Sorting.Laws.{
  filter-sort_by, sort_by-IsStrict, length-sort_by, count-sort_by,
}
use mathlib.Core.Path.{fun_ext}
use bookie_breaker_bookie_em.Db.Numeric.{Numeric}
use bookie_breaker_bookie_em.Db.Rows.{BetRow, Database}
use bookie_breaker_bookie_em.Db.Repository.Consistent.{has_id}
use bookie_breaker_bookie_em.Db.Repository.Ledger.{
  LedgerFilters, Cursor, newest_first, is_after, filter_conditions, ledger_rows,
}

newest_first_trans :
    (a b c : BetRow) → newest_first a b ≡ true → newest_first b c ≡ true → newest_first a c ≡ true
newest_first_trans a b c h k = ground arith

newest_first_total : (a b : BetRow) → newest_first a b ≡ false → newest_first b a ≡ true
newest_first_total a b h = ground arith

pub newest_first-IsOrder : IsOrder newest_first
newest_first-IsOrder = record { trans = newest_first_trans; total = newest_first_total }

-- A row whose id no row of a list has is tied with none of them.
untied_head :
    (b : BetRow) (bs : List BetRow)
    → count (has_id b.id) bs ≡ 0
    → All (λ c. (newest_first b c && newest_first c b) ≡ false) bs
untied_head b [] h = tt
untied_head b (c ∷ bs) h = (ground arith, untied_head b bs (ground arith))

-- Rows with unique ids are untied.
pub unique-IsUntied :
    (bs : List BetRow) → ((i : ℕ) → count (has_id i) bs ≤ 1) → IsUntied newest_first bs
unique-IsUntied [] h = tt
unique-IsUntied (b ∷ bs) h =
    (untied_head b bs (ground (arith, h b.id)), unique-IsUntied bs (λ i. ground (arith, h i)))

abbrev pub cursor_at : BetRow → Cursor
cursor_at b = record { placed_at = b.placed_at; id = b.id }

is_after_strict : (b c : BetRow) → newest_first c b ≡ false → is_after (cursor_at b) c ≡ true
is_after_strict b c h = ground arith

not_after_strict : (b c : BetRow) → newest_first c b ≡ false → is_after (cursor_at c) b ≡ false
not_after_strict b c h = ground arith

not_after_self : (b : BetRow) → is_after (cursor_at b) b ≡ false
not_after_self b = ground arith

after-All :
    (b : BetRow) (bs : List BetRow)
    → All (λ c. newest_first c b ≡ false) bs
    → All (λ c. is_after (cursor_at b) c ≡ true) bs
after-All b [] h = tt
after-All b (c ∷ bs) (e, h) = (is_after_strict b c e, after-All b bs h)

-- The cursor of a row of a strictly sorted list leaves exactly the rows behind it.
pub filter-is_after :
    (front : List BetRow) (b : BetRow) (rest : List BetRow)
    → IsStrict newest_first (front ++ b ∷ rest)
    → filter (is_after (cursor_at b)) (front ++ b ∷ rest) ≡ rest
filter-is_after [] b rest (first, h) =
    rw (not_after_self b) (filter-All (is_after (cursor_at b)) rest (after-All b rest first))
filter-is_after (a ∷ front) b rest (first, h) =
    rw (not_after_strict a b (member front first)) (filter-is_after front b rest h)
  where
    member :
        (bs : List BetRow)
        → All (λ c. newest_first c a ≡ false) (bs ++ b ∷ rest)
        → newest_first b a ≡ false
    member [] (e, k) = e
    member (c ∷ bs) (e, k) = member bs k

module _ {W : Type 0} ⦃n : Numeric W⦄ (filters : LedgerFilters W) (db : Database) where
  -- The rows behind a cursor are those rows of the whole ledger that come after it.
  pub ledger_rows-some :
      (c : Cursor)
      → ledger_rows filters (some c) db ≡ filter (is_after c) (ledger_rows filters none db)
  unfolding ledger_rows
  ledger_rows-some c = sym (
      filter-sort_by newest_first-IsOrder (is_after c) (filter kept db.paper_bets)
      ∙ ap (sort_by newest_first) (filter-filter kept (is_after c) db.paper_bets)
      ∙ ap (λ p. sort_by newest_first (filter p db.paper_bets))
          (fun_ext (λ b. both (filter_conditions filters b) (is_after c b))))
    where
      kept : BetRow → Bool
      kept b = filter_conditions filters b && true

      both : (x y : Bool) → ((x && true) && y) ≡ (x && y)
      both true y = refl
      both false y = refl

  -- The whole ledger is strictly sorted where ids are unique.
  pub ledger_rows-IsStrict :
      ((i : ℕ) → count (has_id i) db.paper_bets ≤ 1)
      → IsStrict newest_first (ledger_rows filters none db)
  unfolding ledger_rows
  ledger_rows-IsStrict unique =
      sort_by-IsStrict newest_first-IsOrder
        (filter (λ b. filter_conditions filters b && true) db.paper_bets)
        (unique-IsUntied (filter (λ b. filter_conditions filters b && true) db.paper_bets) (λ i.
          omega (
            arith,
            count-filter-le (has_id i) (λ b. filter_conditions filters b && true) db.paper_bets,
            unique i,
          )))

  pub length-ledger_rows : length (ledger_rows filters none db) ≤ length db.paper_bets
  unfolding ledger_rows
  length-ledger_rows = omega (
    arith,
    length-sort_by newest_first (filter (λ b. filter_conditions filters b && true) db.paper_bets),
    length-filter-le (λ b. filter_conditions filters b && true) db.paper_bets,
  )

  -- The ledger without a cursor is the bets that meet the filters, in another order.
  pub count-ledger_rows :
      (p : BetRow → Bool)
      → count p (ledger_rows filters none db)
        ≡ count p (filter (filter_conditions filters) db.paper_bets)
  unfolding ledger_rows
  count-ledger_rows p =
      count-sort_by newest_first p (filter (λ b. filter_conditions filters b && true) db.paper_bets)
      ∙ ap (λ test. count p (filter test db.paper_bets))
          (fun_ext (λ b. and_true (filter_conditions filters b)))
    where
      and_true : (b : Bool) → (b && true) ≡ b
      and_true true = refl
      and_true false = refl
