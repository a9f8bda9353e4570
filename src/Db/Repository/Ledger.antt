-- ===== src/Db/Repository/Ledger.antt =====
-- The filtered reads of PaperBetRepository: the ledger, which is read page by page from a cursor, and
-- the graded bets of the performance endpoints.
pub mod Laws
use bookie_breaker_bookie_em.Base.{
  ℕ, ◌+◌, Bool, true, false, not, ◌&&◌, ◌||◌, Option, none, some, List, [], ◌∷◌, ◌++◌, map, ◌==◌,
  leb, ltb, filter, all, length, take, head?, String, str_eq, if◌then◌else◌,
}
use bookie_breaker_bookie_em.Base.Sorting.{sort_by}
use bookie_breaker_bookie_em.Domain.{
  Status, opened, Market, League, eq_status, eq_market, eq_league,
}
use bookie_breaker_bookie_em.Db.Numeric.{Numeric}
use bookie_breaker_bookie_em.Db.Rows.{
  BetRow, GradeRow, Database, PaperBetRecord, BetGradeRecord, bet_from_row, grade_from_row,
}
use bookie_breaker_bookie_em.Db.Repository.Grading.{is_open, grades_bet}

-- LedgerFilters; `none` does not filter
pub record LedgerFilters (W : Type 0) : Type 0 where
  pub league : Option League
  pub market_type : Option Market
  pub result : Option Status
  -- "open" or "graded"
  pub status : Option String
  pub date_from : Option ℕ
  pub date_to : Option ℕ
  pub min_edge : Option W
  pub graded_from : Option ℕ
  pub is_parlay : Option Bool
  pub is_live : Option Bool

-- Cursor of api/pagination.py
pub record Cursor : Type 0 where
  pub placed_at : ℕ
  pub id : ℕ

abbrev pub eq_bool : Bool → Bool → Bool
eq_bool true b = b
eq_bool false b = not b

-- a condition that stands only where the filter has a value
abbrev pub where_given {ℓ} : {A : Type ℓ} → Option A → (A → Bool) → Bool
where_given none test = true
where_given (some a) test = test a

-- `graded_at >= value`; NULL is not
abbrev pub is_from : Option ℕ → ℕ → Bool
is_from none value = false
is_from (some t) value = leb value t

abbrev pub has_status : BetRow → String → Bool
has_status b status =
    if str_eq status "open"
    then is_open b
    else if str_eq status "graded"
    then not (is_open b)
    else true

-- `placed_at DESC, id DESC`
abbrev pub newest_first : BetRow → BetRow → Bool
newest_first a b = ltb b.placed_at a.placed_at || (b.placed_at == a.placed_at && leb b.id a.id)

-- `(placed_at, id) < (cursor.placed_at, cursor.id)`
abbrev pub is_after : Cursor → BetRow → Bool
is_after c b = ltb b.placed_at c.placed_at || (b.placed_at == c.placed_at && ltb b.id c.id)

abbrev pub after_cursor : Option Cursor → BetRow → Bool
after_cursor none b = true
after_cursor (some c) b = is_after c b

-- `graded_at ASC`; NULL comes last
abbrev pub graded_le : Option ℕ → Option ℕ → Bool
graded_le s none = true
graded_le none (some t) = false
graded_le (some s) (some t) = leb s t

abbrev pub earliest_graded : BetRow × GradeRow → BetRow × GradeRow → Bool
earliest_graded a b = graded_le a.0.graded_at b.0.graded_at

-- the inner join
unfoldable pub joined_grades : Database → List BetRow → List (BetRow × GradeRow)
joined_grades db [] = []
joined_grades db (b ∷ bs) =
    map (λ g. (b, g)) (filter (grades_bet b.id) db.bet_grades) ++ joined_grades db bs

module _ {W : Type 0} ⦃n : Numeric W⦄ where
  -- `_filter_conditions`, all of which a row has to meet
  unfoldable pub filter_conditions : LedgerFilters W → BetRow → Bool
  filter_conditions filters b =
      all (λ c. c)
        (where_given filters.league (eq_league b.league)
          ∷ where_given filters.market_type (eq_market b.market_type)
          ∷ where_given filters.result (eq_status b.status)
          ∷ where_given filters.status (has_status b)
          ∷ where_given filters.date_from (λ t. leb t b.placed_at)
          ∷ where_given filters.date_to (λ t. leb b.placed_at t)
          ∷ where_given filters.min_edge (n.at_least 5 b.edge_at_placement)
          ∷ where_given filters.graded_from (is_from b.graded_at)
          ∷ where_given filters.is_parlay (eq_bool b.is_parlay)
          ∷ where_given filters.is_live (eq_bool b.is_live)
          ∷ [])

  -- `_grade_from_row`, whose id is NULL where the outer join found no grade
  unfoldable pub loaded_grade : Option GradeRow → Option (BetGradeRecord W)
  unfolding grade_from_row
  loaded_grade none = none
  loaded_grade (some g) = some (grade_from_row g)

  -- the outer join; a bet has one grade at most
  unfoldable pub with_grade : Database → BetRow → PaperBetRecord W × Option (BetGradeRecord W)
  unfolding bet_from_row loaded_grade
  with_grade db b = (bet_from_row b, loaded_grade (head? (filter (grades_bet b.id) db.bet_grades)))

  -- the rows that the statement returns, without its LIMIT
  unfoldable pub ledger_rows : LedgerFilters W → Option Cursor → Database → List BetRow
  unfolding filter_conditions
  ledger_rows filters cursor db =
      sort_by newest_first
        (filter (λ b. filter_conditions filters b && after_cursor cursor b) db.paper_bets)

  -- One row more than asked for shows whether another page follows.
  unfoldable pub list_ledger :
      LedgerFilters W
      → ℕ
      → Option Cursor
      → Database
      → List (PaperBetRecord W × Option (BetGradeRecord W)) × Bool
  unfolding with_grade ledger_rows
  list_ledger filters limit cursor db =
      let rows = take (limit + 1) (ledger_rows filters cursor db) in
      (map (with_grade db) (take limit rows), ltb limit (length rows))

  unfoldable pub graded_bets :
      LedgerFilters W → Database → List (PaperBetRecord W × BetGradeRecord W)
  unfolding filter_conditions joined_grades bet_from_row grade_from_row
  graded_bets filters db =
      map (λ p. (bet_from_row p.0, grade_from_row p.1))
        (sort_by earliest_graded (
          joined_grades db
            (filter (λ b. not (is_open b) && filter_conditions filters b) db.paper_bets)))
