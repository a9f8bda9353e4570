-- ===== src/Api/Routes/Bets/Pages.antt =====
-- A client that follows next_cursor reads the whole ledger.
use mathlib.Core.Path.{subst}
use bookie_breaker_bookie_em.Base.{
  ℕ, zero, suc, ◌+◌, ◌≤◌, ◌<◌, ◌≡◌, refl, sym, ap, ◌∙◌, inl, inr, Bool, true, false, Option, none,
  some, List, [], filter, ◌∷◌, ◌++◌, map, String, ltb, length, take, drop, count, last?,
  take-append-drop, take-take, take_all, length-drop, length-take_lt, last?-snoc, last?-map,
  map-append, append_assoc, Bool-cases, Option-cases, arith,
}
use bookie_breaker_bookie_em.Base.Sorting.{IsStrict}
use bookie_breaker_bookie_em.Float.{Float}
use bookie_breaker_bookie_em.Core.Errors.{Result, ok, err, unexpected, ◌>>=◌}
use bookie_breaker_bookie_em.Db.Numeric.{Numeric}
use bookie_breaker_bookie_em.Db.Rows.{BetRow, Database}
use bookie_breaker_bookie_em.Db.Repository.Consistent.{IsConsistent}
use bookie_breaker_bookie_em.Db.Repository.Ledger.{
  LedgerFilters, Cursor, newest_first, is_after, filter_conditions, with_grade, ledger_rows,
  list_ledger,
}
use bookie_breaker_bookie_em.Db.Repository.Ledger.Laws.{
  cursor_at, filter-is_after, ledger_rows-some, ledger_rows-IsStrict, length-ledger_rows,
  count-ledger_rows,
}
use bookie_breaker_bookie_em.Api.Pagination.{
  Codec, IsCodec, encode_cursor, decode_cursor-encode_cursor,
}
use bookie_breaker_bookie_em.Api.Schemas.Bets.{BetData, bet_to_data}
use bookie_breaker_bookie_em.Api.Routes.Bets.{
  given_cursor, page_of, list_bets, LedgerQuery, result_filter, filters_with, query_filters,
}
use bookie_breaker_bookie_em.Api.Schemas.{ApiResult, db_to_api_result, api_to_db_result_lem}
use mathlib.Core.Option.{some-injective}
use bookie_breaker_bookie_em.Domain.{Status}

module _ {W : Type 0} where
  -- The client keeps a page's bets and asks for the next page, if there is one.
  unfoldable pub read_on :
      (String → Result (List (BetData W)))
      → List (BetData W)
      → Option String
      → Result (List (BetData W))
  read_on read content none = ok content
  read_on read content (some raw) = read raw >>= λ rest. ok (content ++ rest)

module _ {W : Type 0} ⦃f : Float W⦄ ⦃n : Numeric W⦄ where
  -- at most `fuel` requests
  unfoldable pub read_all :
      ℕ → Codec → W → Database → LedgerQuery W → ℕ → Option String → Result (List (BetData W))
  unfolding read_on list_bets
  read_all zero c unit_size_dollars db query limit raw = err unexpected
  read_all (suc fuel) c unit_size_dollars db query limit raw =
      list_bets c unit_size_dollars db query limit raw >>= λ page.
      read_on (λ next. read_all fuel c unit_size_dollars db query limit (some next)) page.content
        page.next_cursor

  -- rows of the database as the ledger shows them
  unfoldable pub shown : W → Database → List BetRow → List (BetData W)
  unfolding with_grade bet_to_data
  shown unit_size_dollars db rows =
      map (λ r. bet_to_data r.0 r.1 unit_size_dollars) (map (with_grade db) rows)

  shown-append :
      (u : W) (db : Database) (xs ys : List BetRow)
      → shown u db (xs ++ ys) ≡ shown u db xs ++ shown u db ys
  unfolding shown
  shown-append u db xs ys =
      ap (map (λ r. bet_to_data r.0 r.1 u)) (map-append (with_grade db) xs ys)
      ∙ map-append (λ r. bet_to_data r.0 r.1 u) (map (with_grade db) xs) (map (with_grade db) ys)

module _ {W : Type 0} ⦃f : Float W⦄ ⦃n : Numeric W⦄ {c : Codec} (codec : IsCodec c) (u : W)
    (db : Database) (query : LedgerQuery W) (filters : LedgerFilters W)
    (asked : query_filters query ≡ ok filters) where
  -- A page shows the first rows behind its cursor, and tells whether there are more.
  list_bets_page :
      (limit : ℕ) (raw : Option String) (cursor : Option Cursor) (rest : List BetRow)
      → given_cursor c raw ≡ ok cursor
      → ledger_rows filters cursor db ≡ rest
      → list_bets c u db query limit raw
        ≡ ok (page_of c u limit (map (with_grade db) (take limit rest), ltb limit (length rest)))
  unfolding list_bets list_ledger
  list_bets_page limit raw cursor rest given e =
      rw
        (asked, given, e, take-take limit (limit + 1) rest (omega arith), length-take_lt limit rest)
        refl

  -- The last page.
  read_last :
      (fuel limit : ℕ) (raw : Option String) (cursor : Option Cursor) (rest : List BetRow)
      → given_cursor c raw ≡ ok cursor
      → ledger_rows filters cursor db ≡ rest
      → ltb limit (length rest) ≡ false
      → read_all (suc fuel) c u db query limit raw ≡ ok (shown u db rest)
  unfolding read_all page_of shown
  read_last fuel limit raw cursor rest given e end =
      rw (list_bets_page limit raw cursor rest given e, end, take_all limit rest (ground arith))
        refl

  -- A page with another page behind it, whose cursor is the one of the page's last row.
  read_more :
      (fuel limit : ℕ) (raw : Option String) (cursor : Option Cursor) (rest : List BetRow)
      (back : BetRow)
      → given_cursor c raw ≡ ok cursor
      → ledger_rows filters cursor db ≡ rest
      → ltb limit (length rest) ≡ true
      → last? (take limit rest) ≡ some back
      → read_all (suc fuel) c u db query limit raw ≡ (
          read_all fuel c u db query limit (some (encode_cursor c (cursor_at back))) >>= λ more.
          ok (shown u db (take limit rest) ++ more))
  unfolding read_all page_of shown with_grade
  read_more fuel limit raw cursor rest back given e more last =
      rw
        (
          list_bets_page limit raw cursor rest given e,
          more,
          last?-map (with_grade db) (take limit rest) last,
        )
        refl

  given_encoded :
      (cursor : Cursor) → given_cursor c (some (encode_cursor c cursor)) ≡ ok (some cursor)
  given_encoded cursor = rw (decode_cursor-encode_cursor codec cursor) refl

  -- The rows behind the last row of a page are those that the page left.
  rows_behind :
      (front q : List BetRow) (back : BetRow) (rest : List BetRow)
      → IsStrict newest_first (ledger_rows filters none db)
      → ledger_rows filters none db ≡ front ++ ((q ++ back ∷ []) ++ rest)
      → ledger_rows filters (some (cursor_at back)) db ≡ rest
  rows_behind front q back rest strict e =
      ledger_rows-some filters db (cursor_at back)
      ∙ ap (filter (is_after (cursor_at back))) split
      ∙ filter-is_after (front ++ q) back rest (subst (IsStrict newest_first) split strict)
    where
      split : ledger_rows filters none db ≡ (front ++ q) ++ back ∷ rest
      split =
          e
          ∙ ap (λ r. front ++ r) (append_assoc q (back ∷ []) rest)
          ∙ sym (append_assoc front q (back ∷ rest))

  -- From any cursor, the pages together show the rows behind it.
  read_rest :
      (fuel k : ℕ) (raw : Option String) (cursor : Option Cursor) (front rest : List BetRow)
      → IsStrict newest_first (ledger_rows filters none db)
      → ledger_rows filters none db ≡ front ++ rest
      → given_cursor c raw ≡ ok cursor
      → ledger_rows filters cursor db ≡ rest
      → length rest < fuel
      → read_all fuel c u db query (suc k) raw ≡ ok (shown u db rest)
  read_rest zero k raw cursor front rest strict whole given e enough = absurd (omega arith)
  read_rest (suc fuel) k raw cursor front [] strict whole given e enough =
      read_last fuel (suc k) raw cursor [] given e (ground arith)
  read_rest (suc fuel) k raw cursor front (x ∷ xs) strict whole given e enough =
      elim (Bool-cases (ltb (suc k) (length (x ∷ xs)))) [
        | inr end ↦ read_last fuel (suc k) raw cursor (x ∷ xs) given e end
        | inl more ↦
            let (q, back, cut, last) = last?-snoc x (take k xs) in
            let parted : front ++ (x ∷ xs) ≡ front ++ ((q ++ back ∷ []) ++ drop k xs) =
              ap (λ r. front ++ r)
                (sym (take-append-drop (suc k) (x ∷ xs)) ∙ ap (λ r. r ++ drop k xs) cut) in
            let behind = rows_behind front q back (drop k xs) strict (whole ∙ parted) in
            read_more fuel (suc k) raw cursor (x ∷ xs) back given e more last
            ∙ rw
                (read_rest fuel k (some (encode_cursor c (cursor_at back))) (some (cursor_at back))
                  (front ++ take (suc k) (x ∷ xs)) (drop k xs) strict
                  (whole
                    ∙ sym (
                        append_assoc front (take (suc k) (x ∷ xs)) (drop k xs)
                        ∙ ap (λ r. front ++ r) (take-append-drop (suc k) (x ∷ xs))))
                  (given_encoded (cursor_at back)) behind (omega (arith, length-drop k xs)))
                (ap ok (
                  sym (shown-append u db (take (suc k) (x ∷ xs)) (drop k xs))
                  ∙ ap (shown u db) (take-append-drop (suc k) (x ∷ xs))))
      ]

module _ {W : Type 0} ⦃f : Float W⦄ ⦃n : Numeric W⦄ where
  -- Every query has filters: no lookup of a result fails, and the one found is shown as it.
  query_filters_found :
      (q : LedgerQuery W)
      → (filters : LedgerFilters W) × (query_filters q ≡ ok filters)
        × ((r : ApiResult)
            → q.result ≡ some r
            → (s : Status) × (filters.result ≡ some s) × (db_to_api_result s ≡ r))
  unfolding result_filter filters_with
  query_filters_found q = elim (Option-cases q.result) [
    | inl e ↦ (filters_with q none, rw e refl, λ r h. cc)
    | inr (r, e) ↦
        let (s, found, back) = api_to_db_result_lem r in
        (
          filters_with q (some s),
          rw (e, found) refl,
          λ r' h. (s, refl, back ∙ some-injective r r' (sym e ∙ h)),
        )
  ]

  -- A client that starts GET /bets without a cursor and follows next_cursor until there is none gets,
  -- in at most one request more than there are bets, the rows of the ledger, each with its grade,
  -- whatever the page size from 1 on. These are strictly ordered, the newest first, and are the bets
  -- that meet the filters of the query: any test counts as many of them. Conditions: the database is
  -- consistent and does not change between the requests, and the codec of the cursor reads back what
  -- it wrote.
  pub read_all-shown :
      {c : Codec}
      → IsCodec c
      → (u : W) (db : Database) (query : LedgerQuery W) (limit : ℕ) (p : BetRow → Bool) → 1 ≤ limit
      → IsConsistent db
      → (filters : LedgerFilters W) × (query_filters query ≡ ok filters)
        × (read_all (suc (length db.paper_bets)) c u db query limit none
            ≡ ok (shown u db (ledger_rows filters none db)))
        × IsStrict newest_first (ledger_rows filters none db)
        × (count p (ledger_rows filters none db)
            ≡ count p (filter (filter_conditions filters) db.paper_bets))
  read_all-shown codec u db query zero p pos_limit consistent = absurd (omega arith)
  read_all-shown codec u db query (suc k) p pos_limit consistent =
      let (filters, asked, _) = query_filters_found query in
      let strict = ledger_rows-IsStrict filters db consistent.unique_ids in
      (
        filters,
        asked,
        read_rest codec u db query filters asked (suc (length db.paper_bets)) k none none []
            (ledger_rows filters none db) strict refl refl refl
            (omega (arith, length-ledger_rows filters db)),
        strict,
        count-ledger_rows filters db p,
      )
