-- ===== src/Api/Routes/Bets.antt =====
-- The reads of api/routes/bets.py and api/routes/parlays.py.
pub mod Pages
use bookie_breaker_bookie_em.Base.{
  ℕ, Bool, true, false, Option, none, some, List, map, String, last?, str_eq, if◌then◌else◌,
}
use bookie_breaker_bookie_em.Float.{Float}
use bookie_breaker_bookie_em.Domain.{Status, Market, League}
use bookie_breaker_bookie_em.Core.Errors.{Result, ok, err, not_found, unexpected, ◌>>=◌}
use bookie_breaker_bookie_em.Services.Bets.Price.{edge_percent_to_fraction}
use bookie_breaker_bookie_em.Api.Schemas.{ApiResult, api_to_db_result}
use bookie_breaker_bookie_em.Db.Numeric.{Numeric}
use bookie_breaker_bookie_em.Db.Rows.{Database, PaperBetRecord, BetGradeRecord}
use bookie_breaker_bookie_em.Db.Repository.Queries.{get_with_grade}
use bookie_breaker_bookie_em.Db.Repository.Inserts.{legs_for_bet}
use bookie_breaker_bookie_em.Db.Repository.Ledger.{LedgerFilters, Cursor, list_ledger}
use bookie_breaker_bookie_em.Api.Pagination.{Codec, encode_cursor, decode_cursor}
use bookie_breaker_bookie_em.Api.Schemas.Bets.{
  BetData, BetDetailData, ParlayDetailData, bet_to_data, bet_to_detail, parlay_to_detail,
}

-- the data and the pagination block of a PagedEnvelope
pub record Page (W : Type 0) : Type 0 where
  pub content : List (BetData W)
  pub limit : ℕ
  pub has_more : Bool
  pub next_cursor : Option String

-- The query parameters of GET /bets that filter. `as_utc` is the identity, since times are numbers.
pub record LedgerQuery (W : Type 0) : Type 0 where
  pub league : Option League
  pub market_type : Option Market
  pub result : Option ApiResult
  pub date_from : Option ℕ
  pub date_to : Option ℕ
  -- in percentage points
  pub min_edge : Option W
  pub is_parlay : Option Bool
  pub is_live : Option Bool
  pub status : String

abbrev pub or_key_error : Option Status → Result (Option Status)
or_key_error none = err unexpected
or_key_error (some s) = ok (some s)

-- `API_TO_DB_RESULT[result] if result is not None else None`
unfoldable pub result_filter : Option ApiResult → Result (Option Status)
unfolding api_to_db_result
result_filter none = ok none
result_filter (some r) = or_key_error (api_to_db_result r)

-- `None if status == "all" else status`
abbrev pub status_filter : String → Option String
status_filter status = if str_eq status "all" then none else some status

-- `decode_cursor(cursor) if cursor is not None else None`
abbrev pub given_cursor : Codec → Option String → Result (Option Cursor)
given_cursor c none = ok none
given_cursor c (some raw) = decode_cursor c raw >>= λ cursor. ok (some cursor)

module _ {W : Type 0} where
  -- the cursor of the last row, where more rows follow
  abbrev pub cursor_of_last :
      Codec → Bool → Option (PaperBetRecord W × Option (BetGradeRecord W)) → Option String
  cursor_of_last c false last = none
  cursor_of_last c true none = none
  cursor_of_last c true (some (bet, grade)) =
      some (encode_cursor c (record { placed_at = bet.placed_at; id = bet.id }))

module _ {W : Type 0} ⦃f : Float W⦄ ⦃n : Numeric W⦄ where
  unfoldable pub page_of :
      Codec → W → ℕ → List (PaperBetRecord W × Option (BetGradeRecord W)) × Bool → Page W
  unfolding encode_cursor bet_to_data
  page_of c unit_size_dollars limit (rows, has_more) = record {
    content = map (λ r. bet_to_data r.0 r.1 unit_size_dollars) rows;
    limit = limit;
    has_more = has_more;
    next_cursor = cursor_of_last c has_more (last? rows);
  }

  abbrev pub edge_filter : Option W → Option W
  edge_filter none = none
  edge_filter (some percent) = some (edge_percent_to_fraction percent)

  unfoldable pub filters_with : LedgerQuery W → Option Status → LedgerFilters W
  unfolding edge_percent_to_fraction
  filters_with q result = record {
    league = q.league;
    market_type = q.market_type;
    result = result;
    status = status_filter q.status;
    date_from = q.date_from;
    date_to = q.date_to;
    min_edge = edge_filter q.min_edge;
    graded_from = none;
    is_parlay = q.is_parlay;
    is_live = q.is_live;
  }

  abbrev pub query_filters : LedgerQuery W → Result (LedgerFilters W)
  query_filters q = result_filter q.result >>= λ result. ok (filters_with q result)

  -- GET /bets
  unfoldable pub list_bets :
      Codec → W → Database → LedgerQuery W → ℕ → Option String → Result (Page W)
  unfolding result_filter filters_with decode_cursor list_ledger page_of
  list_bets c unit_size_dollars db query limit raw = query_filters query >>= λ filters.
      given_cursor c raw >>= λ cursor.
      ok (page_of c unit_size_dollars limit (list_ledger filters limit cursor db))

  abbrev pub detail_or_raise :
      W → Option (PaperBetRecord W × Option (BetGradeRecord W)) → Result (BetDetailData W)
  detail_or_raise unit_size_dollars none = err not_found
  detail_or_raise unit_size_dollars (some (bet, grade)) =
      ok (bet_to_detail bet grade unit_size_dollars)

  unfoldable pub get_bet : W → Database → ℕ → Result (BetDetailData W)
  unfolding get_with_grade bet_to_detail
  get_bet unit_size_dollars db bet_id = detail_or_raise unit_size_dollars (get_with_grade bet_id db)

  -- a bet that is no parlay is not found either
  abbrev pub parlay_or_raise :
      W
      → ℕ
      → Database
      → Option (PaperBetRecord W × Option (BetGradeRecord W))
      → Result (ParlayDetailData W)
  parlay_or_raise unit_size_dollars bet_id db none = err not_found
  parlay_or_raise unit_size_dollars bet_id db (some (bet, grade)) =
      if bet.is_parlay
      then ok (parlay_to_detail bet grade (legs_for_bet bet_id db) unit_size_dollars)
      else err not_found

  unfoldable pub get_parlay : W → Database → ℕ → Result (ParlayDetailData W)
  unfolding get_with_grade parlay_to_detail
  get_parlay unit_size_dollars db bet_id =
      parlay_or_raise unit_size_dollars bet_id db (get_with_grade bet_id db)
