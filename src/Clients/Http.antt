-- ===== src/Clients/Http.antt =====
-- clients/base.py and the methods of the two clients: what a request of the HTTP library comes to. The
-- transport and the checks of pydantic are parameters.
use bookie_breaker_bookie_em.Base.{
  ℕ, ◌≡◌, ◌≢◌, ◌↔◌, ◌<◌, refl, ap, Bool, true, false, Option, none, some, List, [], ◌∷◌, ◌++◌, ◌==◌,
  leb, String, str_eq, ◌<>◌, show_ℕ, if◌then◌else◌, arith,
}
use bookie_breaker_bookie_em.Domain.{Market, moneyline, League, market_name, league_name}
use bookie_breaker_bookie_em.Clients.{LineSnapshot, BestLine, Game, BoxScore}
use bookie_breaker_bookie_em.Core.Errors.{
  Result, ok, err, not_found, dependency, dependency_timeout, unexpected, ok-injective, ◌>>=◌,
}

-- `response.json()`
pub data Body (J : Type 0) : Type 0 where
  -- not JSON, or a value in which "data" cannot be looked up
  unreadable : Body J
  no_data : Body J
  with_data : J → Body J

pub data Answer (J : Type 0) : Type 0 where
  -- httpx.TimeoutException
  timed_out : Answer J
  -- any other httpx.HTTPError
  http_error : Answer J
  response : ℕ → Body J → Answer J

abbrev pub Params : Type 0
Params = List (String × String)

-- a client with its base URL
abbrev pub Http : Type 0 → Type 0
Http J = String → Params → Answer J

module _ {J : Type 0} where
  abbrev pub data_of : Body J → Result J
  data_of unreadable = err unexpected
  data_of no_data = err dependency
  data_of (with_data d) = ok d

  unfoldable pub get_data : Answer J → Result J
  get_data timed_out = err dependency_timeout
  get_data http_error = err dependency
  get_data (response code body) =
      if code == 404 then err not_found else if leb 500 code then err dependency else data_of body

  unfoldable pub is_healthy : Answer J → Bool
  is_healthy timed_out = false
  is_healthy http_error = false
  is_healthy (response code body) = code == 200

  accepted :
      (a b : Bool) (x d : J)
      → ◌≡◌ {A = Result J} (if a then err not_found else if b then err dependency else ok x) (ok d)
      → (a ≡ false) × (b ≡ false) × (x ≡ d)
  accepted true b x d h = cc
  accepted false true x d h = cc
  accepted false false x d h = (refl, refl, ok-injective h)

  -- A request gives the data of an envelope, from an answer that is neither 404 nor 500 and above, and
  -- nothing else.
  pub get_data_iff :
      (a : Answer J) (d : J)
      → (get_data a ≡ ok d)
        ↔ ((code : ℕ) × (a ≡ response code (with_data d)) × (code ≢ 404) × (code < 500))
  unfolding get_data
  get_data_iff timed_out d = (λ h. cc, λ (code, e, _, _). cc)
  get_data_iff http_error d = (λ h. cc, λ (code, e, _, _). cc)
  get_data_iff (response code unreadable) d = (λ h. ground arith, λ (k, e, _, _). ground arith)
  get_data_iff (response code no_data) d = (λ h. ground arith, λ (k, e, _, _). ground arith)
  get_data_iff (response code (with_data x)) d = (
    λ h.
        let (found, served, same) = accepted (code == 404) (leb 500 code) x d h in
        (
          code,
          ap (λ y. response code (with_data y)) same,
          λ e. ground (arith, found, e),
          ground (arith, served),
        ),
    λ (k, e, found, served). ground (arith, e, found, served),
  )

-- the models that pydantic reads
pub record Models (J W : Type 0) : Type 0 where
  -- the items of a list
  pub items : J → Result (List J)
  pub line_snapshot : J → Result (LineSnapshot W)
  pub best_line : J → Result (BestLine W)
  pub game : J → Result Game
  pub box_score : J → Result BoxScore

module _ {A B : Type 0} where
  unfoldable pub read_each : (A → Result B) → List A → Result (List B)
  read_each read [] = ok []
  read_each read (x ∷ xs) = read x >>= λ y. read_each read xs >>= λ ys. ok (y ∷ ys)

-- `if value: params[name] = value`
abbrev pub given : String → Option String → Params
given name none = []
given name (some value) = if str_eq value "" then [] else (name, value) ∷ []

abbrev pub market_given : Option Market → Params
market_given none = []
market_given (some m) = ("market_type", market_name m) ∷ []

module _ {J W : Type 0} (http : Http J) (models : Models J W) where
  -- LinesClient, whose answers are lists
  abbrev pub read_lines : String → Params → Result (List (LineSnapshot W))
  read_lines path params = get_data (http path params) >>= λ content.
      models.items content >>= read_each models.line_snapshot

  unfoldable pub current_lines :
      League → Option String → Option Market → Option String → ℕ → Result (List (LineSnapshot W))
  unfolding get_data read_each
  current_lines league game_id market_type date limit = read_lines "/api/v1/lines/current" (
      ("league", league_name league)
      ∷ ("limit", show_ℕ limit)
      ∷ (given "game_id" game_id ++ market_given market_type ++ given "date" date))

  unfoldable pub game_lines : String → Option Market → Result (List (LineSnapshot W))
  unfolding get_data read_each
  game_lines id market_type = read_lines ("/api/v1/lines/game/" <> id) (market_given market_type)

  unfoldable pub best_lines : String → Option Market → Result (List (BestLine W))
  unfolding get_data read_each
  best_lines id market_type =
      get_data (http ("/api/v1/lines/game/" <> id <> "/best") (market_given market_type))
      >>= λ content. models.items content >>= read_each models.best_line

  unfoldable pub closing_lines : String → Option Market → Result (List (LineSnapshot W))
  unfolding get_data read_each
  closing_lines id market_type =
      read_lines ("/api/v1/lines/game/" <> id <> "/closing") (market_given market_type)

  -- StatisticsClient
  unfoldable pub get_game : String → Result Game
  unfolding get_data
  get_game game_id = get_data (http ("/api/v1/stats/games/" <> game_id) []) >>= models.game

  unfoldable pub get_box_score : String → Result BoxScore
  unfolding get_data
  get_box_score game_id =
      get_data (http ("/api/v1/stats/games/" <> game_id <> "/box-score") []) >>= models.box_score

  -- the query of the reconciler
  abbrev pub moneylines_on : League → Option String → Result (List (LineSnapshot W))
  moneylines_on league date = current_lines league none (some moneyline) date 200
