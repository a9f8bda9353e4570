-- ===== src/Lib.antt =====
-- Verification library of the bookie emulator: paper bets on games are placed at captured odds, graded
-- from final scores and box scores, kept in a PostgreSQL schema with a bankroll derived from the grades,
-- and shown page by page and in performance reports. Paths below are relative to src/bookie_emulator of
-- the repository.
--
-- Parts and files
--   Base, Float    shared names, lists, texts, sorting and Python's dict; Python's floats are a
--                  parameter, a record of operations that includes sum() and int(), and theorems that
--                  need laws of IEEE arithmetic take them as the hypotheses HasSigns, HasOrder and
--                  HasTrunc. Float/Fixed is a fixed-point instance with a NaN for which they hold.
--   Domain         the enum types of db/tables.py.
--   Clients        the parsed answers of clients/lines.py and clients/statistics.py, and in
--                  Clients/Reconcile the matching of games with its cache (clients/reconcile.py), whose
--                  entries expire and whose calls of redis may raise. Http
--                  has the requests of both clients (clients/base.py).
--   Core           core/: Settlement (settlement.py), Grading (grading.py), Parlay (parlay.py), Odds
--                  (odds.py), Clv (clv.py), Slug and Props (prop_grading.py), Performance
--                  (performance.py, with Streaks, Bins, Breakdown and Metrics). Exceptions are values
--                  of Core/Errors, without their texts.
--   Db             db/: Rows has the rows of tables.py and the records of repository.py, Numeric the
--                  NUMERIC columns, which hold whole numbers of units; how a float becomes one is a
--                  parameter. A method of PaperBetRepository (Db/Repository) is a function from the
--                  database to a result and a new database: it commits as a whole or raises and
--                  changes nothing. Ledger has the filtered reads. Consistent states what the methods
--                  keep true, Reach closes it under every interleaving of transactions.
--   Services       services/grader.py: Action is the monad of a service call, which reads and writes
--                  the database, the list of published events and the reconciler's map of games in
--                  redis, and keeps what it committed when it raises. The answers of the other
--                  services during a call are the record Context. Grader has one module per method:
--                  Values and Single for _grade_one, Props, Legs, Game for grade_game, Manual for
--                  grade_manual. Bets is services/bets.py: Odds for the capture of odds, Legs for
--                  validate_parlay_legs, Price and Place for place_bet, Ticket, LegPrices and Parlay
--                  for place_parlay; the answers of the other services are the record Desk there.
--                  Poller, with the queries that may raise as an argument, Bankroll and Health are the
--                  files of these names.
--   Events         events/subscriber.py: the handler of an event calls grade_game, and the loop around
--                  it is the step relation LoopStep.
--   Api            api/: Schemas (schemas.py), Pagination, Errors and Routes, one module per file of
--                  api/routes; the two placements stand in Routes/Placement.
--   Process        what main.py puts together: requests, the subscriber and the poller on one database;
--                  Wiring gives the clients to the grader.
--   Tests          the theorems at concrete inputs.
--
-- Conventions: uuids and times are natural numbers (times are seconds), and the ids that the database
-- generates are taken from a counter of the state. Lists are walked by structural recursion. A client
-- that reads the whole ledger has fuel for one request more than there are bets, which is enough, and
-- the printing of a number n has n + 1 steps for its digits. A text of another service outside a
-- vocabulary is none. Parameters, besides the floats: base64 and JSON of a cursor, the JSON reader of an
-- event, the checks of pydantic on the answers of services, the names of months, days and ISO weeks,
-- the normalisation of names and the parsers of uuids and times.
--
-- Not modelled: the transport of HTTP, logging and telemetry, the environment and the start-up of
-- main.py, the meta of an envelope, the migrations (the tables are those of db/tables.py) and
-- performance_summaries, which nothing writes; the cancellation of a task, except in the subscriber's
-- loop. A failure of the database's driver is modelled where the code deals with it: in the queries of
-- the poller and in the health probe. The range of a NUMERIC column is checked for the values of a bet
-- and of a grade and for a snapshot's balance, not for its sums of stakes and of profits.
pub mod Base
pub mod Float
pub mod Domain
pub mod Clients
pub mod Core
pub mod Db
pub mod Services
pub mod Tests
pub mod Api
pub mod Events
pub mod Process
