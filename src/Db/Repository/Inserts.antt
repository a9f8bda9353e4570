-- ===== src/Db/Repository/Inserts.antt =====
-- PaperBetRepository.insert_idempotent and insert_parlay.
use bookie_breaker_bookie_em.Base.{
  ℕ, suc, Bool, true, false, not, ◌&&◌, ◌||◌, Option, none, some, List, [], ◌∷◌, ◌++◌, map, ◌==◌,
  leb, filter, any, str_eq, String, if◌then◌else◌, head?,
}
use bookie_breaker_bookie_em.Base.Int.{ℤ, pos, ltb_ℤ}
use bookie_breaker_bookie_em.Domain.{opened}
use bookie_breaker_bookie_em.Core.Errors.{Result, ok, err, unexpected, ◌>>=◌, ◌>>◌, raise_if}
use bookie_breaker_bookie_em.Db.Numeric.{Numeric}
use bookie_breaker_bookie_em.Db.Rows.{
  BetRow, LegRow, Database, PaperBetRecord, ParlayLegRecord, bet_from_row, leg_from_row,
}
use bookie_breaker_bookie_em.Db.Values.{BetValues, LegValues}

-- A value that a column refuses is an exception of the database.
abbrev pub column {ℓ} : {A : Type ℓ} → Option A → Result A
column none = err unexpected
column (some a) = ok a

-- The check constraints of paper_bets; the probabilities count units of 10^-5.
unfoldable pub satisfies_checks : BetRow → Bool
satisfies_checks row =
    ltb_ℤ (pos 0) row.stake
    && ltb_ℤ (pos 0) row.predicted_probability
    && ltb_ℤ row.predicted_probability (pos 100_000)
    && ltb_ℤ (pos 0) row.edge_at_placement
    && not (ltb_ℤ row.kelly_fraction (pos 0))
    && not (ltb_ℤ (pos 100_000) row.kelly_fraction)

-- `ORDER BY leg_index ASC`
unfoldable pub insert_leg : LegRow → List LegRow → List LegRow
insert_leg l [] = l ∷ []
insert_leg l (m ∷ ms) = if leb l.leg_index m.leg_index then l ∷ m ∷ ms else m ∷ insert_leg l ms

unfoldable pub sort_legs : List LegRow → List LegRow
unfolding insert_leg
sort_legs [] = []
sort_legs (l ∷ ls) = insert_leg l (sort_legs ls)

module _ {W : Type 0} ⦃n : Numeric W⦄ where
  unfoldable pub opt_column : ℕ → Option W → Result (Option ℤ)
  opt_column scale none = ok none
  opt_column scale (some x) = do a ← column (n.stored scale x); ok (some a)

  -- The row of an INSERT: the values, a new id, and the server's defaults.
  unfoldable pub bet_row : ℕ → ℕ → BetValues W → Result BetRow
  unfolding opt_column
  bet_row id now v = do
    line_value ← opt_column 2 v.line_value
    odds_decimal ← column (n.stored 4 v.odds_decimal)
    stake ← column (n.stored 4 v.stake)
    predicted_probability ← column (n.stored 5 v.predicted_probability)
    edge_at_placement ← column (n.stored 5 v.edge_at_placement)
    kelly_fraction ← column (n.stored 5 v.kelly_fraction)
    ok (record {
      id = id;
      game_id = v.game_id;
      game_external_id = v.game_external_id;
      league = v.league;
      market_type = v.market_type;
      selection = v.selection;
      side = v.side;
      line_value = line_value;
      player_external_id = v.player_external_id;
      stat_type = v.stat_type;
      prop_type = v.prop_type;
      is_parlay = v.is_parlay;
      is_live = v.is_live;
      sportsbook_id = v.sportsbook_id;
      sportsbook_key = v.sportsbook_key;
      odds_american = v.odds_american;
      odds_decimal = odds_decimal;
      stake = stake;
      predicted_probability = predicted_probability;
      edge_at_placement = edge_at_placement;
      kelly_fraction = kelly_fraction;
      reasoning = v.reasoning;
      prediction_id = v.prediction_id;
      edge_id = v.edge_id;
      idempotency_key = v.idempotency_key;
      game_start_at = v.game_start_at;
      status = opened;
      placed_at = now;
      graded_at = none;
    })

  unfoldable pub leg_row : ℕ → ℕ → LegValues W → Result LegRow
  unfolding opt_column
  leg_row id bet_id v = do
    line_value ← opt_column 2 v.line_value
    odds_decimal ← column (n.stored 4 v.odds_decimal)
    ok (record {
      id = id;
      bet_id = bet_id;
      leg_index = v.leg_index;
      game_id = v.game_id;
      game_external_id = v.game_external_id;
      league = v.league;
      market_type = v.market_type;
      selection = v.selection;
      side = v.side;
      line_value = line_value;
      player_external_id = v.player_external_id;
      stat_type = v.stat_type;
      prop_type = v.prop_type;
      odds_american = v.odds_american;
      odds_decimal = odds_decimal;
      leg_status = opened;
    })

-- `WHERE idempotency_key = key`
unfoldable pub with_key : String → List BetRow → Option BetRow
with_key key rows = head? (filter (λ b. str_eq b.idempotency_key key) rows)

-- INSERT ... ON CONFLICT (idempotency_key) DO NOTHING RETURNING: the new row, or `none` on a
-- conflict. The checks come first; a taken id is an error.
unfoldable pub insert_bet : BetRow → Database → Result (Option BetRow × Database)
insert_bet row db = do
  raise_if (not (satisfies_checks row)) unexpected
  elim (with_key row.idempotency_key db.paper_bets) [
    | some _ ↦ ok (none, db)
    | none ↦
        raise_if (any (λ b. b.id == row.id) db.paper_bets) unexpected
        >> ok (some row, record db { paper_bets = db.paper_bets ++ row ∷ [] })
  ]

-- the unique constraints of parlay_legs
abbrev pub clashes : LegRow → LegRow → Bool
clashes l m = (l.id == m.id) || (l.bet_id == m.bet_id && l.leg_index == m.leg_index)

unfoldable pub insert_legs : List LegRow → Database → Result Database
insert_legs [] db = ok db
insert_legs (l ∷ ls) db =
    let rest = insert_legs ls (record db { parlay_legs = db.parlay_legs ++ l ∷ [] }) in
    if any (clashes l) db.parlay_legs then err unexpected else rest

module _ {W : Type 0} ⦃n : Numeric W⦄ where
  -- `.one()` on the row that holds the key of a replay
  abbrev pub one_row : Option BetRow → Result (PaperBetRecord W)
  one_row none = err unexpected
  one_row (some row) = ok (bet_from_row row)

  -- The record of the new row, or of the one that holds the key.
  unfoldable pub returned :
      String → Option BetRow × Database → Result ((PaperBetRecord W × Bool) × Database)
  returned key (some created, db) = ok ((bet_from_row created, true), db)
  returned key (none, db) = do bet ← one_row (with_key key db.paper_bets); ok ((bet, false), db)

  unfoldable pub insert_idempotent :
      ℕ → ℕ → BetValues W → Database → Result ((PaperBetRecord W × Bool) × Database)
  insert_idempotent id now values db = do
    row ← bet_row id now values
    inserted ← insert_bet row db
    returned values.idempotency_key inserted

  unfoldable pub legs_for_bet : ℕ → Database → List (ParlayLegRecord W)
  unfolding sort_legs leg_from_row
  legs_for_bet bet_id db =
      map leg_from_row (sort_legs (filter (λ l. l.bet_id == bet_id) db.parlay_legs))

  -- `{**values, "bet_id": parent.id}` for each leg, with the ids first, first + 1, ...
  unfoldable pub leg_rows : ℕ → ℕ → List (LegValues W) → Result (List LegRow)
  unfolding leg_row
  leg_rows first bet_id [] = ok []
  leg_rows first bet_id (v ∷ vs) = do
    l ← leg_row first bet_id v
    ls ← leg_rows (suc first) bet_id vs
    ok (l ∷ ls)

  -- The legs follow the parent only if the parent is new.
  unfoldable pub with_legs :
      ℕ
      → String
      → List (LegValues W)
      → Option BetRow × Database
      → Result ((PaperBetRecord W × List (ParlayLegRecord W) × Bool) × Database)
  with_legs first key leg_values (some created, db) = do
    legs ← leg_rows first created.id leg_values
    db' ← insert_legs legs db
    ok ((bet_from_row created, map leg_from_row (sort_legs legs), true), db')
  with_legs first key leg_values (none, db) = do
    parent ← one_row (with_key key db.paper_bets)
    ok ((parent, legs_for_bet parent.id db, false), db)

  unfoldable pub insert_parlay :
      ℕ
      → ℕ
      → ℕ
      → BetValues W
      → List (LegValues W)
      → Database
      → Result ((PaperBetRecord W × List (ParlayLegRecord W) × Bool) × Database)
  insert_parlay id first_leg_id now parent_values leg_values db = do
    row ← bet_row id now parent_values
    inserted ← insert_bet row db
    with_legs first_leg_id parent_values.idempotency_key leg_values inserted

-- What a test unfolds to run the inserts.
unfoldable pub inserts_run : Unit {0}
unfolding insert_idempotent insert_parlay returned with_legs bet_row leg_rows insert_bet insert_legs
    bet_from_row leg_from_row legs_for_bet satisfies_checks with_key
inserts_run = tt
