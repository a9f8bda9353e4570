-- ===== src/Db/Repository/Consistent/Placed.antt =====
-- insert_idempotent and insert_parlay: consistency, and what a replay returns.
use bookie_breaker_bookie_em.Base.{
  ℕ, ◌≡◌, refl, ◌⊎◌, inl, inr, Bool, true, false, Option, none, some, List, [], ◌∷◌, ◌++◌, String,
  any, filter, head?, Bool-cases, ◌∙◌, ap, sym, Option-cases,
}
use mathlib.Core.Option.{some-injective}
use mathlib.Core.List.{append-nil}
use text.Mathlib.TextPositions.{eq_refl}
use bookie_breaker_bookie_em.Core.Errors.{ok, ok-injective, >>=-eq-ok}
use bookie_breaker_bookie_em.Db.Numeric.{Numeric}
use bookie_breaker_bookie_em.Db.Rows.{
  BetRow, LegRow, Database, PaperBetRecord, ParlayLegRecord, bet_from_row,
}
use bookie_breaker_bookie_em.Db.Values.{BetValues, LegValues}
use bookie_breaker_bookie_em.Db.Repository.Inserts.{
  bet_row, leg_rows, insert_bet, insert_legs, with_key, clashes, satisfies_checks,
  insert_idempotent, returned, with_legs, one_row, insert_parlay,
}
use bookie_breaker_bookie_em.Db.Repository.Consistent.{IsConsistent, has_key}
use bookie_breaker_bookie_em.Db.Repository.Consistent.Inserted.{
  insert_bet_inv, insert_bet-IsConsistent, insert_legs-IsConsistent, bet_row_lem,
}

module _ {W : Type 0} ⦃n : Numeric W⦄ where
  -- What `returned` gives, on a new row and on a replay.
  returned_inv :
      (key : String) (r : Option BetRow) (db db' : Database) (bet : PaperBetRecord W)
      (created : Bool)
      → returned key (r, db) ≡ ok ((bet, created), db')
      → (db' ≡ db)
        × (((b : BetRow) × (r ≡ some b) × (created ≡ true) × (bet ≡ bet_from_row b))
            ⊎ ((b : BetRow) × (r ≡ none)
                × (with_key key db.paper_bets ≡ some b)
                × (bet ≡ bet_from_row b)))
  unfolding returned
  returned_inv key (some b) db db' bet created h =
      let e = ok-injective h in
      (sym (ap (λ t. t.1) e), inl (b, refl, sym (ap (λ t. t.0.1) e), sym (ap (λ t. t.0.0) e)))
  returned_inv key none db db' bet created h = elim (Option-cases (with_key key db.paper_bets)) [
    | inl missing ↦ cc (rw missing at h)
    | inr (b, found) ↦
        let e : ◌≡◌ {A = (PaperBetRecord W × Bool) × Database} ((bet_from_row b, false), db)
            ((bet, created), db') =
          ok-injective (rw found at h) in
        (sym (ap (λ t. t.1) e), inr (b, refl, found, sym (ap (λ t. t.0.0) e)))
  ]

  -- Placing a bet keeps the database consistent.
  pub insert_idempotent-IsConsistent :
      (id now : ℕ) (v : BetValues W) (db db' : Database) (result : PaperBetRecord W × Bool)
      → IsConsistent db
      → insert_idempotent id now v db ≡ ok (result, db')
      → IsConsistent db'
  unfolding insert_idempotent
  insert_idempotent-IsConsistent id now v db db' (bet, created) before h =
      let (row, made, k) = >>=-eq-ok (bet_row id now v) _ h in
      let ((r, db''), ran, last) = >>=-eq-ok (insert_bet row db) _ k in
      let (same, _) = returned_inv v.idempotency_key r db'' db' bet created last in
      rw same (insert_bet-IsConsistent row db db'' r (bet_row_lem id now v made).0 before ran)

  with_legs-IsConsistent :
      (first : ℕ) (key : String) (legs : List (LegValues W)) (r : Option BetRow) (db db' : Database)
      (result : PaperBetRecord W × List (ParlayLegRecord W) × Bool)
      → IsConsistent db
      → with_legs first key legs (r, db) ≡ ok (result, db')
      → IsConsistent db'
  unfolding with_legs
  with_legs-IsConsistent first key legs (some created) db db' result before h =
      let (rows, made, k) = >>=-eq-ok (leg_rows first created.id legs) _ h in
      let (db'', ran, last) = >>=-eq-ok (insert_legs rows db) _ k in
      let same : db'' ≡ db' = ap (λ t. t.1) (ok-injective last) in
      rw (← same) (insert_legs-IsConsistent rows db db'' before ran)
  with_legs-IsConsistent first key legs none db db' result before h =
      let (parent, found, last) = >>=-eq-ok (one_row (with_key key db.paper_bets)) _ h in
      let same : db ≡ db' = ap (λ t. t.1) (ok-injective last) in rw (← same) before

  -- Placing a parlay, replayed or not, keeps the database consistent.
  pub insert_parlay-IsConsistent :
      (id first_leg_id now : ℕ) (v : BetValues W) (legs : List (LegValues W)) (db db' : Database)
      (result : PaperBetRecord W × List (ParlayLegRecord W) × Bool)
      → IsConsistent db
      → insert_parlay id first_leg_id now v legs db ≡ ok (result, db')
      → IsConsistent db'
  unfolding insert_parlay
  insert_parlay-IsConsistent id first now v legs db db' result before h =
      let (row, made, k) = >>=-eq-ok (bet_row id now v) _ h in
      let ((r, db''), ran, last) = >>=-eq-ok (insert_bet row db) _ k in
      with_legs-IsConsistent first v.idempotency_key legs r db'' db' result
        (insert_bet-IsConsistent row db db'' r (bet_row_lem id now v made).0 before ran) last

found_after_append {ℓ} :
    {A : Type ℓ} (p : A → Bool) (x : A) (xs : List A)
    → head? (filter p xs) ≡ none
    → p x ≡ true
    → head? (filter p (xs ++ x ∷ [])) ≡ some x
found_after_append p x [] h e = rw e
found_after_append p x (y ∷ ys) h e = elim (Bool-cases (p y)) [
  | inl c ↦ cc (rw c at h)
  | inr c ↦ rw c (found_after_append p x ys (rw c at h) e)
]

pub insert_bet_taken :
    (row b : BetRow) (db : Database)
    → satisfies_checks row ≡ true
    → with_key row.idempotency_key db.paper_bets ≡ some b
    → insert_bet row db ≡ ok (none, db)
unfolding insert_bet
insert_bet_taken row b db checked taken = rw (checked, taken)

module _ {W : Type 0} ⦃n : Numeric W⦄ where
  pub returned_taken :
      (key : String) (b : BetRow) (db : Database)
      → with_key key db.paper_bets ≡ some b
      → returned {W = W} key (none, db) ≡ ok ((bet_from_row b, false), db)
  unfolding returned
  returned_taken key b db found = rw (found, one_row)

  -- After a successful call the key leads to the row of the bet that was returned.
  pub returned-with_key :
      (id now : ℕ) (v : BetValues W) (db db' : Database) (bet : PaperBetRecord W) (created : Bool)
      → insert_idempotent id now v db ≡ ok ((bet, created), db')
      → (b : BetRow) × (with_key v.idempotency_key db'.paper_bets ≡ some b) × (bet ≡ bet_from_row b)
  unfolding insert_idempotent with_key
  returned-with_key id now v db db' bet created h =
      let (row, made, k) = >>=-eq-ok (bet_row id now v) _ h in
      let ((r, db''), ran, last) = >>=-eq-ok (insert_bet row db) _ k in
      let (same, how) = returned_inv v.idempotency_key r db'' db' bet created last in
      let (_, key, _) = bet_row_lem id now v made in
      elim how [
        | inr (b, _, found, e) ↦ (b, rw same found, e)
        | inl (b, rs, _, e) ↦ elim (insert_bet_inv row db db'' r ran) [
          | inr (rn, _, _, _) ↦ absurd (cc)
          | inl (rr, i) ↦
              let own : b ≡ row = some-injective b row (sym rs ∙ rr) in
              (
                row,
                rw (same, i.after, ← key)
                    (found_after_append (has_key row.idempotency_key) row db.paper_bets i.free
                      (eq_refl row.idempotency_key)),
                e ∙ ap bet_from_row own,
              )
        ]
      ]

-- An INSERT into paper_bets adds rows behind those that are there, and touches none.
abbrev pub Extends : Database → Database → Type 0
Extends db db' = (more : List BetRow) × (db'.paper_bets ≡ db.paper_bets ++ more)

Extends-insert_bet :
    (row : BetRow) (db db' : Database) (r : Option BetRow)
    → insert_bet row db ≡ ok (r, db')
    → Extends db db'
Extends-insert_bet row db db' r h = elim (insert_bet_inv row db db' r h) [
  | inl (_, i) ↦ (row ∷ [], ap (λ t. t.paper_bets) i.after)
  | inr (_, same, _, _) ↦ ([], rw same (sym (append-nil db.paper_bets)))
]

Extends-insert_legs :
    (legs : List LegRow) (db db' : Database)
    → insert_legs legs db ≡ ok db'
    → db'.paper_bets ≡ db.paper_bets
unfolding insert_legs
Extends-insert_legs [] db db' h = rw (← ok-injective h)
Extends-insert_legs (l ∷ ls) db db' h = elim (Bool-cases (any (clashes l) db.parlay_legs)) [
  | inl clash ↦ cc (rw clash at h)
  | inr free ↦
      Extends-insert_legs ls (record db { parlay_legs = db.parlay_legs ++ l ∷ [] }) db'
        (rw free at h)
]

module _ {W : Type 0} ⦃n : Numeric W⦄ where
  pub bets-insert_idempotent :
      (id now : ℕ) (v : BetValues W) (db db' : Database) (result : PaperBetRecord W × Bool)
      → insert_idempotent id now v db ≡ ok (result, db')
      → Extends db db'
  unfolding insert_idempotent
  bets-insert_idempotent id now v db db' (bet, created) h =
      let (row, made, k) = >>=-eq-ok (bet_row id now v) _ h in
      let ((r, db''), ran, last) = >>=-eq-ok (insert_bet row db) _ k in
      let (same, _) = returned_inv v.idempotency_key r db'' db' bet created last in
      rw same (Extends-insert_bet row db db'' r ran)

  bets-with_legs :
      (first : ℕ) (key : String) (legs : List (LegValues W)) (r : Option BetRow) (db db' : Database)
      (result : PaperBetRecord W × List (ParlayLegRecord W) × Bool)
      → with_legs first key legs (r, db) ≡ ok (result, db')
      → db'.paper_bets ≡ db.paper_bets
  unfolding with_legs
  bets-with_legs first key legs (some created) db db' result h =
      let (rows, made, k) = >>=-eq-ok (leg_rows first created.id legs) _ h in
      let (db'', ran, last) = >>=-eq-ok (insert_legs rows db) _ k in
      let same : db'' ≡ db' = ap (λ t. t.1) (ok-injective last) in
      rw (← same) (Extends-insert_legs rows db db'' ran)
  bets-with_legs first key legs none db db' result h =
      let (parent, found, last) = >>=-eq-ok (one_row (with_key key db.paper_bets)) _ h in
      let same : db ≡ db' = ap (λ t. t.1) (ok-injective last) in rw (← same)

  pub bets-insert_parlay :
      (id first_leg_id now : ℕ) (v : BetValues W) (legs : List (LegValues W)) (db db' : Database)
      (result : PaperBetRecord W × List (ParlayLegRecord W) × Bool)
      → insert_parlay id first_leg_id now v legs db ≡ ok (result, db')
      → Extends db db'
  unfolding insert_parlay
  bets-insert_parlay id first now v legs db db' result h =
      let (row, made, k) = >>=-eq-ok (bet_row id now v) _ h in
      let ((r, db''), ran, last) = >>=-eq-ok (insert_bet row db) _ k in
      let (more, e) = Extends-insert_bet row db db'' r ran in
      (more, bets-with_legs first v.idempotency_key legs r db'' db' result last ∙ e)
