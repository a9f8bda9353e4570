-- ===== src/Db/Repository/Consistent/Inserted.antt =====
-- insert_idempotent and insert_parlay keep the database consistent.
use bookie_breaker_bookie_em.Base.{
  ℕ, ◌≡◌, refl, ◌⊎◌, inl, inr, Bool, true, false, Option, none, some, List, [], ◌∷◌, ◌++◌, count,
  count-append, filter, head?, any, arith, Bool-cases, eq_iff, Option-cases,
}
use bookie_breaker_bookie_em.Domain.{opened}
use bookie_breaker_bookie_em.Core.Errors.{ok, ok-injective}
use bookie_breaker_bookie_em.Db.Numeric.{Numeric}
use bookie_breaker_bookie_em.Db.Rows.{BetRow, LegRow, Database}
use bookie_breaker_bookie_em.Db.Values.{BetValues}
use bookie_breaker_bookie_em.Db.Repository.Inserts.{
  bet_row, insert_bet, insert_legs, with_key, satisfies_checks, clashes,
}
use bookie_breaker_bookie_em.Db.Repository.Consistent.{IsConsistent, has_id, has_key, at_index}

-- no row of the test, if the search or `any` found none
pub count-zero_of_any {ℓ} :
    {A : Type ℓ} (p : A → Bool) (xs : List A) → any p xs ≡ false → count p xs ≡ 0
count-zero_of_any p [] h = refl
count-zero_of_any p (x ∷ xs) h = ground (arith, count-zero_of_any p xs)

count-zero_of_head {ℓ} :
    {A : Type ℓ} (p : A → Bool) (xs : List A) → head? (filter p xs) ≡ none → count p xs ≡ 0
count-zero_of_head p [] h = refl
count-zero_of_head p (x ∷ xs) h = elim (Bool-cases (p x)) [
  | inl e ↦ cc (rw e at h)
  | inr e ↦ rw e (count-zero_of_head p xs (rw e at h))
]

-- The new row of an insert, where the key was free.
pub record Inserted (row : BetRow) (db db' : Database) : Type 0 where
  pub free : with_key row.idempotency_key db.paper_bets ≡ none
  pub new_id : any (has_id row.id) db.paper_bets ≡ false
  pub checked : satisfies_checks row ≡ true
  pub after : db' ≡ record db { paper_bets = db.paper_bets ++ row ∷ [] }

pub insert_bet_inv :
    (row : BetRow) (db db' : Database) (r : Option BetRow)
    → insert_bet row db ≡ ok (r, db')
    → ((r ≡ some row) × Inserted row db db')
      ⊎ ((r ≡ none)
          × (db' ≡ db)
          × (b : BetRow) × (with_key row.idempotency_key db.paper_bets ≡ some b))
unfolding insert_bet
insert_bet_inv row db db' r h = elim (Bool-cases (satisfies_checks row)) [
  | inr refused ↦ cc (rw refused at h)
  | inl checked ↦ elim (Option-cases (with_key row.idempotency_key db.paper_bets)) [
    | inr (b, taken) ↦ inr (ground arith, ground arith, b, taken)
    | inl free ↦ elim (Bool-cases (any (has_id row.id) db.paper_bets)) [
      | inl clash ↦ cc (rw (checked, free, clash) at h)
      | inr new_id ↦ inl (
        ground arith,
        record { free = free; new_id = new_id; checked = checked; after = ground arith },
      )
    ]
  ]
]

module _ {row : BetRow} {db db' : Database} (new : row.status ≡ opened) (before : IsConsistent db)
    (i : Inserted row db db') where
  inserted-IsConsistent : IsConsistent db'
  unfolding with_key
  inserted-IsConsistent = rw i.after (record {
    unique_ids = λ k. rw count-append (
        ground
          (arith, before.unique_ids k, count-zero_of_any (has_id row.id) db.paper_bets i.new_id));
    unique_keys = λ k. rw count-append (
        ground (
          arith,
          before.unique_keys k,
          count-zero_of_head (has_key row.idempotency_key) db.paper_bets i.free,
          eq_iff row.idempotency_key k,
        ));
    one_grade = λ k. rw count-append (ground (arith, before.one_grade k));
    unique_legs = before.unique_legs;
  })

pub insert_bet-IsConsistent :
    (row : BetRow) (db db' : Database) (r : Option BetRow)
    → row.status ≡ opened
    → IsConsistent db
    → insert_bet row db ≡ ok (r, db')
    → IsConsistent db'
insert_bet-IsConsistent row db db' r new before h = elim (insert_bet_inv row db db' r h) [
  | inl (_, i) ↦ inserted-IsConsistent new before i
  | inr (_, same, _, _) ↦ rw same before
]

clash-zero :
    (l : LegRow) (legs : List LegRow)
    → any (clashes l) legs ≡ false
    → count (at_index l.bet_id l.leg_index) legs ≡ 0
clash-zero l [] h = refl
clash-zero l (m ∷ ms) h = ground (arith, clash-zero l ms)

pub insert_legs-IsConsistent :
    (legs : List LegRow) (db db' : Database)
    → IsConsistent db
    → insert_legs legs db ≡ ok db'
    → IsConsistent db'
unfolding insert_legs
insert_legs-IsConsistent [] db db' before h = rw (← ok-injective h) before
insert_legs-IsConsistent (l ∷ ls) db db' before h =
    elim (Bool-cases (any (clashes l) db.parlay_legs)) [
      | inl clash ↦ cc (rw clash at h)
      | inr free ↦
          insert_legs-IsConsistent ls (record db { parlay_legs = db.parlay_legs ++ l ∷ [] }) db'
            (record {
              unique_ids = before.unique_ids;
              unique_keys = before.unique_keys;
              one_grade = before.one_grade;
              unique_legs = λ i index.
                  rw count-append
                    (ground (arith, before.unique_legs i index, clash-zero l db.parlay_legs free));
            })
            (rw free at h)
    ]

module _ {W : Type 0} ⦃n : Numeric W⦄ where
  -- A new bet is OPEN and has the key of its values.
  pub bet_row_lem :
      (id now : ℕ) (v : BetValues W) {row : BetRow}
      → bet_row id now v ≡ ok row
      → (row.status ≡ opened) × (row.idempotency_key ≡ v.idempotency_key) × (row.id ≡ id)
  unfolding bet_row
  bet_row_lem id now v h = ground arith
