-- ===== src/Db/Repository/Consistent/Created.antt =====
-- A bet that an insert reports as new can be read back, ungraded.
use mathlib.Core.Option.{some-injective}
use mathlib.Core.Path.{subst}
use bookie_breaker_bookie_em.Base.{
  ℕ, ◌≡◌, refl, sym, ap, ◌∙◌, inl, inr, ◌⊎◌, is_none, Bool, true, false, Option, none, some, [],
  ◌∷◌, ◌++◌, String, count, filter, filter-append, head?, ◌==◌, Option-cases, arith,
}
use bookie_breaker_bookie_em.Core.Errors.{ok, ok-injective, >>=-eq-ok}
use bookie_breaker_bookie_em.Db.Numeric.{Numeric}
use bookie_breaker_bookie_em.Db.Rows.{BetRow, Database, PaperBetRecord, bet_from_row}
use bookie_breaker_bookie_em.Db.Values.{BetValues}
use bookie_breaker_bookie_em.Db.Repository.Grading.{grades_bet}
use bookie_breaker_bookie_em.Db.Repository.Inserts.{
  bet_row, insert_bet, with_key, insert_idempotent, returned,
}
use bookie_breaker_bookie_em.Db.Repository.Queries.{get_with_grade}
use bookie_breaker_bookie_em.Db.Repository.Consistent.{IsConsistent, has_id}
use bookie_breaker_bookie_em.Db.Repository.Consistent.Bankroll.{filter-zero}
use bookie_breaker_bookie_em.Db.Repository.Consistent.Claims.{graded-le}
use bookie_breaker_bookie_em.Db.Repository.Consistent.Inserted.{
  Inserted, insert_bet_inv, count-zero_of_any,
}

differ {ℓ} : {A : Type ℓ} → false ≡ true → A
differ h = cc

new_row :
    (row b : BetRow) (r : Option BetRow) (db db' : Database)
    → ((r ≡ some row) × Inserted row db db')
      ⊎ ((r ≡ none)
          × (db' ≡ db)
          × (taken : BetRow) × (with_key row.idempotency_key db.paper_bets ≡ some taken))
    → r ≡ some b
    → (row ≡ b) × Inserted row db db'
new_row row b r db db' (inl (stored, i)) h = (some-injective row b (sym stored ∙ h), i)
new_row row b r db db' (inr (nothing, _, _, _)) h = none_some (sym nothing ∙ h)
  where
    none_some : ◌≡◌ {A = Option BetRow} none (some b) → (row ≡ b) × Inserted row db db'
    none_some e = differ (sym (ap is_none e))

module _ {W : Type 0} ⦃n : Numeric W⦄ where
  returned_created :
      (key : String) (r : Option BetRow) (db db' : Database) (bet : PaperBetRecord W)
      → returned key (r, db) ≡ ok ((bet, true), db')
      → (b : BetRow) × (r ≡ some b) × (bet_from_row b ≡ bet) × (db ≡ db')
  unfolding returned
  returned_created key (some b) db db' bet h =
      let e = ok-injective h in (b, refl, ap (λ t. t.0.0) e, ap (λ t. t.1) e)
  returned_created key none db db' bet h = elim (Option-cases (with_key key db.paper_bets)) [
    | inl missing ↦ cc (rw missing at h)
    | inr (b, found) ↦
        let e : ◌≡◌ {A = (PaperBetRecord W × Bool) × Database} ((bet_from_row b, false), db)
            ((bet, true), db') =
          ok-injective (rw found at h) in
        differ (ap (λ t. t.0.1) e)
  ]

  get_found :
      (i : ℕ) (db : Database) (b : BetRow)
      → head? (filter (has_id i) db.paper_bets) ≡ some b
      → head? (filter (grades_bet i) db.bet_grades) ≡ none
      → get_with_grade {W = W} i db ≡ some (bet_from_row b, none)
  unfolding get_with_grade
  get_found i db b found ungraded = rw (found, ungraded, get_with_grade) refl

  get-Inserted :
      (row : BetRow) (db db' : Database)
      → IsConsistent db
      → Inserted row db db'
      → get_with_grade {W = W} row.id db' ≡ some (bet_from_row row, none)
  get-Inserted row db db' h i =
      let fresh : count (has_id row.id) db.paper_bets ≡ 0 =
        count-zero_of_any (has_id row.id) db.paper_bets i.new_id in
      let ungraded : count (grades_bet row.id) db.bet_grades ≡ 0 =
        ground (arith, h.one_grade row.id, graded-le row.id db.paper_bets, fresh) in
      let found : filter (has_id row.id) (db.paper_bets ++ row ∷ []) ≡ row ∷ [] =
        filter-append (has_id row.id) db.paper_bets (row ∷ [])
        ∙ rw (filter-zero (has_id row.id) db.paper_bets fresh, itself row.id) refl in
      get_found row.id db' row
        (ap (λ d. head? (filter (has_id row.id) d.paper_bets)) i.after ∙ ap head? found)
        (ap (λ d. head? (filter (grades_bet row.id) d.bet_grades)) i.after
          ∙ ap head? (filter-zero (grades_bet row.id) db.bet_grades ungraded))
    where
      itself : (k : ℕ) → (k == k) ≡ true
      itself k = ground arith

  read_back :
      (row : BetRow) (db : Database) (bet : PaperBetRecord W)
      → bet_from_row row ≡ bet
      → get_with_grade {W = W} row.id db ≡ some (bet_from_row row, none)
      → get_with_grade {W = W} bet.id db ≡ some (bet, none)
  unfolding bet_from_row
  read_back row db bet same found =
      subst (λ x. get_with_grade {W = W} x.id db ≡ some (x, none)) same found

  pub insert_idempotent-get :
      (id now : ℕ) (v : BetValues W) (db db' : Database) (bet : PaperBetRecord W)
      → IsConsistent db
      → insert_idempotent id now v db ≡ ok ((bet, true), db')
      → get_with_grade bet.id db' ≡ some (bet, none)
  unfolding insert_idempotent
  insert_idempotent-get id now v db db' bet h e =
      let (row, made, k) = >>=-eq-ok (bet_row id now v) _ e in
      let ((r, db''), ran, last) = >>=-eq-ok (insert_bet row db) _ k in
      let (b, new, shown, same) = returned_created v.idempotency_key r db'' db' bet last in
      let (own, i) = new_row row b r db db'' (insert_bet_inv row db db'' r ran) new in
      read_back row db' bet (ap bet_from_row own ∙ shown) (
        subst (λ d. get_with_grade {W = W} row.id d ≡ some (bet_from_row row, none)) same
          (get-Inserted row db db'' h i))
