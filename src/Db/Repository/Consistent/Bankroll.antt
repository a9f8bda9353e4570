-- ===== src/Db/Repository/Consistent/Bankroll.antt =====
-- The snapshot of a grading transaction agrees with the totals that the bankroll is derived from.
use bookie_breaker_bookie_em.Base.{
  ℕ, suc, Option, none, ◌+◌, ◌≤◌, ◌≡◌, refl, inl, inr, Bool, true, false, some, List, [], ◌∷◌, ◌++◌,
  map, filter, count, length, arith, Bool-cases, All, ap, Option-cases,
}
use bookie_breaker_bookie_em.Base.Int.{ℤ, pos, ◌+ℤ◌, sum_ℤ}
use bookie_breaker_bookie_em.Domain.{Status, opened, won, lost, eq_status}
use bookie_breaker_bookie_em.Float.{Float}
use bookie_breaker_bookie_em.Core.Errors.{ok, ok-injective}
use bookie_breaker_bookie_em.Db.Numeric.{Numeric, avg}
use bookie_breaker_bookie_em.Db.Rows.{BetRow, GradeRow, SnapshotRow, Database}
use bookie_breaker_bookie_em.Db.Values.{GradeValues}
use bookie_breaker_bookie_em.Db.Repository.Grading.{
  apply_grade, snapshot, snapshot_row, joined_profit, graded_join, grades_bet, clvs,
}
use bookie_breaker_bookie_em.Db.Repository.Grading.Applied.{apply_grade_inv}
use bookie_breaker_bookie_em.Db.Repository.Queries.{total_profit_units, open_bets_count}
use bookie_breaker_bookie_em.Db.Repository.Consistent.{IsConsistent, has_id}
use bookie_breaker_bookie_em.Db.Repository.Consistent.Claims.{graded-le}
use bookie_breaker_bookie_em.Db.Repository.Consistent.Joined.{count-joined}
use bookie_breaker_bookie_em.Db.Repository.Consistent.Graded.{apply_grade-IsConsistent}

-- A test that one row meets picks one row.
pub filter-zero {ℓ} : {A : Type ℓ} (p : A → Bool) (xs : List A) → count p xs ≡ 0 → filter p xs ≡ []
filter-zero p [] h = refl
filter-zero p (x ∷ xs) h = elim (Bool-cases (p x)) [
  | inl e ↦ absurd (omega (arith, rw e at h))
  | inr e ↦ rw e (filter-zero p xs (rw e at h))
]

filter-one {ℓ} :
    {A : Type ℓ} (p : A → Bool) (xs : List A) → count p xs ≡ 1 → (x : A) × (filter p xs ≡ x ∷ [])
filter-one p [] h = absurd (omega arith)
filter-one p (x ∷ xs) h = elim (Bool-cases (p x)) [
  | inl e ↦
      let none_left : count p xs ≡ 0 = omega (arith, rw e at h) in
      (x, rw (e, filter-zero p xs none_left))
  | inr e ↦ let (y, f) = filter-one p xs (rw e at h) in (y, rw e f)
]

abbrev HasBet : List BetRow → GradeRow → Type 0
HasBet bets g = count (has_id g.bet_id) bets ≡ 1

-- the CLVs of the grades that have one
abbrev pub with_known : Option ℤ → List ℤ → List ℤ
with_known none rest = rest
with_known (some c) rest = c ∷ rest

abbrev pub grade_clvs : List GradeRow → List ℤ
grade_clvs [] = []
grade_clvs (g ∷ gs) = with_known g.clv (grade_clvs gs)

-- Where every grade row has its one bet, the join has one pair for each, and their sums agree.
module _ (bets : List BetRow) where
  length-graded_join :
      (grades : List GradeRow)
      → All (HasBet bets) grades
      → length (graded_join bets grades) ≡ length grades
  unfolding graded_join
  length-graded_join [] h = refl
  length-graded_join (g ∷ gs) h =
      let (b, e) = filter-one (has_id g.bet_id) bets h.0 in
      rw e (ap suc (length-graded_join gs h.1))

  profit-graded_join :
      (grades : List GradeRow)
      → All (HasBet bets) grades
      → sum_ℤ (map (λ p. p.1.profit_loss) (graded_join bets grades))
        ≡ sum_ℤ (map (λ g. g.profit_loss) grades)
  unfolding graded_join
  profit-graded_join [] h = refl
  profit-graded_join (g ∷ gs) h =
      let (b, e) = filter-one (has_id g.bet_id) bets h.0 in
      rw e (ap (λ t. g.profit_loss +ℤ t) (profit-graded_join gs h.1))

  -- the stake of a grade's bet
  abbrev pub first_stake : List BetRow → ℤ
  first_stake [] = pos 0
  first_stake (b ∷ bs) = b.stake

  abbrev pub stake_of : GradeRow → ℤ
  stake_of g = first_stake (filter (has_id g.bet_id) bets)

  wagered-graded_join :
      (grades : List GradeRow)
      → All (HasBet bets) grades
      → sum_ℤ (map (λ p. p.0.stake) (graded_join bets grades)) ≡ sum_ℤ (map stake_of grades)
  unfolding graded_join
  wagered-graded_join [] h = refl
  wagered-graded_join (g ∷ gs) h =
      let (b, e) = filter-one (has_id g.bet_id) bets h.0 in
      rw e (ap (λ t. b.stake +ℤ t) (wagered-graded_join gs h.1))

  clvs-graded_join :
      (grades : List GradeRow)
      → All (HasBet bets) grades
      → clvs (graded_join bets grades) ≡ grade_clvs grades
  unfolding graded_join
  clvs-graded_join [] h = refl
  clvs-graded_join (g ∷ gs) h =
      let (b, e) = filter-one (has_id g.bet_id) bets h.0 in
      rw e (elim (Option-cases g.clv) [
        | inl missing ↦ rw missing (clvs-graded_join gs h.1)
        | inr (c, known) ↦ rw known (ap (λ t. c ∷ t) (clvs-graded_join gs h.1))
      ])

  decided-graded_join :
      (pairs : List (BetRow × GradeRow))
      → count (λ p. eq_status p.0.status won) pairs + count (λ p. eq_status p.0.status lost) pairs
        ≤ length pairs
  decided-graded_join [] = omega arith
  decided-graded_join ((b, g) ∷ ps) = ground (arith, decided-graded_join ps)

-- In a consistent database every grade row has its one bet.
module _ {db : Database} (h : IsConsistent db) where
  suffix-HasBet :
      (gs : List GradeRow)
      → ((i : ℕ) → count (grades_bet i) gs ≤ count (grades_bet i) db.bet_grades)
      → All (HasBet db.paper_bets) gs
  suffix-HasBet [] le = tt
  suffix-HasBet (g ∷ gs) le = (
    ground (
      arith,
      le g.bet_id,
      h.one_grade g.bet_id,
      h.unique_ids g.bet_id,
      graded-le g.bet_id db.paper_bets,
    ),
    suffix-HasBet gs (λ i. ground (arith, le i)),
  )

  grades-HasBet : All (HasBet db.paper_bets) db.bet_grades
  grades-HasBet = suffix-HasBet db.bet_grades (λ i. omega arith)

-- What a snapshot says of the rows that it was taken from.
pub record Agrees (s : SnapshotRow) (db : Database) : Type 0 where
  pub profit_eq : s.total_profit_loss ≡ total_profit_units db
  pub total_eq : s.total_bets ≡ length db.bet_grades
  pub open_eq : s.open_bets_count ≡ open_bets_count db
  pub wins_eq : s.total_wins ≡ count (λ b. eq_status b.status won) db.paper_bets
  pub losses_eq : s.total_losses ≡ count (λ b. eq_status b.status lost) db.paper_bets
  pub decided_le : s.total_wins + s.total_losses ≤ s.total_bets
  pub wagered_eq : s.total_wagered ≡ sum_ℤ (map (stake_of db.paper_bets) db.bet_grades)
  pub clv_eq : s.avg_clv ≡ avg (grade_clvs db.bet_grades)

module _ {W : Type 0} ⦃f : Float W⦄ ⦃n : Numeric W⦄ where
  pub record IsTaken (now : ℕ) (starting : W) (db : Database) (s : SnapshotRow) : Type 0 where
    pub agrees : Agrees s db
    pub balance_eq :
        n.stored 4 (f.add starting (n.loaded 4 (total_profit_units db))) ≡ some s.balance
    pub now_eq : s.snapshot_at ≡ now

  snapshot-IsTaken :
      (now : ℕ) (starting : W) (db : Database) (s : SnapshotRow)
      → IsConsistent db
      → snapshot now starting db.paper_bets db.bet_grades ≡ ok s
      → IsTaken now starting db s
  unfolding snapshot total_profit_units open_bets_count
  snapshot-IsTaken now starting db s h e =
      elim (Option-cases (n.stored 4 (f.add starting (n.loaded 4 joined)))) [
        | inl refused ↦ cc (rw refused at e)
        | inr (balance, stored) ↦
            let same : snapshot_row now db.paper_bets pairs balance ≡ s =
              ok-injective (rw stored at e) in
            rw (← same) (record {
              agrees = record {
                profit_eq = profit;
                total_eq = length-graded_join db.paper_bets db.bet_grades linked;
                open_eq = refl;
                wins_eq = count-joined h (λ b. eq_status b.status won) (λ b won_eq. ground arith);
                losses_eq =
                    count-joined h (λ b. eq_status b.status lost) (λ b lost_eq. ground arith);
                decided_le = decided-graded_join db.paper_bets pairs;
                wagered_eq = wagered-graded_join db.paper_bets db.bet_grades linked;
                clv_eq = ap avg (clvs-graded_join db.paper_bets db.bet_grades linked);
              };
              balance_eq = rw (← profit) stored;
              now_eq = refl;
            })
      ]
    where
      pairs : List (BetRow × GradeRow)
      pairs = graded_join db.paper_bets db.bet_grades

      joined : ℤ
      joined = joined_profit pairs

      linked : All (HasBet db.paper_bets) db.bet_grades
      linked = grades-HasBet h

      profit : joined ≡ total_profit_units db
      profit = profit-graded_join db.paper_bets db.bet_grades linked

  -- A grading that succeeds on a consistent database appends one snapshot, which agrees with the rows
  -- as just written. Its profit is the sum of all grades' profits and its balance the starting
  -- bankroll plus that profit; its bets are as many as the grade rows, its open bets, wins and losses
  -- the bets whose status is OPEN, WON and LOST; what it says was wagered is the sum of the stakes of
  -- the grades' bets, and its CLV the average of the grades that have one.
  pub apply_grade_snapshot :
      (id now bet_id : ℕ) (status : Status) (v : GradeValues W) (starting : W) (force : Bool)
      (db db' : Database)
      → IsConsistent db
      → eq_status status opened ≡ false
      → apply_grade id now bet_id status v starting force db ≡ ok (true, db')
      → (s : SnapshotRow) × (db'.bankroll_snapshots ≡ db.bankroll_snapshots ++ s ∷ [])
        × IsTaken now starting db' s
  apply_grade_snapshot id now bet_id status v starting force db db' h d e =
      let after = apply_grade-IsConsistent id now bet_id status v starting force db d h true e in
      elim (apply_grade_inv id now bet_id status v starting force db db' true e) [
        | inl (_, a) ↦ (
          a.taken,
          ap (λ t. t.bankroll_snapshots) a.after,
          snapshot-IsTaken now starting db' a.taken after (rw a.after a.taken_eq),
        )
        | inr (no_grade, _, _) ↦ cc
      ]
