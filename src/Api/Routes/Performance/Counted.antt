-- ===== src/Api/Routes/Performance/Counted.antt =====
-- The performance endpoints aggregate every graded bet that meets the filters exactly once.
use mathlib.Core.Path.{fun_ext}
use bookie_breaker_bookie_em.Base.{
  ℕ, ◌≤◌, ◌≡◌, refl, sym, ap, ◌∙◌, Bool, true, false, not, ◌&&◌, Option, none, List, [], ◌∷◌, map,
  filter, count, length, All, count-append, count-map, count-filter, length-filter, String, arith,
  if◌then◌else◌,
}
use bookie_breaker_bookie_em.Base.Sorting.{sort_by}
use bookie_breaker_bookie_em.Base.Sorting.Laws.{count-sort_by}
use bookie_breaker_bookie_em.Domain.{Status, won, lost, push, eq_status, League, Market}
use bookie_breaker_bookie_em.Float.{Float}
use bookie_breaker_bookie_em.Core.Errors.{ok, ◌>>=◌, >>=-eq-ok, ok-injective}
use bookie_breaker_bookie_em.Core.Performance.{GradedBet, has_status, mean}
use bookie_breaker_bookie_em.Db.Numeric.{Numeric}
use bookie_breaker_bookie_em.Db.Rows.{
  BetRow, GradeRow, Database, PaperBetRecord, BetGradeRecord, bet_from_row, grade_from_row,
}
use bookie_breaker_bookie_em.Db.Repository.Grading.{is_open, grades_bet}
use bookie_breaker_bookie_em.Db.Repository.Consistent.{IsConsistent, is_graded}
use bookie_breaker_bookie_em.Db.Repository.Consistent.Claims.{graded-le}
use bookie_breaker_bookie_em.Db.Repository.Ledger.{
  LedgerFilters, filter_conditions, joined_grades, earliest_graded, graded_bets,
}
use bookie_breaker_bookie_em.Api.Routes.Performance.{
  window_start, graded_bet, to_graded, performance_filters, period_of, performance_data, selected,
  get_performance, get_breakdown,
}
use bookie_breaker_bookie_em.Api.Schemas.Performance.{Window, PerformanceData}
use bookie_breaker_bookie_em.Core.Performance.Bins.{expected_calibration_error}
use bookie_breaker_bookie_em.Core.Performance.Breakdown.{GroupBy}
use bookie_breaker_bookie_em.Core.Performance.Breakdown.Partition.{
  sum_by, compute_breakdown_partition,
}
use bookie_breaker_bookie_em.Core.Performance.Metrics.{
  PerformanceMetrics, american_of_mean, metrics_of, compute_performance,
}

-- A bet that is graded has one grade row.
abbrev HasGrade : Database → BetRow → Type 0
HasGrade db b = count (grades_bet b.id) db.bet_grades ≡ 1

count_const {ℓ} :
    {A : Type ℓ} (c : Bool) (xs : List A) → count (λ _. c) xs ≡ (if c then length xs else 0)
count_const c [] = ground arith
count_const c (x ∷ xs) = ground (arith, count_const c xs)

count-joined_grades :
    (db : Database) (p : BetRow → Bool) (bs : List BetRow)
    → All (HasGrade db) bs
    → count (λ q. p q.0) (joined_grades db bs) ≡ count p bs
unfolding joined_grades
count-joined_grades db p [] h = refl
count-joined_grades db p (b ∷ bs) (one, h) =
    let grades = filter (grades_bet b.id) db.bet_grades in
    ground (
      arith,
      count-append (λ q. p q.0) (map (λ g. (b, g)) grades) (joined_grades db bs),
      count-map {B = BetRow × GradeRow} (λ q. p q.0) (λ _. p b) (λ g. (b, g)) (λ _. refl) grades,
      count_const (p b) grades,
      length-filter (grades_bet b.id) db.bet_grades,
      one,
      count-joined_grades db p bs h,
    )

graded_suffix :
    (db : Database) (bs : List BetRow)
    → IsConsistent db
    → ((i : ℕ) → count (is_graded i) bs ≤ count (is_graded i) db.paper_bets)
    → All (λ b. not (is_open b) ≡ true → HasGrade db b) bs
graded_suffix db [] h g = tt
graded_suffix db (b ∷ bs) h g = (
  λ graded.
      ground (arith, g b.id, h.one_grade b.id, h.unique_ids b.id, graded-le b.id db.paper_bets),
  graded_suffix db bs h (λ i. ground (arith, g i)),
)

filtered_graded :
    (db : Database) (q : BetRow → Bool) (bs : List BetRow)
    → All (λ b. not (is_open b) ≡ true → HasGrade db b) bs
    → All (HasGrade db) (filter (λ b. not (is_open b) && q b) bs)
filtered_graded db q [] h = tt
filtered_graded db q (b ∷ bs) (first, h) =
    kept (not (is_open b)) (q b) first (filtered_graded db q bs h)
  where
    kept :
        (c d : Bool)
        → (c ≡ true → HasGrade db b)
        → All (HasGrade db) (filter (λ b. not (is_open b) && q b) bs)
        → All (HasGrade db) (
            if c && d
            then b ∷ filter (λ b. not (is_open b) && q b) bs
            else filter (λ b. not (is_open b) && q b) bs)
    kept true true e rest = (e refl, rest)
    kept true false e rest = rest
    kept false d e rest = rest

module _ {W : Type 0} ⦃f : Float W⦄ ⦃n : Numeric W⦄ (filters : LedgerFilters W)
    (db : Database) where
  -- the bets that the endpoints are about
  abbrev pub counted : BetRow → Bool
  counted b = not (is_open b) && filter_conditions filters b

  -- What is selected from a consistent database, counted by status.
  count-selected :
      (p : Status → Bool)
      → IsConsistent db
      → count (λ b. p b.status) (selected filters db)
        ≡ count (λ b. counted b && p b.status) db.paper_bets
  unfolding selected to_graded graded_bets bet_from_row
  count-selected p h =
      let kept = filter counted db.paper_bets in
      let joined = joined_grades db kept in
      count-map (λ b. p b.status) (λ q. p q.0.status) (graded_bet {W = W}) (λ q. refl)
        (map loaded (sort_by earliest_graded joined))
      ∙ count-map (λ q. p q.0.status) (λ q. p q.0.status) loaded (λ q. refl)
          (sort_by earliest_graded joined)
      ∙ count-sort_by earliest_graded (λ q. p q.0.status) joined
      ∙ count-joined_grades db (λ b. p b.status) kept
          (filtered_graded db (filter_conditions filters) db.paper_bets
            (graded_suffix db db.paper_bets h (λ i. omega arith)))
      ∙ count-filter counted (λ b. p b.status) db.paper_bets
    where
      loaded : BetRow × GradeRow → PaperBetRecord W × BetGradeRecord W
      loaded q = (bet_from_row q.0, grade_from_row q.1)

  length-selected : IsConsistent db → length (selected filters db) ≡ count counted db.paper_bets
  length-selected h =
      omega (arith, count_const true (selected filters db))
      ∙ count-selected (λ _. true) h
      ∙ ap (λ q. count q db.paper_bets) (fun_ext (λ b. and_true (counted b)))
    where
      and_true : (b : Bool) → (b && true) ≡ b
      and_true true = refl
      and_true false = refl

  -- What the endpoints report as bets, wins, losses and pushes.
  abbrev pub Reported : ℕ → ℕ → ℕ → ℕ → Type 0
  Reported total wins losses pushes =
      (total ≡ count counted db.paper_bets)
      × (wins ≡ count (λ b. counted b && eq_status b.status won) db.paper_bets)
      × (losses ≡ count (λ b. counted b && eq_status b.status lost) db.paper_bets)
      × (pushes ≡ count (λ b. counted b && eq_status b.status push) db.paper_bets)

  selected-Reported :
      IsConsistent db
      → Reported
          (length (selected filters db))
          (count (has_status won) (selected filters db))
          (count (has_status lost) (selected filters db))
          (count (has_status push) (selected filters db))
  selected-Reported h = (
    length-selected h,
    count-selected (λ s. eq_status s won) h,
    count-selected (λ s. eq_status s lost) h,
    count-selected (λ s. eq_status s push) h,
  )

module _ {W : Type 0} ⦃f : Float W⦄ ⦃n : Numeric W⦄ (db : Database) where
  compute_performance-counts :
      (bets : List (GradedBet W)) (m : PerformanceMetrics W)
      → compute_performance bets ≡ ok m
      → (m.total_bets ≡ length bets)
        × (m.wins ≡ count (has_status won) bets)
        × (m.losses ≡ count (has_status lost) bets)
        × (m.pushes ≡ count (has_status push) bets)
  unfolding compute_performance metrics_of
  compute_performance-counts bets m e =
      let (odds, _, rest) =
        >>=-eq-ok (american_of_mean (mean (map (λ b. b.odds_decimal) bets)))
          (λ avg_odds. expected_calibration_error bets 10 >>= λ calibration_error.
            ok (metrics_of bets avg_odds calibration_error))
          e in
      let (error, _, made) =
        >>=-eq-ok (expected_calibration_error bets 10)
          (λ calibration_error. ok (metrics_of bets odds calibration_error)) rest in
      let same : metrics_of bets odds error ≡ m = ok-injective made in
      (
        sym (ap (λ r. r.total_bets) same),
        sym (ap (λ r. r.wins) same),
        sym (ap (λ r. r.losses) same),
        sym (ap (λ r. r.pushes) same),
      )

  -- An answer of GET /performance on a consistent database counts every bet that is not OPEN and meets
  -- the filters exactly once, and reports as wins, losses and pushes those of them that are WON, LOST
  -- and PUSH.
  pub get_performance-Reported :
      (unit_size_dollars : W) (now : ℕ) (league : Option League) (market_type : Option Market)
      (date_from date_to : Option ℕ) (window : Window) (answer : PerformanceData W)
      → IsConsistent db
      → get_performance unit_size_dollars now db league market_type date_from date_to window
        ≡ ok answer
      → Reported
          (performance_filters {W = W} league market_type date_from date_to
            (window_start now window))
          db
          answer.total_bets
          answer.total_wins
          answer.total_losses
          answer.total_pushes
  unfolding get_performance performance_data
  get_performance-Reported u now league market_type date_from date_to window answer h e =
      let filters =
        performance_filters {W = W} league market_type date_from date_to
          (window_start now window) in
      let bets = selected filters db in
      let (m, computed, made) =
        >>=-eq-ok (compute_performance bets)
          (λ metrics. ok (performance_data u (period_of now date_from date_to window bets) metrics))
          e in
      let same : performance_data u (period_of now date_from date_to window bets) m ≡ answer =
        ok-injective made in
      let (total, wins, losses, pushes) = selected-Reported filters db h in
      let (t, w, l, p) = compute_performance-counts bets m computed in
      rw (← same) ((t ∙ total, w ∙ wins, l ∙ losses, p ∙ pushes))

module _ (W : Type 0) ⦃f : Float W⦄ ⦃n : Numeric W⦄ (db : Database) where
  -- An answer of GET /performance/breakdown on a consistent database has every bet that is not OPEN and
  -- meets the filters in exactly one group: over the groups, the numbers of bets, wins, losses and
  -- pushes add up to those of these bets.
  pub get_breakdown-Reported :
      (month_of : ℕ → String) (group_by : GroupBy) (date_from date_to : Option ℕ)
      → IsConsistent db
      → let rows = (get_breakdown {W = W} month_of db group_by date_from date_to).breakdowns in
        Reported
          (performance_filters {W = W} none none date_from date_to none)
          db
          (sum_by (λ g. g.total_bets) rows)
          (sum_by (λ g. g.wins) rows)
          (sum_by (λ g. g.losses) rows)
          (sum_by (λ g. g.pushes) rows)
  unfolding get_breakdown
  get_breakdown-Reported month_of group_by date_from date_to h =
      let filters = performance_filters {W = W} none none date_from date_to none in
      let (t, w, l, p, _, _) =
        compute_breakdown_partition month_of (selected filters db) group_by "" in
      let (total, wins, losses, pushes) = selected-Reported filters db h in
      (t ∙ total, w ∙ wins, l ∙ losses, p ∙ pushes)
