-- ===== src/Services/Bankroll/Buckets.antt =====
-- The history keeps the last snapshot of each bucket.
use bookie_breaker_bookie_em.Base.{
  ◌≡◌, refl, ap, ◌∙◌, ◌⊎◌, inl, inr, Option, none, some, List, [], filter, last?, String, str_eq,
  arith,
}
use bookie_breaker_bookie_em.Base.Dict.{assign_all, values, list_of, values-assign_all}
use bookie_breaker_bookie_em.Base.Sorting.{sort_by, IsOrder, IsOrdered}
use bookie_breaker_bookie_em.Base.Sorting.Laws.{filter-sort_by, sort_by-IsOrdered}
use bookie_breaker_bookie_em.Db.Rows.{BankrollSnapshotRecord}
use bookie_breaker_bookie_em.Api.Schemas.Bankroll.{HistoryInterval, per_bet, daily, weekly}
use bookie_breaker_bookie_em.Services.Bankroll.{
  Calendar, bucket_key, earliest_first, last_per_bucket, at_interval,
}

module _ {W : Type 0} (c : Calendar) where
  earliest_first-IsOrder : IsOrder (earliest_first {W = W})
  earliest_first-IsOrder = record {
    trans = λ s t u h k. ground arith;
    total = λ s t h. ground arith;
  }

  sort_list_of :
      (o : Option (BankrollSnapshotRecord W)) → sort_by earliest_first (list_of o) ≡ list_of o
  unfolding sort_by
  sort_list_of none = refl
  sort_list_of (some s) = refl

  last_per_bucket_lem :
      (interval : HistoryInterval) (key : String) (rows : List (BankrollSnapshotRecord W))
      → filter (λ s. str_eq (bucket_key c interval s) key) (last_per_bucket c interval rows)
        ≡ list_of (last? (filter (λ s. str_eq (bucket_key c interval s) key) rows))
  last_per_bucket_lem interval key rows =
      filter-sort_by earliest_first-IsOrder (λ s. str_eq (bucket_key c interval s) key)
        (values (assign_all (bucket_key c interval) rows []))
      ∙ ap (sort_by earliest_first) (values-assign_all (bucket_key c interval) key rows)
      ∙ sort_list_of (last? (filter (λ s. str_eq (bucket_key c interval s) key) rows))

  -- A daily or weekly history has, for every day or ISO week, exactly the last of the snapshots of
  -- that bucket, and none where the bucket has no snapshot, in the order of time. `key` is any text
  -- that names a bucket.
  pub at_interval_last :
      (interval : HistoryInterval) (key : String) (rows : List (BankrollSnapshotRecord W))
      → (interval ≡ daily) ⊎ (interval ≡ weekly)
      → (filter (λ s. str_eq (bucket_key c interval s) key) (at_interval c interval rows)
          ≡ list_of (last? (filter (λ s. str_eq (bucket_key c interval s) key) rows)))
        × IsOrdered earliest_first (at_interval c interval rows)
  unfolding at_interval
  at_interval_last per_bet key rows (inl h) = cc
  at_interval_last per_bet key rows (inr h) = cc
  at_interval_last daily key rows h = (
    last_per_bucket_lem daily key rows,
    sort_by-IsOrdered earliest_first-IsOrder (values (assign_all (bucket_key c daily) rows [])),
  )
  at_interval_last weekly key rows h = (
    last_per_bucket_lem weekly key rows,
    sort_by-IsOrdered earliest_first-IsOrder (values (assign_all (bucket_key c weekly) rows [])),
  )
