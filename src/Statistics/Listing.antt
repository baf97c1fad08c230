-- ===== src/Statistics/Listing.antt =====
-- listServerStatisticsBuckets and listGlobalStatisticsBuckets of db/server-statistics-store.ts.
use rw_manager_backend.Base.{
  ℕ, String, Bool, true, ◌&&◌, ◌||◌, Option, none, some, List, map, filter, sort_by, str_eq, leb,
  ltb, nat_eq,
}
use rw_manager_backend.Driver.{Collection}
use rw_manager_backend.Statistics.{
  BucketDoc, ServerStatisticsBucket, Statistics, memory, mongo, finalize_bucket,
}

-- $gte from, or nothing asked
abbrev pub is_from : Option ℕ → ℕ → Bool
is_from none hour = true
is_from (some from) hour = leb from hour

-- $lt to, or nothing asked
abbrev pub is_before : Option ℕ → ℕ → Bool
is_before none hour = true
is_before (some to) hour = ltb hour to

abbrev pub in_range : Option ℕ → Option ℕ → BucketDoc → Bool
in_range from to b = is_from from b.hour_start && is_before to b.hour_start

abbrev pub of_server : String → Option ℕ → Option ℕ → BucketDoc → Bool
of_server server_id from to b = str_eq b.server_id server_id && in_range from to b

abbrev pub hour_before : BucketDoc → BucketDoc → Bool
hour_before a b = ltb a.hour_start b.hour_start

-- By the hour, then by the server, whose order `text_before` gives.
abbrev pub hour_server_before : (String → String → Bool) → BucketDoc → BucketDoc → Bool
hour_server_before text_before a b =
    hour_before a b || (nat_eq a.hour_start b.hour_start && text_before a.server_id b.server_id)

abbrev pub doc : ServerStatisticsBucket → BucketDoc
doc b = b.doc

module _ (buckets : Collection BucketDoc) where
  unfoldable pub list_server_statistics_buckets :
      String → Option ℕ → Option ℕ → Statistics buckets → List ServerStatisticsBucket
  list_server_statistics_buckets server_id from to (memory bs) =
      sort_by (λ a b. hour_before a.doc b.doc) (filter (λ b. of_server server_id from to b.doc) bs)
  list_server_statistics_buckets server_id from to (mongo s bs) =
      map finalize_bucket (buckets.find_sorted (of_server server_id from to) hour_before s)

  -- `locale_before` is localeCompare, `binary_before` the order of the database.
  unfoldable pub list_global_statistics_buckets :
      (locale_before binary_before : String → String → Bool)
      → Option ℕ
      → Option ℕ
      → Statistics buckets
      → List ServerStatisticsBucket
  list_global_statistics_buckets locale_before binary_before from to (memory bs) =
      map (λ (b : ServerStatisticsBucket). finalize_bucket b.doc)
        (sort_by (λ a b. hour_server_before locale_before a.doc b.doc)
          (filter (λ b. in_range from to b.doc) bs))
  list_global_statistics_buckets locale_before binary_before from to (mongo s bs) =
      map finalize_bucket
        (buckets.find_sorted (in_range from to) (hour_server_before binary_before) s)
