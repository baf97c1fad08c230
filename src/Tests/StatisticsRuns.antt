-- ===== src/Tests/StatisticsRuns.antt =====
-- The theorem of the statistics: two samples of one hour, and one of another server.
use rw_manager_backend.Base.{ℕ, String, Bool, true, false, none, List, [], ◌∷◌, ◌≡◌, filter, str_eq}
use rw_manager_backend.Data.Value.{nat}
use rw_manager_backend.Statistics.{
  BucketDoc, Clock, ServerStatisticsSample, Statistics, mongo, id_of,
}
use rw_manager_backend.Statistics.Totals.{totals, with_samples}
use rw_manager_backend.Statistics.Sums.{doc_of, record_all, record_all-totals}
use rw_manager_backend.Tests.Fixtures.{listed}

abbrev clock : Clock
clock = record { iso = λ t. "hour"; floor = λ s. 0 }

abbrev sample : String → ℕ → Bool → ℕ → ServerStatisticsSample
sample id time online count = record {
  server_id = id;
  sampled_at = time;
  online = online;
  player_count = nat count;
  online_player_uids = none;
}

abbrev samples : List ServerStatisticsSample
samples = sample "a" 5 true 3 ∷ sample "b" 6 true 1 ∷ sample "a" 7 false 0 ∷ []

abbrev empty : Statistics (listed BucketDoc)
empty = mongo [] []

record_all-totals_example :
    totals
      (doc_of clock (listed BucketDoc) "a:hour" (record_all clock (listed BucketDoc) samples empty))
    ≡ with_samples clock
        (filter (λ s. str_eq (id_of clock s) "a:hour") samples)
        (totals (doc_of clock (listed BucketDoc) "a:hour" empty))
record_all-totals_example = record_all-totals clock (listed BucketDoc) "a:hour" samples empty
