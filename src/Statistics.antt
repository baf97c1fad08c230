-- ===== src/Statistics.antt =====
-- db/server-statistics-store.ts: the buckets of an hour. A date stands as its milliseconds, and so does
-- the start of an hour, whose text `iso` the ids have: these texts are ordered as the times are.
pub mod Totals
pub mod Sums
pub mod Listing
pub mod Service
use Prim.Native.String
use rw_manager_backend.Base.{
  ℕ, String, Bool, true, false, not, ◌&&◌, ◌||◌, ◌+◌, ◌-◌, ◌*◌, ◌/◌, max, ltb, leb, nat_eq, Option,
  none, some, List, [], ◌∷◌, ◌++◌, map, find?, filter, sort_by, update_first, upsert, includes,
  unique, str_eq, trim, is_some, get_or, if◌then◌else◌,
}
use mathlib.Core.Option
use rw_manager_backend.Data.Value.{Number, nat, negative, inexact}
use rw_manager_backend.Driver.{Collection}

-- interfaces/server-statistics.ts
pub record ServerStatisticsSample : Type 0 where
  pub server_id : String
  pub sampled_at : ℕ
  pub online : Bool
  pub player_count : Number
  pub online_player_uids : Option (List String)

-- A bucket without what is computed from it. A field that is not in the document is none.
pub record BucketDoc : Type 0 where
  pub id : String
  pub server_id : String
  pub hour_start : ℕ
  pub sample_count : ℕ
  pub online_sample_count : ℕ
  pub player_sample_total : ℕ
  pub max_players : ℕ
  pub online_player_uids : Option (List String)
  pub updated_at : ℕ

-- A quotient of numbers; the program rounds it to a double.
pub record Ratio : Type 0 where
  pub numerator : ℕ
  pub denominator : ℕ

pub record ServerStatisticsBucket : Type 0 where
  pub doc : BucketDoc
  pub average_players : Ratio
  pub availability : Ratio

abbrev pub hour_ms : ℕ
hour_ms = 60 * 60 * 1000

unfoldable pub clamp_to_hour : ℕ → ℕ
clamp_to_hour date = date / hour_ms * hour_ms

abbrev pub filled_texts : List String → List String
filled_texts [] = []
filled_texts (s ∷ ss) =
    let rest = filled_texts ss in if str_eq (trim s) "" then rest else trim s ∷ rest

abbrev pub unique_strings : Option (List String) → List String
unique_strings none = []
unique_strings (some ss) = unique (filled_texts ss)

-- The ratios of a bucket, 0 without a sample.
unfoldable pub finalize_bucket : BucketDoc → ServerStatisticsBucket
finalize_bucket b = record {
  doc = record b { online_player_uids = some (unique_strings b.online_player_uids) };
  average_players = ratio b.player_sample_total;
  availability = ratio (b.online_sample_count * 100);
}
  where
    ratio : ℕ → Ratio
    ratio n =
        if nat_eq b.sample_count 0
        then record { numerator = 0; denominator = 1 }
        else record { numerator = n; denominator = b.sample_count }

abbrev pub has_id : String → BucketDoc → Bool
has_id id b = str_eq b.id id

-- `iso` is toISOString; `floor` is Math.floor of a number that is no integer, at least 0.
pub record Clock : Type 0 where
  pub iso : ℕ → String
  pub floor : String → ℕ

module _ (clock : Clock) where
  abbrev pub bucket_id : String → ℕ → String
  bucket_id server_id hour = String.◌++◌ server_id (String.◌∷◌ ":" (clock.iso hour))

  abbrev pub player_count_from_sample : ServerStatisticsSample → ℕ
  player_count_from_sample sample = counted sample.player_count
    where
      counted : Number → ℕ
      counted (nat n) = n
      counted (negative n) = 0
      counted (inexact s) = clock.floor s

  abbrev pub id_of : ServerStatisticsSample → String
  id_of sample = bucket_id sample.server_id (clamp_to_hour sample.sampled_at)

  -- The document with the first sample of a bucket.
  abbrev pub first_doc : ServerStatisticsSample → Option (List String) → BucketDoc
  first_doc sample uids = record {
    id = id_of sample;
    server_id = sample.server_id;
    hour_start = clamp_to_hour sample.sampled_at;
    sample_count = 1;
    online_sample_count = if sample.online then 1 else 0;
    player_sample_total = player_count_from_sample sample;
    max_players = max 0 (player_count_from_sample sample);
    online_player_uids = uids;
    updated_at = sample.sampled_at;
  }

  -- $inc, $max and $set, and `uids` for the uids.
  abbrev pub next_doc : ServerStatisticsSample → Option (List String) → BucketDoc → BucketDoc
  next_doc sample uids b = record b {
    sample_count = b.sample_count + 1;
    online_sample_count = b.online_sample_count + (if sample.online then 1 else 0);
    player_sample_total = b.player_sample_total + player_count_from_sample sample;
    max_players = max b.max_players (player_count_from_sample sample);
    online_player_uids = uids;
    updated_at = sample.sampled_at;
  }

-- $addToSet with $each
abbrev pub add_to_set : List String → List String → List String
add_to_set old [] = old
add_to_set old (s ∷ ss) =
    let there = add_to_set old ss in
    let added = add_to_set (old ++ s ∷ []) ss in if includes s old then there else added

-- Without a uid the field is left as it was.
abbrev pub add_uids : List String → Option (List String) → Option (List String)
add_uids [] old = old
add_uids (s ∷ ss) old = some (add_to_set (get_or old []) (s ∷ ss))

-- serverStatistics in MongoDB, beside the array of the ephemeral store, or that array alone.
pub data Statistics (buckets : Collection BucketDoc) : Type 0 where
  memory : List ServerStatisticsBucket → Statistics buckets
  mongo : buckets.State → List ServerStatisticsBucket → Statistics buckets

module _ (clock : Clock) where
  abbrev pub bucket_has_id : String → ServerStatisticsBucket → Bool
  bucket_has_id id b = str_eq b.doc.id id

  abbrev pub next_json :
      ServerStatisticsSample → Option ServerStatisticsBucket → ServerStatisticsBucket
  next_json sample none = finalize_bucket (
      first_doc clock sample
        (some (unique_strings (some (unique_strings sample.online_player_uids)))))
  next_json sample (some b) =
      let old = get_or b.doc.online_player_uids [] in
      finalize_bucket (
        next_doc clock sample
          (some (unique_strings (some (old ++ unique_strings sample.online_player_uids)))) b.doc)

  -- In memory: the array with the new bucket, and the bucket.
  abbrev pub record_json :
      ServerStatisticsSample
      → List ServerStatisticsBucket
      → ServerStatisticsBucket × List ServerStatisticsBucket
  record_json sample bs =
      let id = id_of clock sample in
      let next = next_json sample (find? (bucket_has_id id) bs) in
      (next, upsert (bucket_has_id id) (λ _. next) next bs)

module _ (clock : Clock) (buckets : Collection BucketDoc) where
  -- What is answered: the document as it is found, or, if it is not, the bucket in memory.
  abbrev pub record_found :
      ServerStatisticsSample
      → Option BucketDoc
      → buckets.State
      → List ServerStatisticsBucket
      → ServerStatisticsBucket × Statistics buckets
  record_found sample (some b) s bs = (finalize_bucket b, mongo s bs)
  record_found sample none s bs =
      let (next, bs') = record_json clock sample bs in (next, mongo s bs')

  unfoldable pub record_server_statistics_sample :
      ServerStatisticsSample → Statistics buckets → ServerStatisticsBucket × Statistics buckets
  record_server_statistics_sample sample (memory bs) =
      let (next, bs') = record_json clock sample bs in (next, memory bs')
  record_server_statistics_sample sample (mongo s bs) =
      let id = id_of clock sample in
      let uids = unique_strings sample.online_player_uids in
      let s' =
        buckets.upsert_one (has_id id)
          (λ b. next_doc clock sample (add_uids uids b.online_player_uids) b)
          (first_doc clock sample (add_uids uids none)) s in
      record_found sample (buckets.find_one (has_id id) s') s' bs
