-- ===== src/Statistics/Service.antt =====
-- service/server-statistics-service.ts: the statistics of one server and of all.
use rw_manager_backend.Base.{
  ℕ, String, Bool, false, ◌||◌, Option, none, some, List, [], ◌∷◌, ◌++◌, map, sort, unique, str_eq,
  trim, leb, get_or, map_get, map_set, map_has, Entries, if◌then◌else◌, Code, Result, ok, err,
  from_invalid, to_invalid, date_range_invalid, server_not_found,
}
use rw_manager_backend.Data.Value.{Value, undefined, text?}
use rw_manager_backend.Data.Player.{DbPlayer}
use rw_manager_backend.Data.Server.{ServerConfig}
use rw_manager_backend.Driver.{Collection}
use rw_manager_backend.Store.State.{MongoCollections, Store}
use rw_manager_backend.Store.Servers.{find_server_by_id}
use rw_manager_backend.Statistics.{BucketDoc, ServerStatisticsBucket, Statistics}
use rw_manager_backend.Statistics.Listing.{
  list_server_statistics_buckets, list_global_statistics_buckets,
}

abbrev read_date : (String → Option ℕ) → Code → Option String → Result (Option ℕ)
read_date date_ms code none = err code
read_date date_ms code (some s) =
    if str_eq (trim s) ""
    then err code
    else elim (date_ms s) [ none ↦ err code | some t ↦ ok (some t) ]

-- `date_ms s` is the time of `new Date(s)`, or none where it is no date.
unfoldable pub parse_date : (String → Option ℕ) → Code → Value → Result (Option ℕ)
parse_date date_ms code undefined = ok none
parse_date date_ms code v = read_date date_ms code (text? v)

-- from && to && from >= to
abbrev pub is_empty_range : Option ℕ → Option ℕ → Bool
is_empty_range (some from) (some to) = leb to from
is_empty_range from to = false

pub record Range : Type 0 where
  pub from : Option ℕ
  pub to : Option ℕ

abbrev pub range_of : Option ℕ → Option ℕ → Result Range
range_of from to =
    if is_empty_range from to then err date_range_invalid else ok (record { from = from; to = to })

abbrev with_to : Option ℕ → Result (Option ℕ) → Result Range
with_to from (err e) = err e
with_to from (ok to) = range_of from to

abbrev with_from : Result (Option ℕ) → Result (Option ℕ) → Result Range
with_from (err e) to = err e
with_from (ok from) to = with_to from to

unfoldable pub parse_range : (String → Option ℕ) → Value → Value → Result Range
unfolding parse_date
parse_range date_ms from to =
    with_from (parse_date date_ms from_invalid from) (parse_date date_ms to_invalid to)

-- The dates of the answer are those of the range.
pub record ServerStatisticsResponse : Type 0 where
  pub server_id : String
  pub range : Range
  pub buckets : List ServerStatisticsBucket

pub record NamedPlayer : Type 0 where
  pub uid : String
  pub name : Option String

pub record GlobalStatisticsResponse : Type 0 where
  pub range : Range
  pub buckets : List ServerStatisticsBucket
  pub players : List NamedPlayer

-- The first name of each player.
unfoldable pub add_names : Entries String → List DbPlayer → Entries String
add_names names [] = names
add_names names (p ∷ ps) = add_names (add p.name) ps
  where
    add : Option String → Entries String
    add none = names
    add (some name) =
        if str_eq name "" || map_has p.uid names then names else map_set p.uid name names

abbrev all_uids : List ServerStatisticsBucket → List String
all_uids [] = []
all_uids (b ∷ bs) = get_or b.doc.online_player_uids [] ++ all_uids bs

module _ (m : MongoCollections) (buckets : Collection BucketDoc) where
  answer : String → Statistics buckets → Result Range → Result ServerStatisticsResponse
  answer server_id st (err e) = err e
  answer server_id st (ok range) = ok (record {
    server_id = server_id;
    range = range;
    buckets = list_server_statistics_buckets buckets server_id range.from range.to st;
  })

  unfoldable pub get_server_statistics :
      (String → Option ℕ)
      → String
      → Value
      → Value
      → Store m
      → Statistics buckets
      → Result ServerStatisticsResponse
  unfolding answer
  get_server_statistics date_ms server_id from to store st =
      elim (find_server_by_id m server_id store) [
        | none ↦ err server_not_found
        | some server ↦ answer server_id st (parse_range date_ms from to)
      ]

  -- `cached` is getCachedServerPlayers.
  names_of : (String → List DbPlayer) → Store m → Entries String → List String → Entries String
  names_of cached store names [] = names
  names_of cached store names (id ∷ ids) =
      names_of cached store (add_names names (cached id ++ known (find_server_by_id m id store)))
        ids
    where
      known : Option ServerConfig → List DbPlayer
      known none = []
      known (some server) = get_or server.known_players []

  global_of :
      (String → List DbPlayer)
      → Store m
      → Range
      → List ServerStatisticsBucket
      → GlobalStatisticsResponse
  unfolding names_of
  global_of cached store range bs =
      let ids = unique (map (λ (b : ServerStatisticsBucket). b.doc.server_id) bs) in
      let names = names_of cached store [] ids in
      record {
        range = range;
        buckets = bs;
        players =
            map (λ uid. record { uid = uid; name = map_get uid names })
              (sort (unique (all_uids bs)));
      }

  unfoldable pub get_global_statistics :
      (String → Option ℕ)
      → (locale_before binary_before : String → String → Bool) → (String → List DbPlayer)
      → Value
      → Value
      → Store m
      → Statistics buckets
      → Result GlobalStatisticsResponse
  unfolding global_of
  get_global_statistics date_ms locale_before binary_before cached from to store st =
      elim (parse_range date_ms from to) [
        | err e ↦ err e
        | ok range ↦ ok (
            global_of cached store range (
              list_global_statistics_buckets buckets locale_before binary_before range.from range.to
                st))
      ]
