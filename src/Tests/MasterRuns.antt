-- ===== src/Tests/MasterRuns.antt =====
-- The theorem of the master list: an entry at the endpoint of a stored server.
use rw_manager_backend.Base.{
  true, none, some, List, [], ◌∷◌, ◌≡◌, refl, arith, any, trim, trim_start, trim_end, is_space,
}
use rw_manager_backend.Data.Value.{Value, text, num, nat, object, prop, end}
use rw_manager_backend.Data.Server.{ServerConfig}
use rw_manager_backend.Store.Servers.{find_server_by_master_endpoint}
use rw_manager_backend.Statistics.{BucketDoc, memory}
use rw_manager_backend.Master.Query.{failed}
use rw_manager_backend.Master.Refresh.{World, Surroundings, no_result, process_entries}
use rw_manager_backend.Master.Listed.{IsSeen}
use rw_manager_backend.Master.Seen.{is_at, listed-IsSeen}
use rw_manager_backend.Tests.Fixtures.{lists, listed, in_mongo, config}

abbrev entries : List Value
entries =
    object
      (prop "ip" (text "10.0.0.7") (prop "port" (num (nat 4255)) (prop "name" (text "Alpha") end)))
    ∷ []

abbrev around : Surroundings
around = record {
  config = config;
  host = record { show = λ n. "n"; hash_24 = λ s. "hash" };
  http_href = λ s. none;
  clock = record { iso = λ t. "hour"; floor = λ s. 0 };
  answers = λ s. record {
    query = failed "HTTP 500";
    info = failed "HTTP 500";
    playerlist = failed "HTTP 500";
    native_info = none;
  };
}

abbrev world : World lists (listed BucketDoc)
world = record { store = in_mongo; statistics = memory []; updates = [] }

names_alpha : any (is_at "10.0.0.7" 4255) entries ≡ true
unfolding any trim trim_start trim_end is_space
names_alpha = refl

listed-IsSeen_example :
    (s : ServerConfig) × (find_server_by_master_endpoint lists "10.0.0.7" 4255
        (process_entries lists (listed BucketDoc) around 9 true entries (no_result, world)).1.store
      ≡ some s)
    × IsSeen 9 (find_server_by_master_endpoint lists "10.0.0.7" 4255 in_mongo) s
listed-IsSeen_example =
    listed-IsSeen lists (listed BucketDoc) around 9 true entries no_result world "10.0.0.7" 4255
      names_alpha (omega arith)
