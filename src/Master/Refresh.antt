-- ===== src/Master/Refresh.antt =====
-- `runMasterServerListRefresh` and `refreshAllServerQueryData`. What is fetched is an argument: the
-- parsed master list, and the answers of each server.
use rw_manager_backend.Base.{
  ℕ, String, Bool, true, false, not, ◌+◌, ◌-◌, ◌*◌, Option, none, some, List, [], ◌∷◌, ◌++◌, length,
  str_eq, nat_eq, get_or, if◌then◌else◌,
}
use rw_manager_backend.Data.Value.{
  Value, undefined, null, bool, num, text, array, object, nat, negative, inexact, get, array?,
}
use rw_manager_backend.Data.Server.{ServerConfig}
use rw_manager_backend.Config.{AppConfig}
use rw_manager_backend.Driver.{Collection}
use rw_manager_backend.Store.State.{MongoCollections, Store}
use rw_manager_backend.Store.Servers.{
  list_servers, find_server_by_master_endpoint, save_server, save_master_server,
}
use rw_manager_backend.Store.Users.{replace_pinned_server_id}
use rw_manager_backend.Store.Prune.{remove_stale_master_servers}
use rw_manager_backend.Statistics.{
  BucketDoc, Clock, Statistics, ServerStatisticsSample, record_server_statistics_sample,
}
use rw_manager_backend.Live.Response.{stored_live_status_response}
use rw_manager_backend.Live.Updates.{Update}
use rw_manager_backend.Master.Entry.{
  MasterHost, string_or_undefined, number_or_undefined, query_url_for, server_id_for,
  apply_master_entry, first_listed,
}
use rw_manager_backend.Master.Query.{Answers, refresh_query_data}

-- MasterServerListSyncResult, with the ids that were pruned.
pub record SyncResult : Type 0 where
  pub fetched : ℕ
  pub inserted : ℕ
  pub updated : ℕ
  pub refreshed : ℕ
  pub stale_ids : List String

abbrev pub no_result : SyncResult
no_result = record { fetched = 0; inserted = 0; updated = 0; refreshed = 0; stale_ids = [] }

abbrev pub thirty_days_ms : ℕ
thirty_days_ms = 30 * 24 * 60 * 60 * 1000

-- !!value
abbrev pub is_truthy : Value → Bool
is_truthy undefined = false
is_truthy null = false
is_truthy (bool b) = b
is_truthy (num (nat n)) = not (nat_eq n 0)
is_truthy (num (negative n)) = true
is_truthy (num (inexact s)) = not (str_eq s "NaN")
is_truthy (text s) = not (str_eq s "")
is_truthy (array vs) = true
is_truthy (object ps) = true

-- The addresses and settings of the program, and what the servers answer.
pub record Surroundings : Type 0 where
  pub config : AppConfig
  pub host : MasterHost
  pub http_href : String → Option String
  pub clock : Clock
  pub answers : ServerConfig → Answers

module _ (m : MongoCollections) (buckets : Collection BucketDoc) where
  -- The store, the statistics, and the updates that are published.
  pub record World : Type 0 where
    pub store : Store m
    pub statistics : Statistics buckets
    pub updates : List Update

  module _ (around : Surroundings) (now : ℕ) where
    abbrev pub publish : ServerConfig → World → World
    publish server w = record w {
      updates =
          w.updates
          ++ record { server_id = server.id; value = stored_live_status_response now server } ∷ [];
    }

    abbrev pub add_sample : ServerStatisticsSample → World → World
    add_sample sample w = record w {
      statistics = (record_server_statistics_sample around.clock buckets sample w.statistics).1;
    }

    abbrev pub refreshed? : Bool → ServerConfig → Option (ServerConfig × ServerStatisticsSample)
    refreshed? false server = none
    refreshed? true server =
        refresh_query_data around.http_href around.config server (around.answers server) now

    -- The server is saved, and published where it was refreshed.
    abbrev pub save_listed :
        ServerConfig
        → Option (ServerConfig × ServerStatisticsSample)
        → SyncResult × World
        → SyncResult × World
    save_listed server none (r, w) =
        (r, record w { store = (save_master_server m server w.store).1 })
    save_listed server (some (next, sample)) (r, w) =
        let w' = add_sample sample w in
        (
          record r { refreshed = r.refreshed + 1 },
          publish next (record w' { store = (save_master_server m next w'.store).1 }),
        )

    -- The server that is stored at the endpoint, under its id of the list, or a new one.
    abbrev pub listed_server :
        (id url : String)
        → Option ServerConfig
        → SyncResult × World
        → ServerConfig × (SyncResult × World)
    listed_server id url none (r, w) =
        (first_listed id url now, (record r { inserted = r.inserted + 1 }, w))
    listed_server id url (some old) (r, w) = (
      record old { id = id },
      (
        record r { updated = r.updated + 1 },
        record w { store = replace_pinned_server_id m old.id id w.store },
      ),
    )

    abbrev pub process_at :
        Bool
        → Value
        → (id url ip : Option String) → Option ℕ
        → SyncResult × World
        → SyncResult × World
    process_at refresh entry (some id) (some url) (some ip) (some port) (r, w) =
        let (server, rw') =
          listed_server id url (find_server_by_master_endpoint m ip port w.store) (r, w) in
        let applied = apply_master_entry around.host server entry now in
        save_listed applied (refreshed? refresh applied) rw'
    process_at refresh entry (some id) (some url) (some ip) none (r, w) = (r, w)
    process_at refresh entry (some id) (some url) none port (r, w) = (r, w)
    process_at refresh entry (some id) none ip port (r, w) = (r, w)
    process_at refresh entry none url ip port (r, w) = (r, w)

    unfoldable pub process_entry : Bool → Value → SyncResult × World → SyncResult × World
    process_entry refresh entry rw' =
        process_at refresh entry (server_id_for around.host entry) (query_url_for around.host entry)
          (string_or_undefined (get "ip" entry)) (number_or_undefined (get "port" entry)) rw'

    unfoldable pub process_entries : Bool → List Value → SyncResult × World → SyncResult × World
    process_entries refresh [] rw' = rw'
    process_entries refresh (entry ∷ entries) rw' =
        process_entries refresh entries (process_entry refresh entry rw')

    abbrev pub sync : Bool → List Value → World → SyncResult × World
    sync refresh entries w =
        let (r, w') = process_entries refresh entries (no_result, w) in
        let (ids, store) = remove_stale_master_servers m (now - thirty_days_ms) w'.store in
        (record r { fetched = length entries; stale_ids = ids }, record w' { store = store })

    -- `response` is none where the request fails.
    unfoldable pub run_master_server_list_refresh : Bool → Option Value → World → SyncResult × World
    run_master_server_list_refresh refresh none w = (no_result, w)
    run_master_server_list_refresh refresh (some response) w =
        if is_truthy (get "successful" response)
        then sync refresh (get_or (array? (get "data" response)) []) w
        else (no_result, w)

    abbrev save_refreshed :
        Option (ServerConfig × ServerStatisticsSample) → SyncResult × World → SyncResult × World
    save_refreshed none (r, w) = (r, w)
    save_refreshed (some (next, sample)) (r, w) =
        let w' = add_sample sample w in
        (
          record r { refreshed = r.refreshed + 1 },
          publish next (record w' { store = (save_server m next w'.store).1 }),
        )

    refresh_servers : List ServerConfig → SyncResult × World → SyncResult × World
    refresh_servers [] rw' = rw'
    refresh_servers (server ∷ servers) rw' =
        refresh_servers servers (save_refreshed (refreshed? true server) rw')

    unfoldable pub refresh_all_server_query_data : World → SyncResult × World
    unfolding refresh_servers
    refresh_all_server_query_data w =
        let servers = list_servers m w.store in
        refresh_servers servers (record no_result { fetched = length servers }, w)
