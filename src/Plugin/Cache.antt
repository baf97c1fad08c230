-- ===== src/Plugin/Cache.antt =====
-- service/plugin-data-cache-service.ts: the cache of what the plugins of a server tell. What a server
-- answers is an argument; requests for one server stand one after the other.
pub mod Keyed
pub mod Read
pub mod Current
use Prim.Native.String
use mathlib.Core.Option
use rw_manager_backend.Base.{
  ℕ, String, Bool, true, false, not, ◌&&◌, ◌||◌, ◌+◌, Option, none, some, List, [], ◌∷◌, ◌++◌,
  length, any, map, filter, ltb, leb, nat_eq, str_eq, opt_eq, includes, or_else, get_or, is_some,
  map_get, map_set, map_delete, sort_by, Entries, trim, split_on, if◌then◌else◌,
}
use rw_manager_backend.Data.Value.{Value, Number, nat, num, get, text?, array?}
use rw_manager_backend.Data.Player.{DbPlayer}
use rw_manager_backend.Data.Server.{ServerConfig}
use rw_manager_backend.Config.{AppConfig, max_safe_integer}
use rw_manager_backend.Store.State.{MongoCollections, Store}
use rw_manager_backend.Store.Patch.{ServerPatch, no_patch}
use rw_manager_backend.Store.Servers.{find_server_by_id, update_server, list_servers}
use rw_manager_backend.Players.{merge_known_players}
use rw_manager_backend.Native.Plugins.{QueryPluginInfo, native_plugin_route_id}
use rw_manager_backend.Native.AdminInfo.{NativeAdminUtilsInfo, parse_native_admin_utils_info}
use rw_manager_backend.Plugin.Players.{players_from_plugin_payload}
use rw_manager_backend.Plugin.Values.{PluginAnswers, PluginHost, plugin_values}

-- `online_players` is the field __onlinePlayers of the data; `values` are the others.
pub record PluginDataCacheEntry : Type 0 where
  pub server_id : String
  pub refreshed_at_ms : ℕ
  pub expires_at_ms : ℕ
  pub plugins : List QueryPluginInfo
  pub values : Entries Value
  pub online_players : Option (List Value)

pub data SkippedReason : Type 0 where
  no_query_url no_plugin_list : SkippedReason

pub data PluginDataRefreshResult : Type 0 where
  refreshed : PluginDataCacheEntry → PluginDataRefreshResult
  skipped : SkippedReason → PluginDataRefreshResult

abbrev pub Cache : Type 0
Cache = Entries PluginDataCacheEntry

abbrev unexpired : ℕ → PluginDataCacheEntry → Bool
unexpired now e = ltb now e.expires_at_ms

-- An entry that has expired is deleted.
abbrev kept : ℕ → String → Cache → Option PluginDataCacheEntry → Option PluginDataCacheEntry × Cache
kept now id cache none = (none, cache)
kept now id cache (some e) =
    if unexpired now e then (some e, cache) else (none, map_delete id cache)

unfoldable pub get_cached_plugin_data : ℕ → String → Cache → Option PluginDataCacheEntry × Cache
get_cached_plugin_data now id cache = kept now id cache (map_get id cache)

abbrev pub clear_plugin_data_cache : Cache → Cache
clear_plugin_data_cache cache = []

abbrev first : List PluginDataCacheEntry → Option PluginDataCacheEntry
first [] = none
first (e ∷ es) = some e

unfoldable pub get_first_cached_plugin_data : ℕ → Cache → Option PluginDataCacheEntry
get_first_cached_plugin_data now cache = first (
    sort_by (λ a b. ltb b.refreshed_at_ms a.refreshed_at_ms)
      (filter (unexpired now) (map (λ (e : String × PluginDataCacheEntry). e.1) cache)))

module _ (host : PluginHost) where
  module _ (m : MongoCollections) (config : AppConfig) where
    pub record PluginWorld : Type 0 where
      pub store : Store m
      pub cache : Cache

    abbrev store_info : ServerConfig → Option NativeAdminUtilsInfo → Store m → Store m
    store_info server none st = st
    store_info server (some info) st =
        if not (opt_eq server.map_url (some info.map_url))
          || not (opt_eq server.admin_uid (some info.admin_uid))
        then (update_server m server.id
            (record no_patch { map_url = some info.map_url; admin_uid = some info.admin_uid }) st).1
        else st

    -- stored?.knownPlayers ?? server.knownPlayers
    abbrev known_players_of : ServerConfig → Option ServerConfig → Option (List DbPlayer)
    known_players_of server stored =
        or_else (Option.bind stored (λ s. s.known_players)) server.known_players

    abbrev store_players : ServerConfig → List DbPlayer → Store m → Store m
    store_players server [] st = st
    store_players server (p ∷ ps) st =
        let stored = find_server_by_id m server.id st in
        (update_server m server.id
          (record no_patch {
            known_players = merge_known_players (known_players_of server stored) (p ∷ ps);
          })
          st).1

    abbrev players_of : Option Value → List DbPlayer
    players_of none = []
    players_of (some payload) = players_from_plugin_payload host.show_number payload

    -- The updates of the stored server.
    abbrev pub store_values : ServerConfig → Entries Value → Store m → Store m
    store_values server values st =
        store_players server (players_of (map_get "ozadminutils.playerlist" values)) (
          store_info server
            (Option.bind (map_get "ozadminutils.info" values)
              (parse_native_admin_utils_info host.http_href))
            st)

    abbrev pub entry_of :
        ServerConfig → PluginAnswers → List QueryPluginInfo → ℕ → PluginDataCacheEntry
    entry_of server answers plugins now = record {
      server_id = server.id;
      refreshed_at_ms = now;
      expires_at_ms = now + config.plugin_data_cache_ttl_ms;
      plugins = plugins;
      values = plugin_values host answers plugins;
      online_players = or_else answers.online server.online_players;
    }

    abbrev pub refresh_with :
        ServerConfig
        → PluginAnswers
        → ℕ
        → PluginWorld
        → Option (List QueryPluginInfo)
        → PluginDataRefreshResult × PluginWorld
    refresh_with server answers now w none = (skipped no_plugin_list, w)
    refresh_with server answers now w (some plugins) =
        let entry = entry_of server answers plugins now in
        (
          refreshed entry,
          record {
            store = store_values server entry.values w.store;
            cache = map_set server.id entry w.cache;
          },
        )

    abbrev pub normalized_url : String → Option String
    normalized_url url = if str_eq url "" then none else host.href url

    abbrev pub refresh_at :
        Option String
        → ServerConfig
        → PluginAnswers
        → ℕ
        → PluginWorld
        → PluginDataRefreshResult × PluginWorld
    refresh_at none server answers now w = (skipped no_query_url, w)
    refresh_at (some url) server answers now w = refresh_with server answers now w answers.plugins

    -- `now` is the time when all has been answered.
    unfoldable pub refresh_plugin_data_for_server :
        ServerConfig → PluginAnswers → ℕ → PluginWorld → PluginDataRefreshResult × PluginWorld
    refresh_plugin_data_for_server server answers now w =
        refresh_at (normalized_url server.query_url) server answers now w

    -- The counts of a refresh of all servers.
    pub record PluginDataRefreshAllResult : Type 0 where
      pub checked : ℕ
      pub refreshed_servers : ℕ
      pub skipped_servers : ℕ

    abbrev count : PluginDataRefreshResult → PluginDataRefreshAllResult → PluginDataRefreshAllResult
    count (refreshed e) r = record r {
      checked = r.checked + 1;
      refreshed_servers = r.refreshed_servers + 1;
    }
    count (skipped reason) r = record r {
      checked = r.checked + 1;
      skipped_servers = r.skipped_servers + 1;
    }

    -- One server after the other; `answers` are those of each.
    pub refresh_each :
        (ServerConfig → PluginAnswers)
        → ℕ
        → List ServerConfig
        → PluginWorld
        → PluginDataRefreshAllResult × PluginWorld
    refresh_each answers now [] w =
        (record { checked = 0; refreshed_servers = 0; skipped_servers = 0 }, w)
    refresh_each answers now (server ∷ servers) w =
        let (result, w') = refresh_plugin_data_for_server server (answers server) now w in
        let (counts, w'') = refresh_each answers now servers w' in (count result counts, w'')

    unfoldable pub refresh_plugin_data_for_online_servers :
        (ServerConfig → PluginAnswers) → ℕ → PluginWorld → PluginDataRefreshAllResult × PluginWorld
    unfolding refresh_each
    refresh_plugin_data_for_online_servers answers now w =
        refresh_each answers now (list_servers m w.store) w

    abbrev pub entry? : PluginDataRefreshResult → Option PluginDataCacheEntry
    entry? (refreshed e) = some e
    entry? (skipped reason) = none

    -- The age is below the maximum, where there is one.
    abbrev pub is_young : ℕ → Option ℕ → PluginDataCacheEntry → Bool
    is_young now none e = true
    is_young now (some age) e = ltb now (e.refreshed_at_ms + age)

    abbrev pub ensure_with :
        Option ℕ
        → ServerConfig
        → PluginAnswers
        → (now answered : ℕ) → PluginWorld
        → Option PluginDataCacheEntry
        → Option PluginDataCacheEntry × PluginWorld
    ensure_with maximum server answers now answered w none =
        let (result, w') = refresh_plugin_data_for_server server answers answered w in
        (entry? result, w')
    ensure_with maximum server answers now answered w (some e) =
        let (result, w') = refresh_plugin_data_for_server server answers answered w in
        if is_young now maximum e then (some e, w) else (entry? result, w')

    -- `now` is the time of the call, and `answered` the time when all has been answered.
    unfoldable pub ensure_plugin_data_for_server :
        Option ℕ
        → ServerConfig
        → PluginAnswers
        → (now answered : ℕ) → PluginWorld
        → Option PluginDataCacheEntry × PluginWorld
    ensure_plugin_data_for_server maximum server answers now answered w =
        let (cached, cache) = get_cached_plugin_data now server.id w.cache in
        ensure_with maximum server answers now answered (record w { cache = cache }) cached
