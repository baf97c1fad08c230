-- ===== src/Plugin/Cache/Read.antt =====
-- service/server-plugin-data-service.ts: what is read from the cache of plugin data.
use mathlib.Core.Option
use rw_manager_backend.Base.{
  ℕ, String, not, Option, none, some, List, [], map, filter, str_eq, get_or, map_get, trim,
  split_on, if◌then◌else◌,
}
use rw_manager_backend.Data.Value.{Value, get, text?}
use rw_manager_backend.Data.Player.{DbPlayer}
use rw_manager_backend.Native.AdminInfo.{NativeAdminUtilsInfo, parse_native_admin_utils_info}
use rw_manager_backend.Plugin.Players.{players_from_plugin_payload}
use rw_manager_backend.Plugin.Values.{PluginHost}
use rw_manager_backend.Plugin.Cache.{
  PluginDataCacheEntry, Cache, get_first_cached_plugin_data, get_cached_plugin_data,
}

-- cacheEntry of service/server-plugin-data-service.ts, with what is left in the cache
abbrev pub cache_entry : ℕ → Option String → Cache → Option PluginDataCacheEntry × Cache
cache_entry now none cache = (get_first_cached_plugin_data now cache, cache)
cache_entry now (some id) cache =
    if str_eq id ""
    then (get_first_cached_plugin_data now cache, cache)
    else get_cached_plugin_data now id cache

-- The field of an entry that is there.
abbrev value_of : String → Option PluginDataCacheEntry → Option Value
value_of key entry = Option.bind entry (λ (e : PluginDataCacheEntry). map_get key e.values)

abbrev config_of : Option Value → Option Value
config_of payload = Option.bind payload (λ v. record? (get "config" v))
  where
    record? : Value → Option Value
    record? (Value.object fields) = some (Value.object fields)
    record? v = none

abbrev admins_of : Option NativeAdminUtilsInfo → Option Value → List String
admins_of (some info) config = info.admins
admins_of none config =
    filter (λ s. not (str_eq s ""))
      (map trim (split (Option.bind config (λ v. text? (get "Server_Admins" v)))))
  where
    split : Option String → List String
    split none = []
    split (some s) = split_on ";" s

-- What the cache tells of a server at a time, or of the server that was refreshed last.
module _ (host : PluginHost) (now : ℕ) (server_id : Option String) (cache : Cache) where
  abbrev entry : Option PluginDataCacheEntry
  entry = (cache_entry now server_id cache).0

  unfoldable pub get_cached_server_players : List DbPlayer
  get_cached_server_players = players_of_payload (value_of "ozadminutils.playerlist" entry)
    where
      players_of_payload : Option Value → List DbPlayer
      players_of_payload none = []
      players_of_payload (some v) = players_from_plugin_payload host.show_number v

  -- `none` stands for the empty configuration.
  abbrev pub get_cached_server_config : Option Value
  get_cached_server_config = config_of (value_of "ozadminutils.serverConfig" entry)

  unfoldable pub get_cached_server_admin_list : List String
  get_cached_server_admin_list =
      admins_of
        (Option.bind (value_of "ozadminutils.info" entry)
          (parse_native_admin_utils_info host.http_href))
        get_cached_server_config

  unfoldable pub get_cached_server_name : String
  get_cached_server_name =
      get_or (Option.bind get_cached_server_config (λ v. text? (get "Server_Name" v))) ""
