-- ===== src/Config.antt =====
-- src/utils/app-config.ts: settings from the environment. `env` is process.env, `to_number` the
-- conversion `Number(value)`.
pub mod Bounds
use rw_manager_backend.Base.{
  ℕ, String, Bool, true, false, ◌&&◌, Option, none, some, List, max, ◌^◌, ◌-◌, leb, get_or, or_else,
  trim, str_eq, if◌then◌else◌,
}
use rw_manager_backend.Data.Value.{Number, nat, negative, inexact}
use rw_manager_backend.Data.User.{UserRole, guest, user, admin}

abbrev pub max_safe_integer : ℕ
max_safe_integer = 2 ^ 53 - 1

-- Number.isSafeInteger(parsed) && parsed >= minimum && parsed <= maximum. The minimums are positive.
abbrev in_bounds : Number → ℕ → ℕ → ℕ → ℕ
in_bounds (nat n) fallback least most =
    if leb n max_safe_integer && leb least n && leb n most then n else fallback
in_bounds (negative n) fallback least most = fallback
in_bounds (inexact s) fallback least most = fallback

abbrev is_flag : Option String → Bool
is_flag none = false
is_flag (some s) = str_eq s "true"

module _ (to_number : String → Number) where
  unfoldable pub bounded_integer : Option String → ℕ → ℕ → ℕ → ℕ
  bounded_integer none fallback least most = fallback
  bounded_integer (some value) fallback least most = in_bounds (to_number value) fallback least most

-- The settings, but for folders, the tiles of the map, logging, and the keys and proxies of the connector, which are
-- arguments there.
pub record AppConfig : Type 0 where
  pub enable_storage : Bool
  pub enable_data : Bool
  pub enable_auth : Bool
  pub force_auth : Bool
  pub super_admin_id : String
  pub default_user_role : UserRole
  pub max_pinned_servers : ℕ
  pub server_live_max_server_ids : ℕ
  pub map_recent_player_days : ℕ
  pub master_server_list_refresh_interval_ms : ℕ
  pub master_server_list_timeout_ms : ℕ
  pub master_server_list_url : String
  pub server_query_refresh_interval_ms : ℕ
  pub server_info_refresh_on_startup_ms : ℕ
  pub player_list_refresh_interval_ms : ℕ
  pub active_player_list_refresh_interval_ms : ℕ
  pub player_list_refresh_concurrency : ℕ
  pub player_list_timeout_ms : ℕ
  pub plugin_data_refresh_interval_ms : ℕ
  pub plugin_data_cache_ttl_ms : ℕ
  pub map_player_layer_cache_ttl_ms : ℕ
  pub map_live_refresh_interval_ms : ℕ
  pub live_query_proxy_cache_ttl_ms : ℕ
  pub live_query_proxy_timeout_ms : ℕ
  pub mongo_uri : Option String
  pub mongo_database_name : String
  pub mongo_connect_timeout_ms : ℕ
  pub map_server_id : Option String
  pub auth_session_secret : String
  pub steam_api_key : Option String
  pub steam_open_id_return_origin : Option String

-- value?.trim() || undefined
abbrev trimmed : Option String → Option String
trimmed none = none
trimmed (some s) = if str_eq (trim s) "" then none else some (trim s)

-- A role that the list of valid roles names.
abbrev role_of : Option String → UserRole
role_of none = user
role_of (some s) = if str_eq s "guest" then guest else if str_eq s "admin" then admin else user

unfoldable pub from_env : (String → Number) → (String → Option String) → AppConfig
unfolding bounded_integer
from_env to_number env = record {
  enable_storage = is_flag (env "ENABLE_STORAGE");
  enable_data = is_flag (env "ENABLE_DATA");
  enable_auth = is_flag (env "ENABLE_AUTH");
  force_auth = is_flag (env "FORCE_AUTH");
  super_admin_id = get_or (env "SUPER_ADMIN_ID") "";
  default_user_role = role_of (env "DEFAULT_USER_ROLE");
  max_pinned_servers = bounded "MAX_PINNED_SERVERS" 50 1 1000;
  server_live_max_server_ids =
      max (bounded "MAX_PINNED_SERVERS" 50 1 1000)
        (bounded "SERVER_LIVE_MAX_SERVER_IDS" 1000 1 1000);
  map_recent_player_days = bounded "MAP_RECENT_PLAYER_DAYS" 7 1 3650;
  master_server_list_url =
      get_or (env "MASTER_SERVER_LIST_URL") "https://api.rising-world.net/v5/serverlist";
  master_server_list_refresh_interval_ms =
      bounded "MASTER_SERVER_LIST_REFRESH_INTERVAL_MS" 60000 60000 max_safe_integer;
  master_server_list_timeout_ms = bounded "MASTER_SERVER_LIST_TIMEOUT_MS" 8000 1000 30000;
  server_query_refresh_interval_ms =
      bounded "SERVER_QUERY_REFRESH_INTERVAL_MS" 600000 60000 max_safe_integer;
  server_info_refresh_on_startup_ms =
      bounded "SERVER_INFO_REFRESH_ON_STARTUP_MS" 600000 60000 max_safe_integer;
  player_list_refresh_interval_ms =
      bounded "PLAYERLIST_REFRESH_INTERVAL_MS" 180000 5000 max_safe_integer;
  active_player_list_refresh_interval_ms =
      bounded "ACTIVE_PLAYERLIST_REFRESH_INTERVAL_MS" 30000 5000 max_safe_integer;
  player_list_refresh_concurrency = bounded "PLAYERLIST_REFRESH_CONCURRENCY" 20 1 100;
  player_list_timeout_ms = bounded "PLAYERLIST_TIMEOUT_MS" 5000 1000 30000;
  plugin_data_refresh_interval_ms =
      bounded "PLUGIN_DATA_REFRESH_INTERVAL_MS" 60000 10000 max_safe_integer;
  plugin_data_cache_ttl_ms = bounded "PLUGIN_DATA_CACHE_TTL_MS" 300000 60000 max_safe_integer;
  map_player_layer_cache_ttl_ms =
      bounded "MAP_PLAYER_LAYER_CACHE_TTL_MS" 30000 5000 max_safe_integer;
  map_live_refresh_interval_ms = bounded "MAP_LIVE_REFRESH_INTERVAL_MS" 2000 1000 60000;
  live_query_proxy_cache_ttl_ms = bounded "LIVE_QUERY_PROXY_CACHE_TTL_MS" 5000 1000 60000;
  live_query_proxy_timeout_ms = bounded "LIVE_QUERY_PROXY_TIMEOUT_MS" 8000 1000 30000;
  mongo_uri = or_else (trimmed (env "MONGODB_URI")) (trimmed (env "MONGO_URI"));
  mongo_database_name = get_or (trimmed (env "MONGODB_DATABASE")) "rw-manager";
  mongo_connect_timeout_ms = bounded "MONGODB_CONNECT_TIMEOUT_MS" 5000 1000 30000;
  map_server_id = trimmed (env "MAP_SERVER_ID");
  auth_session_secret = get_or (env "AUTH_SESSION_SECRET") "rw-manager-storage-session";
  steam_api_key = trimmed (env "STEAM_API_KEY");
  steam_open_id_return_origin = trimmed (env "STEAM_OPENID_RETURN_ORIGIN");
}
  where
    bounded : String → ℕ → ℕ → ℕ → ℕ
    bounded name fallback least most = bounded_integer to_number (env name) fallback least most
