-- ===== src/Config/Bounds.antt =====
-- Whatever the environment holds, each setting lies in its range.
use rw_manager_backend.Base.{ℕ, String, Option, none, some, ◌≤◌, arith}
use rw_manager_backend.Data.Value.{Number, nat, negative, inexact}
use rw_manager_backend.Config.{AppConfig, bounded_integer, in_bounds, from_env, max_safe_integer}

-- A value between two bounds.
abbrev pub Within : ℕ → ℕ → ℕ → Type 0
Within least most n = (least ≤ n) × (n ≤ most)

in_bounds-Within :
    (n : Number) (fallback least most : ℕ)
    → Within least most fallback
    → Within least most (in_bounds n fallback least most)
in_bounds-Within (nat n) fallback least most h = ground arith
in_bounds-Within (negative n) fallback least most h = h
in_bounds-Within (inexact s) fallback least most h = h

module _ (to_number : String → Number) where
  pub bounded_integer-Within :
      (value : Option String) (fallback least most : ℕ)
      → Within least most fallback
      → Within least most (bounded_integer to_number value fallback least most)
  unfolding bounded_integer
  bounded_integer-Within none fallback least most h = h
  bounded_integer-Within (some value) fallback least most h =
      in_bounds-Within (to_number value) fallback least most h

-- The documented ranges.
pub record InRange (c : AppConfig) : Type 0 where
  pub pins : Within 1 1000 c.max_pinned_servers
  pub live_ids : Within c.max_pinned_servers 1000 c.server_live_max_server_ids
  pub recent_days : Within 1 3650 c.map_recent_player_days
  pub master_refresh : Within 60000 max_safe_integer c.master_server_list_refresh_interval_ms
  pub master_timeout : Within 1000 30000 c.master_server_list_timeout_ms
  pub query_refresh : Within 60000 max_safe_integer c.server_query_refresh_interval_ms
  pub info_refresh : Within 60000 max_safe_integer c.server_info_refresh_on_startup_ms
  pub player_list : Within 5000 max_safe_integer c.player_list_refresh_interval_ms
  pub active_player_list : Within 5000 max_safe_integer c.active_player_list_refresh_interval_ms
  pub concurrency : Within 1 100 c.player_list_refresh_concurrency
  pub player_timeout : Within 1000 30000 c.player_list_timeout_ms
  pub plugin_refresh : Within 10000 max_safe_integer c.plugin_data_refresh_interval_ms
  pub plugin_ttl : Within 60000 max_safe_integer c.plugin_data_cache_ttl_ms
  pub layer_ttl : Within 5000 max_safe_integer c.map_player_layer_cache_ttl_ms
  pub map_live : Within 1000 60000 c.map_live_refresh_interval_ms
  pub query_ttl : Within 1000 60000 c.live_query_proxy_cache_ttl_ms
  pub query_timeout : Within 1000 30000 c.live_query_proxy_timeout_ms
  pub mongo_timeout : Within 1000 30000 c.mongo_connect_timeout_ms

-- From any environment, however its numbers read, every bounded setting is in its range, and a
-- socket may subscribe to no fewer servers than a user may pin.
pub from_env-InRange :
    (to_number : String → Number) (env : String → Option String) → InRange (from_env to_number env)
unfolding from_env
from_env-InRange to_number env = record {
  pins = pinned;
  live_ids = (
    omega arith,
    omega (arith, pinned.1, (bounded "SERVER_LIVE_MAX_SERVER_IDS" 1000 1 1000 (omega arith)).1),
  );
  recent_days = bounded "MAP_RECENT_PLAYER_DAYS" 7 1 3650 (omega arith);
  master_refresh =
      bounded "MASTER_SERVER_LIST_REFRESH_INTERVAL_MS" 60000 60000 max_safe_integer (omega arith);
  master_timeout = bounded "MASTER_SERVER_LIST_TIMEOUT_MS" 8000 1000 30000 (omega arith);
  query_refresh =
      bounded "SERVER_QUERY_REFRESH_INTERVAL_MS" 600000 60000 max_safe_integer (omega arith);
  info_refresh =
      bounded "SERVER_INFO_REFRESH_ON_STARTUP_MS" 600000 60000 max_safe_integer (omega arith);
  player_list = bounded "PLAYERLIST_REFRESH_INTERVAL_MS" 180000 5000 max_safe_integer (omega arith);
  active_player_list =
      bounded "ACTIVE_PLAYERLIST_REFRESH_INTERVAL_MS" 30000 5000 max_safe_integer (omega arith);
  concurrency = bounded "PLAYERLIST_REFRESH_CONCURRENCY" 20 1 100 (omega arith);
  player_timeout = bounded "PLAYERLIST_TIMEOUT_MS" 5000 1000 30000 (omega arith);
  plugin_refresh =
      bounded "PLUGIN_DATA_REFRESH_INTERVAL_MS" 60000 10000 max_safe_integer (omega arith);
  plugin_ttl = bounded "PLUGIN_DATA_CACHE_TTL_MS" 300000 60000 max_safe_integer (omega arith);
  layer_ttl = bounded "MAP_PLAYER_LAYER_CACHE_TTL_MS" 30000 5000 max_safe_integer (omega arith);
  map_live = bounded "MAP_LIVE_REFRESH_INTERVAL_MS" 2000 1000 60000 (omega arith);
  query_ttl = bounded "LIVE_QUERY_PROXY_CACHE_TTL_MS" 5000 1000 60000 (omega arith);
  query_timeout = bounded "LIVE_QUERY_PROXY_TIMEOUT_MS" 8000 1000 30000 (omega arith);
  mongo_timeout = bounded "MONGODB_CONNECT_TIMEOUT_MS" 5000 1000 30000 (omega arith);
}
  where
    bounded :
        (name : String) (fallback least most : ℕ)
        → Within least most fallback
        → Within least most (bounded_integer to_number (env name) fallback least most)
    bounded name fallback least most h =
        bounded_integer-Within to_number (env name) fallback least most h

    pinned : Within 1 1000 (bounded_integer to_number (env "MAX_PINNED_SERVERS") 50 1 1000)
    pinned = bounded "MAX_PINNED_SERVERS" 50 1 1000 (omega arith)
