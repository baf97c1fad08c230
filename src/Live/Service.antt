-- ===== src/Live/Service.antt =====
-- service/server-live-status-service.ts: the live status of a server, its cache, the refresh of the player
-- lists, and the players that a connector reports. Requests for one server stand one after the other, and
-- what a server answers is an argument; `now` is the time of a call.
pub mod Connector
use mathlib.Core.Option
use rw_manager_backend.Base.{
  ℕ, String, Bool, true, false, not, ◌&&◌, ◌||◌, ◌+◌, ◌-◌, Option, none, some, List, [], ◌∷◌, ◌++◌,
  length, filter, update_first, ltb, leb, nat_eq, str_eq, or_else, get_or, is_some, map_get,
  map_set, map_delete, Entries, if◌then◌else◌, Code, Result, ok, err, server_not_found,
  query_url_missing, invalid_player_status,
}
use rw_manager_backend.Data.Value.{Value, Number, nat, num, bool, text, object, array, get, array?}
use rw_manager_backend.Data.Server.{
  ServerConfig, Stamp, stamp_ms, at, Status, online, offline, unknown,
}
use rw_manager_backend.Config.{AppConfig}
use rw_manager_backend.Driver.{Collection}
use rw_manager_backend.Players.{finite?, merge_known_players, observed_players_from_values}
use rw_manager_backend.Store.State.{MongoCollections, Store, memory, mongo}
use rw_manager_backend.Store.Patch.{ServerPatch, no_patch}
use rw_manager_backend.Store.Servers.{has_id, find_server_by_id, update_server, list_servers}
use rw_manager_backend.Statistics.{
  BucketDoc, Clock, Statistics, ServerStatisticsSample, record_server_statistics_sample,
}
use rw_manager_backend.Native.AdminInfo.{NativeAdminUtilsInfo, parse_native_admin_utils_info}
use rw_manager_backend.Connector.Session.{Sessions, has_active_game_connector_feature}
use rw_manager_backend.Master.Query.{
  Answers, Fetch, fetched, failed, fetched?, error?, players_from_payload, online_player_uids,
}
use rw_manager_backend.Live.Response.{
  LiveResponse, LiveStatus, up, down, stored_live_status_response,
}
use rw_manager_backend.Live.Updates.{Update}
use rw_manager_backend.Live.Status.{
  connector_online_players, is_query_data_fresh, players_if, player_count_from_live_status,
  fetch_live_status, persisted, live_patch, players_patch,
}

pub record CacheEntry : Type 0 where
  pub expires_at : ℕ
  pub response : LiveResponse

-- In memory the server that is found is the stored object, so that its changes are stored at once.
abbrev pub write_through : {m : MongoCollections} → ServerConfig → Store m → Store m
write_through server (memory ss us) = memory (update_first (has_id server.id) (λ _. server) ss) us
write_through server (mongo s u) = mongo s u

module _ (m : MongoCollections) (buckets : Collection BucketDoc) where
  pub record LiveWorld : Type 0 where
    pub store : Store m
    pub statistics : Statistics buckets
    pub updates : List Update
    pub cache : Entries CacheEntry
    pub attempted : Entries ℕ

  -- updateServer and publishServerLiveUpdate of a changed server.
  abbrev pub store_and_publish : ServerConfig → ServerPatch → LiveResponse → LiveWorld → LiveWorld
  store_and_publish server patch response w = record w {
    store = (update_server m server.id patch (write_through server w.store)).1;
    updates = w.updates ++ record { server_id = server.id; value = response } ∷ [];
  }

  module _ (config : AppConfig) where
    abbrev pub put_in_cache : ℕ → String → LiveResponse → LiveWorld → LiveWorld
    put_in_cache now id response w = record w {
      cache =
          map_set id
            (record {
              expires_at = now + config.live_query_proxy_cache_ttl_ms;
              response = response;
            })
            w.cache;
    }

    -- What the connector reports of a server that is found.
    abbrev pub accepted : ℕ → List Value → ServerConfig → ServerConfig
    accepted now players server = record server {
      online_players = some players;
      known_players =
          merge_known_players server.known_players
            (observed_players_from_values (some players) (at now));
      status = some online;
      last_checked = some (at now);
      error_message = none;
    }

    abbrev pub accept_for : ℕ → List Value → Option ServerConfig → LiveWorld → LiveWorld
    accept_for now players none w = w
    accept_for now players (some found) w =
        let server = accepted now players found in
        let response = stored_live_status_response now server in
        put_in_cache now server.id response (
          store_and_publish server (record (players_patch server) { status = server.status })
            response w)

    abbrev pub accept_players :
        ℕ → String → Option (List Value) → LiveWorld → Result (Unit {0}) × LiveWorld
    accept_players now id none w = (err invalid_player_status, w)
    accept_players now id (some players) w =
        (ok tt, accept_for now players (find_server_by_id m id w.store) w)

    unfoldable pub accept_connector_player_status :
        ℕ → String → Value → LiveWorld → Result (Unit {0}) × LiveWorld
    accept_connector_player_status now id payload w =
        accept_players now id (connector_online_players payload) w

    module _ (http_href : String → Option String) (clock : Clock) where
      abbrev sample_of : String → LiveResponse → ServerStatisticsSample
      sample_of id r = record {
        server_id = id;
        sampled_at = r.last_checked;
        online = elim r.status [ up ↦ true | down ↦ false ];
        player_count = player_count_from_live_status r;
        online_player_uids = some (online_player_uids (players_if r.status r.online_players));
      }

      abbrev request : ℕ → Answers → ServerConfig → LiveWorld → LiveResponse × LiveWorld
      request now answers found w =
          let (server, response) = fetch_live_status http_href found answers now in
          let next = persisted http_href server response in
          let stored = store_and_publish next (live_patch next) response w in
          let sampled = record stored {
            statistics =
                (record_server_statistics_sample clock buckets (sample_of found.id response)
                  stored.statistics).1;
          } in
          (response, put_in_cache now found.id response sampled)

      -- A fresh stored status, or the answer of the server.
      abbrev pub stored_or_requested :
          ℕ → Answers → ServerConfig → LiveWorld → LiveResponse × LiveWorld
      stored_or_requested now answers server w =
          if is_query_data_fresh config server now
          then (let response = stored_live_status_response now server in
              (response, put_in_cache now server.id response w))
          else request now answers server w

      abbrev pub cached_or :
          ℕ → Answers → ServerConfig → Option CacheEntry → LiveWorld → LiveResponse × LiveWorld
      cached_or now answers server none w = stored_or_requested now answers server w
      cached_or now answers server (some entry) w =
          if ltb now entry.expires_at
          then (entry.response, w)
          else stored_or_requested now answers server w

      abbrev pub answered_to : {A : Type 0} → A × LiveWorld → Result A × LiveWorld
      answered_to (a, w) = (ok a, w)

      abbrev pub status_for :
          ℕ → String → Answers → Option ServerConfig → LiveWorld → Result LiveResponse × LiveWorld
      status_for now id answers none w = (err server_not_found, w)
      status_for now id answers (some server) w =
          if str_eq server.query_url ""
          then (err query_url_missing, w)
          else answered_to (cached_or now answers server (map_get id w.cache) w)

      unfoldable pub get_server_live_status :
          ℕ → String → Answers → LiveWorld → Result LiveResponse × LiveWorld
      get_server_live_status now id answers w =
          status_for now id answers (find_server_by_id m id w.store) w

    unfoldable pub player_list_refresh_interval_ms : ServerConfig → ℕ
    player_list_refresh_interval_ms server = elim server.online_players [
      | none ↦ config.player_list_refresh_interval_ms
      | some players ↦
          if leb 1 (length players)
          then config.active_player_list_refresh_interval_ms
          else config.player_list_refresh_interval_ms
    ]

    abbrev last_player_list_refresh_at : ServerConfig → Entries ℕ → ℕ
    last_player_list_refresh_at server attempted =
        get_or (or_else (map_get server.id attempted) (Option.bind server.last_checked stamp_ms)) 0

    abbrev is_online : Option Status → Bool
    is_online (some online) = true
    is_online (some offline) = false
    is_online (some unknown) = false
    is_online none = false

    -- Whether the player list of a server is to be asked for.
    unfoldable pub is_due : ℕ → Sessions → ServerConfig → Entries ℕ → Bool
    unfolding player_list_refresh_interval_ms
    is_due now sessions server attempted =
        not (str_eq server.query_url "")
        && is_online server.status
        && not (has_active_game_connector_feature server.id "playerStatus" sessions)
        && leb (player_list_refresh_interval_ms server)
            (now - last_player_list_refresh_at server attempted)

    abbrev listed : ℕ → ServerConfig → Option (List Value) → LiveWorld → Bool × LiveWorld
    listed now server none w = (false, w)
    listed now server (some players) w =
        let next = record server {
          online_players = some players;
          known_players =
              merge_known_players server.known_players
                (observed_players_from_values (some players) (at now));
          last_checked = some (at now);
        } in
        (true, store_and_publish next (players_patch next) (stored_live_status_response now next) w)

    unfoldable pub refresh_online_players_for_server :
        ℕ → Sessions → (ServerConfig → Fetch) → ServerConfig → LiveWorld → Bool × LiveWorld
    unfolding is_due
    refresh_online_players_for_server now sessions playerlist server w =
        if is_due now sessions server w.attempted
        then listed now server (Option.bind (fetched? (playerlist server)) players_from_payload)
            (record w { attempted = map_set server.id now w.attempted })
        else (false, w)

    -- The workers take the servers one after the other; the count is of those refreshed.
    unfoldable pub refresh_each :
        ℕ → Sessions → (ServerConfig → Fetch) → List ServerConfig → LiveWorld → ℕ × LiveWorld
    unfolding refresh_online_players_for_server
    refresh_each now sessions playerlist [] w = (0, w)
    refresh_each now sessions playerlist (server ∷ servers) w =
        let (done, w') = refresh_online_players_for_server now sessions playerlist server w in
        let (n, w2) = refresh_each now sessions playerlist servers w' in
        (if done then n + 1 else n, w2)

    unfoldable pub refresh_due_server_player_lists :
        ℕ → Sessions → (ServerConfig → Fetch) → LiveWorld → (ℕ × ℕ) × LiveWorld
    unfolding refresh_each
    refresh_due_server_player_lists now sessions playerlist w =
        let servers = list_servers m w.store in
        let (refreshed, w') = refresh_each now sessions playerlist servers w in
        ((length servers, refreshed), w')

  unfoldable pub clear_server_live_status_cache : LiveWorld → LiveWorld
  clear_server_live_status_cache w = record w { cache = []; attempted = [] }

  unfoldable pub clear_server_live_status_cache_entry : String → LiveWorld → LiveWorld
  clear_server_live_status_cache_entry id w = record w {
    cache = map_delete id w.cache;
    attempted = map_delete id w.attempted;
  }
