-- ===== src/Live/Status.antt =====
-- service/server-live-status-service.ts: what the answers of a server, or the players that its connector
-- reports, make of the server and of its response. `now` is the time of a call.
use mathlib.Core.Option
use rw_manager_backend.Base.{
  ℕ, String, Bool, true, false, ◌&&◌, ◌-◌, Option, none, some, List, [], ◌∷◌, length, filter, ltb,
  leb, or_else, get_or, if◌then◌else◌,
}
use rw_manager_backend.Data.Value.{is_one, Value, Number, nat, bool, text, get, array?}
use rw_manager_backend.Data.Server.{ServerConfig, stamp_ms, at, Status, online, offline}
use rw_manager_backend.Config.{AppConfig}
use rw_manager_backend.Players.{finite?, merge_known_players, observed_players_from_values}
use rw_manager_backend.Store.Patch.{ServerPatch, no_patch}
use rw_manager_backend.Native.AdminInfo.{NativeAdminUtilsInfo, parse_native_admin_utils_info}
use rw_manager_backend.Master.Query.{
  Answers, Fetch, fetched, failed, fetched?, error?, players_from_payload,
}
use rw_manager_backend.Live.Response.{LiveResponse, LiveStatus, up, down}

-- typeof player === 'object' && typeof player.uid === 'string'
abbrev pub is_player : Value → Bool
is_player v = elim (get "uid" v) [ text s ↦ true | _ ↦ false ]

abbrev pub all_players : List Value → Bool
all_players [] = true
all_players (v ∷ vs) = is_player v && all_players vs

-- player.connected !== false
abbrev pub is_connected : Value → Bool
is_connected v = elim (get "connected" v) [ bool b ↦ b | _ ↦ true ]

abbrev complete : Option (List Value) → Option (List Value)
complete none = none
complete (some players) =
    if leb (length players) 500 && all_players players
    then some (filter is_connected players)
    else none

unfoldable pub connector_online_players : Value → Option (List Value)
connector_online_players payload =
    if is_one (get "schemaVersion" payload) then complete (array? (get "players" payload)) else none

unfoldable pub is_query_data_fresh : AppConfig → ServerConfig → ℕ → Bool
is_query_data_fresh config server now = elim (Option.bind server.query_data_updated_at stamp_ms) [
  | none ↦ false
  | some updated ↦ ltb (now - updated) config.server_query_refresh_interval_ms
]

abbrev pub status_of : LiveStatus → Status
status_of up = online
status_of down = offline

abbrev pub players_if : LiveStatus → Option (List Value) → Option (List Value)
players_if up players = players
players_if down players = some []

abbrev query_count : Option Value → Number
query_count query_data =
    get_or (Option.bind query_data (λ v. finite? (get "playercount" v))) (nat 0)

unfoldable pub player_count_from_live_status : LiveResponse → Number
player_count_from_live_status r = count r.status r.online_players
  where
    count : LiveStatus → Option (List Value) → Number
    count down players = nat 0
    count up none = query_count r.query_data
    count up (some players) = nat (length players)

module _ (http_href : String → Option String) where
  -- What the admin tools tell, beside what is known.
  abbrev pub with_native : Option Value → ServerConfig → ServerConfig
  with_native payload server =
      let native = Option.bind payload (parse_native_admin_utils_info http_href) in
      record server {
        map_url =
            or_else (Option.map (λ (i : NativeAdminUtilsInfo). i.map_url) native) server.map_url;
        admin_uid =
            or_else (Option.map (λ (i : NativeAdminUtilsInfo). i.admin_uid) native)
              server.admin_uid;
      }

  abbrev live_if : Fetch → Option (List Value) → LiveStatus
  live_if (fetched v) players = up
  live_if (failed e) (some players) = up
  live_if (failed e) none = down

  unfoldable pub fetch_live_status : ServerConfig → Answers → ℕ → ServerConfig × LiveResponse
  fetch_live_status server answers now =
      let players = Option.bind (fetched? answers.playerlist) players_from_payload in
      let status = live_if answers.query players in
      (
        with_native answers.native_info server,
        record {
          status = status;
          query_data = fetched? answers.query;
          info_data = fetched? answers.info;
          online_players = players_if status players;
          last_checked = now;
          error_message = error? answers.query;
        },
      )

  -- The server object after persistLiveStatus.
  abbrev pub persisted : ServerConfig → LiveResponse → ServerConfig
  persisted server r = with_native r.info_data (record server {
    query_data = or_else r.query_data server.query_data;
    status = some (status_of r.status);
    last_checked = some (at r.last_checked);
    error_message = r.error_message;
    online_players = players_if r.status r.online_players;
    known_players =
        merge_known_players server.known_players
          (observed_players_from_values r.online_players (at r.last_checked));
    info = or_else r.info_data server.info;
    query_data_updated_at = some (at r.last_checked);
  })

-- The patch of persistLiveStatus; the id of the administrator is not in it.
abbrev pub live_patch : ServerConfig → ServerPatch
live_patch s = record no_patch {
  query_data = s.query_data;
  info = s.info;
  label = some s.label;
  map_url = s.map_url;
  backend_url = s.backend_url;
  status = s.status;
  last_checked = s.last_checked;
  error_message = s.error_message;
  online_players = s.online_players;
  known_players = s.known_players;
  query_data_updated_at = s.query_data_updated_at;
}

abbrev pub players_patch : ServerConfig → ServerPatch
players_patch s = record no_patch {
  online_players = s.online_players;
  known_players = s.known_players;
  last_checked = s.last_checked;
}
