-- ===== src/Master/Query.antt =====
-- `refreshQueryData`: what a server tells of itself, and the sample of its statistics.
use mathlib.Core.Option
use rw_manager_backend.Base.{
  ℕ, String, Bool, true, false, not, ◌||◌, ◌-◌, Option, none, some, List, [], ◌∷◌, length, leb,
  str_eq, or_else, get_or, trim, unique, if◌then◌else◌,
}
use rw_manager_backend.Data.Value.{Value, Number, nat, null, undefined, get, text?, array?}
use rw_manager_backend.Data.Server.{ServerConfig, stamp_ms, at, online, offline}
use rw_manager_backend.Config.{AppConfig}
use rw_manager_backend.Players.{finite?, merge_known_players, observed_players_from_values}
use rw_manager_backend.Native.AdminInfo.{NativeAdminUtilsInfo, parse_native_admin_utils_info}
use rw_manager_backend.Statistics.{ServerStatisticsSample}

pub data Fetch : Type 0 where
  fetched : Value → Fetch
  failed : String → Fetch

-- What a server answers: to the query, to `info`, to `playerlist`, and, where it has the plugin of the
-- admin tools, to the route of that.
pub record Answers : Type 0 where
  pub query : Fetch
  pub info : Fetch
  pub playerlist : Fetch
  pub native_info : Option Value

abbrev pub fetched? : Fetch → Option Value
fetched? (fetched v) = some v
fetched? (failed e) = none

abbrev pub error? : Fetch → Option String
error? (fetched v) = none
error? (failed e) = some e

abbrev pub players_from_payload : Value → Option (List Value)
players_from_payload payload = array? (get "players" payload)

-- value.uid ?? value.UID
abbrev uid_value : Value → Value → Value
uid_value undefined second = second
uid_value null second = second
uid_value first second = first

abbrev filled_text : Option String → List String → List String
filled_text none rest = rest
filled_text (some s) rest = if str_eq (trim s) "" then rest else trim s ∷ rest

abbrev player_uids : List Value → List String
player_uids [] = []
player_uids (v ∷ vs) = filled_text (text? (uid_value (get "uid" v) (get "UID" v))) (player_uids vs)

unfoldable pub online_player_uids : Option (List Value) → List String
online_player_uids players = unique (player_uids (get_or players []))

abbrev number_from : Option Value → String → Option Number
number_from payload key = Option.bind payload (λ v. finite? (get key v))

unfoldable pub player_count_from_query_data : Option Value → Option (List Value) → Number
player_count_from_query_data query_data none =
    get_or (or_else (number_from query_data "playercount") (number_from query_data "players"))
      (nat 0)
player_count_from_query_data query_data (some players) = nat (length players)

unfoldable pub should_refresh_query_data : AppConfig → ServerConfig → ℕ → Bool
should_refresh_query_data config server now =
    elim (Option.bind server.query_data_updated_at stamp_ms) [
      | none ↦ true
      | some previous ↦ leb config.server_query_refresh_interval_ms (now - previous)
    ]

abbrev map_url_of : Option NativeAdminUtilsInfo → Option String
map_url_of info = Option.map (λ (i : NativeAdminUtilsInfo). i.map_url) info

abbrev admin_uid_of : Option NativeAdminUtilsInfo → Option String
admin_uid_of info = Option.map (λ (i : NativeAdminUtilsInfo). i.admin_uid) info

module _ (http_href : String → Option String) where
  abbrev with_players : ServerConfig → Option (List Value) → ℕ → ServerConfig
  with_players server players now = record server {
    online_players = players;
    known_players =
        merge_known_players server.known_players (observed_players_from_values players (at now));
  }

  abbrev pub answered : ServerConfig → Answers → ℕ → ServerConfig
  answered server answers now =
      let native = Option.bind answers.native_info (parse_native_admin_utils_info http_href) in
      let told = record server {
        status = elim answers.query [ fetched v ↦ some online | failed e ↦ some offline ];
        last_checked = some (at now);
        error_message = error? answers.query;
        query_data = or_else (fetched? answers.query) server.query_data;
        info = or_else (fetched? answers.info) server.info;
        admin_uid = or_else (admin_uid_of native) server.admin_uid;
        map_url = or_else (map_url_of native) server.map_url;
        query_data_updated_at = some (at now);
      } in
      elim answers.query [
        | fetched v ↦
            with_players told (Option.bind (fetched? answers.playerlist) players_from_payload) now
        | failed e ↦ with_players told (some []) now
      ]

  abbrev pub sample_of : ServerConfig → Answers → ℕ → ServerStatisticsSample
  sample_of server answers now = elim answers.query [
    | fetched v ↦ record {
      server_id = server.id;
      sampled_at = now;
      online = true;
      player_count = player_count_from_query_data server.query_data server.online_players;
      online_player_uids = some (online_player_uids server.online_players);
    }
    | failed e ↦ record {
      server_id = server.id;
      sampled_at = now;
      online = false;
      player_count = nat 0;
      online_player_uids = some [];
    }
  ]

  -- The refreshed server and the sample that is recorded, where a refresh is due.
  unfoldable pub refresh_query_data :
      AppConfig → ServerConfig → Answers → ℕ → Option (ServerConfig × ServerStatisticsSample)
  refresh_query_data config server answers now =
      if str_eq server.query_url "" || not (should_refresh_query_data config server now)
      then none
      else (let next = answered server answers now in some (next, sample_of next answers now))
