-- ===== src/Live/Response.antt =====
-- dto/server-live-status-response.ts, and `storedLiveStatusResponse` of
-- service/server-live-status-service.ts. A date stands as its milliseconds, `now` is Date.now().
use rw_manager_backend.Base.{
  ℕ, String, Bool, true, false, Option, none, some, List, is_some, str_eq, Run, read, or_throw,
  guard, return, not, ◌>>=◌, ◌>>◌, server_not_found, query_url_missing,
}
use rw_manager_backend.Data.Value.{filled, Value}
use rw_manager_backend.Data.Server.{ServerConfig, Status, online, offline, unknown, Stamp, stamp_ms}
use rw_manager_backend.Store.State.{MongoCollections, Store}
use rw_manager_backend.Store.Servers.{find_server_by_id}

pub data LiveStatus : Type 0 where
  up down : LiveStatus

pub record LiveResponse : Type 0 where
  pub status : LiveStatus
  pub query_data : Option Value
  pub info_data : Option Value
  pub online_players : Option (List Value)
  pub last_checked : ℕ
  pub error_message : Option String

-- The time of a stored date, or now.
abbrev pub time_or : ℕ → Option Stamp → ℕ
time_or now none = now
time_or now (some stamp) = elim (stamp_ms stamp) [ none ↦ now | some t ↦ t ]

abbrev pub up_if : Bool → LiveStatus
up_if true = up
up_if false = down

abbrev pub live_status : Option Status → Option Value → LiveStatus
live_status (some online) query = up
live_status (some offline) query = down
live_status (some unknown) query = up_if (is_some query)
live_status none query = up_if (is_some query)

unfoldable pub stored_live_status_response : ℕ → ServerConfig → LiveResponse
stored_live_status_response now s = record {
  status = live_status s.status s.query_data;
  query_data = s.query_data;
  info_data = s.info;
  online_players = s.online_players;
  last_checked = time_or now s.last_checked;
  error_message = filled s.error_message;
}

unfoldable pub get_stored_server_live_status :
    (m : MongoCollections) → ℕ → String → Run (Store m) LiveResponse
get_stored_server_live_status m now id = do
  found ← read (find_server_by_id m id)
  server ← or_throw found server_not_found
  guard (not (str_eq server.query_url "")) query_url_missing
  return (stored_live_status_response now server)
