-- ===== src/Live/Updates.antt =====
-- The updates of service/server-live-update-service.ts, as `attachServerStatusLiveService` of
-- service/server-status-live-service.ts sends them to its subscribers. The subscribers share no
-- state, so one turn of the loop over them is a function of one of them.
pub mod Replica
pub mod Sequence
use rw_manager_backend.Base.{
  ℕ, String, Bool, true, false, ◌+◌, Option, none, some, List, [], ◌∷◌, ◌++◌, includes, map_get,
  map_set, Entries, if◌then◌else◌,
}
use rw_manager_backend.Live.Response.{LiveResponse}
use rw_manager_backend.Live.Changes.{Changes, Json, has_changes, server_live_status_changes}

-- ServerLiveUpdate.
pub record Update : Type 0 where
  pub server_id : String
  pub value : LiveResponse

-- SubscriberState.
pub record Subscriber : Type 0 where
  pub server_ids : List String
  pub snapshots : Entries LiveResponse
  pub sequence : ℕ

-- The message `server.status.changed`, but for the time when it was made.
pub record ChangedMessage : Type 0 where
  pub server_id : String
  pub sequence : ℕ
  pub changes : Changes

module _ (json : Json) where
  -- What is sent where there is a previous response.
  abbrev pub send_changes : String → Changes → Subscriber → List ChangedMessage × Subscriber
  send_changes id changes s =
      if has_changes changes
      then (
        record { server_id = id; sequence = s.sequence + 1; changes = changes } ∷ [],
        record s { sequence = s.sequence + 1 },
      )
      else ([], s)

  abbrev pub send_since :
      String → LiveResponse → Option LiveResponse → Subscriber → List ChangedMessage × Subscriber
  send_since id value none s = ([], s)
  send_since id value (some previous) s =
      send_changes id (server_live_status_changes json previous value) s

  unfoldable pub on_update : Update → Subscriber → List ChangedMessage × Subscriber
  on_update u s =
      let next = record s { snapshots = map_set u.server_id u.value s.snapshots } in
      if includes u.server_id s.server_ids
      then send_since u.server_id u.value (map_get u.server_id s.snapshots) next
      else ([], s)

  -- The messages that one subscriber is sent for a run of updates.
  unfoldable pub on_updates : List Update → Subscriber → List ChangedMessage × Subscriber
  on_updates [] s = ([], s)
  on_updates (u ∷ us) s =
      let (sent, next) = on_update u s in
      let (later, last) = on_updates us next in (sent ++ later, last)
