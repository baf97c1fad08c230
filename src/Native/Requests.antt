-- ===== src/Native/Requests.antt =====
-- service/native-plugin-request-service.ts: requests to plugin routes, which pause after a 401. One
-- request for a server waits for the one before, so requests stand here one after the other. A request
-- is given a server object; `shared` says whether that is the stored object itself, which only the store in
-- memory hands out.
pub mod Recovery
pub mod Backoff
use rw_manager_backend.Base.{
  ℕ, String, Bool, true, false, not, ◌&&◌, ◌+◌, ◌-◌, ◌*◌, ◌^◌, min, ltb, leb, nat_eq, Option, none,
  some, List, [], ◌∷◌, length, is_some, opt_eq, Entries, map_get, map_set, map_delete, map_has,
  if◌then◌else◌,
}
use rw_manager_backend.Data.Value.{Value}
use rw_manager_backend.Data.Server.{ServerConfig}
use rw_manager_backend.Store.State.{MongoCollections, Store, memory, mongo}
use rw_manager_backend.Store.Credentials.{set_credential, reset_server_connector_credential}

pub record Failure : Type 0 where
  pub credential : Option String
  pub until : ℕ
  pub attempts : ℕ

abbrev pub Failures : Type 0
Failures = Entries Failure

-- What `fetch` and `response.json()` come to: a status that is not ok, the JSON of the body, or the
-- message of what is thrown.
pub data Fetched : Type 0 where
  status : ℕ → Fetched
  json : Value → Fetched
  thrown : String → Fetched

-- The result: the data, or the error, which is NATIVE_ACCESS_BACKOFF where nothing is requested.
pub data RouteResult : Type 0 where
  data_ok : Value → RouteResult
  http_error : ℕ → RouteResult
  error_message : String → RouteResult
  native_access_backoff : RouteResult

pub data AccessState : Type 0 where
  available no_access unavailable : AccessState

-- `serverId` is a string that is not empty, or none.
unfoldable pub native_plugin_access_state : Option String → Bool → Failures → AccessState
native_plugin_access_state id false fs = unavailable
native_plugin_access_state none true fs = available
native_plugin_access_state (some id) true fs = if map_has id fs then no_access else available

unfoldable pub reset_native_plugin_access : String → Failures → Failures
reset_native_plugin_access id fs = map_delete id fs

abbrev pub minute_ms : ℕ
minute_ms = 60 * 1000

-- The number of this failure with the credential.
abbrev pub attempts_of : Option String → Option Failure → ℕ
attempts_of credential none = 1
attempts_of credential (some previous) =
    if opt_eq previous.credential credential then previous.attempts + 1 else 1

unfoldable pub retry_after_ms : ℕ → ℕ
retry_after_ms attempts = min (30 * minute_ms) (5 * minute_ms * 2 ^ min (attempts - 1) 3)

abbrev pub most_failures : ℕ
most_failures = 5000

-- failures.delete(failures.keys().next().value)
abbrev pub delete_first : Failures → Failures
delete_first [] = []
delete_first ((id, f) ∷ fs) = map_delete id ((id, f) ∷ fs)

abbrev pub make_room : String → Failures → Failures
make_room id fs =
    if leb most_failures (length fs) && not (map_has id fs) then delete_first fs else fs

-- `later` is the time after the response; `server` is as it is after a reset.
unfoldable pub add_failure : ℕ → ServerConfig → Failures → Failures
unfolding retry_after_ms
add_failure later server fs =
    let attempts = attempts_of server.connector_credential (map_get server.id fs) in
    map_set server.id
      (record {
        credential = server.connector_credential;
        until = later + retry_after_ms attempts;
        attempts = attempts;
      })
      (make_room server.id fs)

-- failure.credential === server.connectorCredential && failure.until > Date.now()
abbrev pub pauses : ℕ → ServerConfig → Option Failure → Bool
pauses now server none = false
pauses now server (some f) = opt_eq f.credential server.connector_credential && ltb now f.until

module _ (m : MongoCollections) where
  -- The server object after a reset: one that is stored has lost its credential where that was done.
  abbrev after_reset : Bool → Bool → ServerConfig → Store m → ServerConfig
  after_reset shared done server (memory ss us) =
      if shared && done then set_credential none server else server
  after_reset shared done server (mongo s u) = server

  abbrev reset_of : Bool → ServerConfig → Store m → Option String → ServerConfig × Store m
  reset_of shared server st none = (server, st)
  reset_of shared server st (some c) =
      let (done, st') = reset_server_connector_credential m server.id c st in
      (after_reset shared done server st', st')

  -- The credential is reset where the request had one and the server's connector is told.
  unfoldable pub recover :
      (authorized connected shared : Bool) → ServerConfig → Store m → ServerConfig × Store m
  recover authorized connected shared server st =
      if authorized && connected
      then reset_of shared server st server.connector_credential
      else (server, st)

  -- `authorized`: gameConnectorAuthorizationHeader yields a header; `connected`: what
  -- requestGameConnectorCredentialReset answers.
  unfoldable pub fetch_route :
      (later : ℕ) (authorized connected shared : Bool) (server : ServerConfig)
      → Fetched
      → Failures × Store m
      → RouteResult × (Failures × Store m)
  unfolding add_failure recover
  fetch_route later authorized connected shared server (status code) (fs, st) =
      let (left, st') = recover authorized connected shared server st in
      if nat_eq code 401
      then (http_error 401, (add_failure later left fs, st'))
      else (http_error code, (fs, st))
  fetch_route later authorized connected shared server (json v) (fs, st) =
      (data_ok v, (map_delete server.id fs, st))
  fetch_route later authorized connected shared server (thrown message) (fs, st) =
      (error_message message, (fs, st))

  unfoldable pub fetch_native_plugin_json :
      (now later : ℕ) (authorized connected shared : Bool) (server : ServerConfig)
      → Fetched
      → Failures × Store m
      → RouteResult × (Failures × Store m)
  unfolding fetch_route
  fetch_native_plugin_json now later authorized connected shared server fetched (fs, st) =
      if pauses now server (map_get server.id fs)
      then (native_access_backoff, (fs, st))
      else fetch_route later authorized connected shared server fetched (fs, st)
