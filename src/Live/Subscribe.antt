-- ===== src/Live/Subscribe.antt =====
-- The messages of a subscriber: `parseServerStatusSubscribeMessage` and the handler of messages in
-- `attachServerStatusLiveService` of service/server-status-live-service.ts.
pub mod Parsed
pub mod Started
use Prim.Native.String
use mathlib.Core.Option
use rw_manager_backend.Base.{
  ℕ, String, Bool, true, false, not, ◌&&◌, ◌||◌, Option, none, some, List, [], ◌∷◌, map, length,
  all, ltb, leb, nat_eq, str_eq, trim, unique, sort, byte_length, utf16_length, truthy, is_some,
  get_or, if◌then◌else◌, Code, Result, ok, err, Run, return, throw, guard, read, ◌>>=◌, ◌>>◌, after,
  invalid_message, server_limit_exceeded, unauthorized, server_not_found, query_url_missing,
  Entries,
}
use rw_manager_backend.Data.Value.{
  is_one, Value, undefined, num, text, nat, object, array, get, text?, array?,
}
use rw_manager_backend.Data.User.{PrivateUser}
use rw_manager_backend.Config.{AppConfig}
use rw_manager_backend.Auth.Token.{Encoding, get_user_from_bearer_token}
use rw_manager_backend.Store.State.{MongoCollections, Store}
use rw_manager_backend.Live.Response.{LiveResponse, get_stored_server_live_status}
use rw_manager_backend.Live.Updates.{Subscriber}

abbrev pub max_message_bytes : ℕ
max_message_bytes = 65536

pub record SubscribeMessage : Type 0 where
  pub type : String
  pub server_ids : List String
  pub token : Option String

abbrev pub expected_type : Bool → String
expected_type subscribed =
    if subscribed then "server.status.set-servers" else "server.status.subscribe"

-- typeof serverId === 'string' && !!serverId.trim() && serverId.length <= 200
abbrev pub is_id : String → Bool
is_id s = not (str_eq (trim s) "") && leb (utf16_length s) 200

abbrev pub join_id : Option String → Option (List String) → Option (List String)
join_id none rest = none
join_id (some s) none = none
join_id (some s) (some ss) = if is_id s then some (s ∷ ss) else none

-- The elements, where each is such a string.
abbrev pub ids_of : List Value → Option (List String)
ids_of [] = some []
ids_of (v ∷ vs) = join_id (text? v) (ids_of vs)

abbrev is_type : String → Value → Bool
is_type type (text s) = str_eq s type
is_type type v = false

-- item.token === undefined || typeof item.token === 'string'
abbrev is_token : Value → Bool
is_token undefined = true
is_token (text s) = true
is_token v = false

-- item.token, where it is a string that is not empty
abbrev token_of : Value → Option String
token_of v = elim (text? v) [ none ↦ none | some s ↦ if str_eq s "" then none else some s ]

-- The token that a message has, where it is of the protocol but for its ids.
abbrev pub is_envelope : Bool → Value → Bool
is_envelope subscribed item =
    is_type (expected_type subscribed) (get "type" item)
    && is_one (get "schemaVersion" item)
    && is_token (get "token" item)

abbrev pub is_object : Value → Bool
is_object (object ps) = true
is_object (array vs) = true
is_object v = false

abbrev pub subscribe_message : Bool → Option String → List String → SubscribeMessage
subscribe_message subscribed token ids = record {
  type = expected_type subscribed;
  server_ids = sort (unique (map trim ids));
  token = token;
}

abbrev pub listed : Bool → Value → Option (List String) → Result SubscribeMessage
listed subscribed item none = err invalid_message
listed subscribed item (some ids) =
    if is_envelope subscribed item
    then ok (subscribe_message subscribed (token_of (get "token" item)) ids)
    else err invalid_message

abbrev pub within : AppConfig → Bool → Value → Option (List Value) → Result SubscribeMessage
within config subscribed item none = err invalid_message
within config subscribed item (some vs) =
    if ltb config.server_live_max_server_ids (length vs)
    then err server_limit_exceeded
    else listed subscribed item (ids_of vs)

abbrev pub from_item : AppConfig → Bool → Option Value → Result SubscribeMessage
from_item config subscribed none = err invalid_message
from_item config subscribed (some item) =
    if is_object item
    then within config subscribed item (array? (get "serverIds" item))
    else err invalid_message

-- `parse_json` is JSON.parse, with none where it throws; `frame` the text of the raw data.
unfoldable pub parse_server_status_subscribe_message :
    AppConfig → (String → Option Value) → Bool → String → Result SubscribeMessage
parse_server_status_subscribe_message config parse_json subscribed frame =
    if ltb max_message_bytes (byte_length frame)
    then err invalid_message
    else from_item config subscribed (parse_json frame)

module _ (m : MongoCollections) where
  -- The user of the token of a message.
  abbrev user_of : Encoding → ℕ → Option String → Store m → Option PrivateUser
  user_of encoding now none st = none
  user_of encoding now (some token) st =
      get_user_from_bearer_token encoding m now (some (String.◌++◌ "Bearer " token)) st

  unfoldable pub authorize : AppConfig → Encoding → ℕ → Option String → Run (Store m) (Unit {0})
  authorize config encoding now token st =
      guard
        (not (
          config.enable_auth && config.force_auth && not (is_some (user_of encoding now token st))))
        unauthorized st

  -- The responses are read one after the other here, and at once in the program: they change
  -- nothing. Of several errors this is the first one.
  unfoldable pub snapshot_items_for : ℕ → List String → Run (Store m) (Entries LiveResponse)
  snapshot_items_for now [] = return []
  snapshot_items_for now (id ∷ ids) =
      get_stored_server_live_status m now id
      >>= (λ value. snapshot_items_for now ids >>= (λ items. return ((id, value) ∷ items)))

-- What a connection has: the flag, and the entry of the map of subscribers.
pub record Connection : Type 0 where
  pub subscribed : Bool
  pub state : Option Subscriber

-- What is sent, but for the times, or the code of the close.
pub data Reply : Type 0 where
  status_subscribed : List String → ℕ → Reply
  status_snapshot : Entries LiveResponse → Reply
  protocol_error : String → Reply
  close : ℕ → String → Reply

-- protocolErrorCode: the codes of the other errors are not told.
abbrev pub protocol_error_code : Code → String
protocol_error_code invalid_message = "invalid_message"
protocol_error_code server_limit_exceeded = "server_limit_exceeded"
protocol_error_code unauthorized = "unauthorized"
protocol_error_code server_not_found = "server_not_found"
protocol_error_code query_url_missing = "query_url_missing"
protocol_error_code e = "internal_error"

-- closeWithError
abbrev pub close_with_error : String → List Reply
close_with_error code =
    protocol_error code ∷ close (if str_eq code "unauthorized" then 1008 else 1003) code ∷ []

abbrev pub subscriber_of : Option Subscriber → Subscriber
subscriber_of none = record { server_ids = []; snapshots = []; sequence = 0 }
subscriber_of (some s) = s

abbrev pub refused : Bool → String → List Reply
refused true code = protocol_error code ∷ []
refused false code = close_with_error code

abbrev pub answer :
    AppConfig
    → Connection
    → Result (SubscribeMessage × Entries LiveResponse)
    → List Reply × Connection
answer config c (ok (message, items)) = (
  status_subscribed message.server_ids config.server_live_max_server_ids
      ∷ status_snapshot items
      ∷ [],
  record {
    subscribed = true;
    state =
        some
          (record (subscriber_of c.state) { server_ids = message.server_ids; snapshots = items });
  },
)
answer config c (err e) = (refused c.subscribed (protocol_error_code e), c)

module _ (m : MongoCollections) (config : AppConfig) (encoding : Encoding) where
  -- A connection that is subscribed needs no token.
  abbrev pub authorize_first : ℕ → Bool → SubscribeMessage → Run (Store m) (Unit {0})
  authorize_first now subscribed message =
      if subscribed then return tt else authorize m config encoding now message.token

  abbrev pub request :
      ℕ → Bool → Result SubscribeMessage → Run (Store m) (SubscribeMessage × Entries LiveResponse)
  request now subscribed (err e) = throw e
  request now subscribed (ok message) =
      authorize_first now subscribed message
      >> (snapshot_items_for m now message.server_ids >>= (λ items. return (message, items)))

  -- What a message asks for. `parse_json` is JSON.parse.
  unfoldable pub requested :
      (String → Option Value)
      → ℕ
      → Bool
      → String
      → Run (Store m) (SubscribeMessage × Entries LiveResponse)
  requested parse_json now subscribed frame =
      request now subscribed
        (parse_server_status_subscribe_message config parse_json subscribed frame)

  unfoldable pub on_message :
      (String → Option Value) → ℕ → String → Connection → Store m → List Reply × Connection
  on_message parse_json now frame c st =
      answer config c (requested parse_json now c.subscribed frame st).0
