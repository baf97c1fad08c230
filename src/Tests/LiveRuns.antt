-- ===== src/Tests/LiveRuns.antt =====
-- The theorems of live status: a client that subscribes to one server, and a connector's report.
use rw_manager_backend.Base.{
  String, true, false, Option, none, some, List, [], ◌∷◌, ◌≡◌, refl, map_get, includes, sort,
  unique, unique_from, trim, trim_start, trim_end, ◌<◌, ◌+◌, is_space, byte_length, utf16_length,
  units, find?, filter, length, arith, ok, Entries,
}
use rw_manager_backend.Data.Value.{Value, text, num, nat, bool, array, object, prop, end, cons, nil}
use rw_manager_backend.Data.Server.{ServerConfig, online}
use rw_manager_backend.Config.{from_env, bounded_integer}
use rw_manager_backend.Auth.Token.{Encoding}
use rw_manager_backend.Store.Servers.{find_server_by_id}
use rw_manager_backend.Live.Response.{
  LiveResponse, up, stored_live_status_response, get_stored_server_live_status,
}
use rw_manager_backend.Live.Changes.{Json}
use rw_manager_backend.Live.Changes.Laws.{SameView}
use rw_manager_backend.Live.Updates.{Update, Subscriber, on_updates}
use rw_manager_backend.Live.Updates.Replica.{receive_all, latest}
use rw_manager_backend.Live.Updates.Sequence.{IsNumbered, on_updates-IsNumbered}
use rw_manager_backend.Live.Subscribe.{
  SubscribeMessage, Connection, status_subscribed, status_snapshot,
  parse_server_status_subscribe_message, on_message, requested, authorize, snapshot_items_for,
}
use rw_manager_backend.Live.Subscribe.Parsed.{IsRead, parse-IsRead}
use rw_manager_backend.Live.Subscribe.Started.{subscribed_replica}
use rw_manager_backend.Live.Status.{connector_online_players}
use rw_manager_backend.Statistics.{BucketDoc, Clock, memory}
use rw_manager_backend.Master.Query.{Answers, failed}
use rw_manager_backend.Live.Service.{
  LiveWorld, accept_connector_player_status, get_server_live_status,
}
use rw_manager_backend.Live.Service.Connector.{reported_answered}
use rw_manager_backend.Tests.Fixtures.{lists, listed, alpha, in_memory, in_mongo, config}

abbrev value_text : Value → String
value_text (text s) = s
value_text v = "value"

abbrev json : Json
json = record { value_text = value_text; list_text = λ vs. "list"; string_text = λ s. s }

abbrev request : Value
request = object (
    prop "type" (text "server.status.subscribe") (
      prop "schemaVersion" (num (nat 1))
        (prop "serverIds" (array (cons (text " a") (cons (text "a") nil))) end)))

abbrev parse_json : String → Option Value
parse_json frame = some request

abbrev message : SubscribeMessage
message = record { type = "server.status.subscribe"; server_ids = "a" ∷ []; token = none }

parsed : parse_server_status_subscribe_message config parse_json false "{}" ≡ ok message
unfolding parse_server_status_subscribe_message trim trim_start trim_end is_space byte_length
    utf16_length units sort unique from_env unique_from includes
parsed = refl

parse-IsRead_example : (item : Value) × (parse_json "{}" ≡ some item) × IsRead config item message
parse-IsRead_example = parse-IsRead config parse_json false "{}" message parsed

abbrev encoding : Encoding
encoding = record {
  header_part = "header";
  read_header = λ s. true;
  payload_part = λ p. "payload";
  read_payload = λ s. none;
  sign = λ s. "signature";
}

abbrev connection : Connection
connection = record { subscribed = false; state = none }

abbrev items : Entries LiveResponse
items = ("a", stored_live_status_response 7 alpha) ∷ []

subscribed_alpha :
    (on_message lists config encoding parse_json 7 "{}" connection in_memory).0
    ≡ status_subscribed ("a" ∷ []) 1000 ∷ status_snapshot items ∷ []
unfolding on_message requested parse_server_status_subscribe_message trim trim_start trim_end
    is_space byte_length utf16_length units sort unique from_env unique_from includes authorize
    snapshot_items_for get_stored_server_live_status find_server_by_id find?
subscribed_alpha = refl

abbrev went_up : LiveResponse
went_up = record {
  status = up;
  query_data = some (text "data");
  info_data = none;
  online_players = some [];
  last_checked = 9;
  error_message = none;
}

abbrev updates : List Update
updates =
    record { server_id = "a"; value = went_up } ∷ record { server_id = "b"; value = went_up } ∷ []

listed_alpha : includes "a" ("a" ∷ []) ≡ true
unfolding includes
listed_alpha = refl

subscribed_replica_example :
    (s : Subscriber) × (start last : LiveResponse) × ((on_message lists config encoding parse_json 7
        "{}" connection in_memory).1.state
      ≡ some s)
    × ((get_stored_server_live_status lists 7 "a" in_memory).0 ≡ ok start)
    × (map_get "a" (receive_all (on_updates json updates s).0 items) ≡ some last)
    × SameView json last (latest "a" updates start)
subscribed_replica_example =
    subscribed_replica lists config encoding parse_json json 7 "{}" connection in_memory ("a" ∷ [])
      1000 items updates "a" subscribed_alpha listed_alpha

abbrev subscriber : Subscriber
subscriber = record { server_ids = "a" ∷ []; snapshots = items; sequence = 4 }

on_updates-IsNumbered_example :
    IsNumbered 4 (on_updates json updates subscriber).0
    × ((on_updates json updates subscriber).1.sequence
        ≡ 4 + length (on_updates json updates subscriber).0)
on_updates-IsNumbered_example = on_updates-IsNumbered json updates subscriber

abbrev player : Value
player = object (prop "uid" (text "1") (prop "connected" (bool true) end))

abbrev gone : Value
gone = object (prop "uid" (text "2") (prop "connected" (bool false) end))

abbrev report : Value
report =
    object (
      prop "schemaVersion" (num (nat 1)) (prop "players" (array (cons player (cons gone nil))) end))

reported : connector_online_players report ≡ some (player ∷ [])
unfolding connector_online_players filter
reported = refl

found_alpha : find_server_by_id lists "a" in_mongo ≡ some alpha
unfolding find_server_by_id find?
found_alpha = refl

abbrev world : LiveWorld lists (listed BucketDoc)
world = record {
  store = in_mongo;
  statistics = memory [];
  updates = [];
  cache = [];
  attempted = [];
}

abbrev clock : Clock
clock = record { iso = λ t. "hour"; floor = λ s. 0 }

abbrev answers : Answers
answers = record {
  query = failed "HTTP 500";
  info = failed "HTTP 500";
  playerlist = failed "HTTP 500";
  native_info = none;
}

in_time : 8 < 7 + config.live_query_proxy_cache_ttl_ms
unfolding from_env bounded_integer
in_time = omega arith

reported_answered_example :
    let w' =
      (accept_connector_player_status lists (listed BucketDoc) config 7 "a" report world).1 in
    (s : ServerConfig) × (r : LiveResponse) × (find_server_by_id lists "a" w'.store ≡ some s)
    × (s.status ≡ some online)
    × (s.online_players ≡ some (player ∷ []))
    × ((get_server_live_status lists (listed BucketDoc) config (λ s. none) clock 8 "a" answers w').0
        ≡ ok r)
    × (r.status ≡ up)
    × (r.online_players ≡ some (player ∷ []))
    × (r.error_message ≡ none)
reported_answered_example =
    reported_answered lists (listed BucketDoc) config (λ s. none) clock 7 8 "a" report (player ∷ [])
      alpha answers world reported found_alpha refl in_time
