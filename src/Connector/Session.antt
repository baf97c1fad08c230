-- ===== src/Connector/Session.antt =====
-- The sessions of the connector: the rate limit, and the messages of an authenticated connection.
pub mod Rate
pub mod Order
use rw_manager_backend.Base.{
  ℕ, String, Bool, true, false, ◌&&◌, not, Option, none, some, List, [], ◌∷◌, ◌-◌, ◌+◌, ltb, leb,
  nat_eq, str_eq, find?, filter, update_first, upsert, includes, unique, if◌then◌else◌,
}
use rw_manager_backend.Data.Value.{Value}
use rw_manager_backend.Connector.Message.{Event, features_events, event_message}

pub record ConnectorSession : Type 0 where
  pub server_id : String
  pub socket : ℕ
  pub events : List String
  pub rate_window_started_at : ℕ
  pub messages_in_rate_window : ℕ
  pub last_event_sequence : ℕ

abbrev pub max_messages_per_minute : ℕ
max_messages_per_minute = 120

-- The map of sessions, by server.
abbrev pub Sessions : Type 0
Sessions = List ConnectorSession

abbrev pub is_of : String → ConnectorSession → Bool
is_of id s = str_eq s.server_id id

abbrev pub is_on : ℕ → ConnectorSession → Bool
is_on socket s = nat_eq s.socket socket

-- A window of 60 s that is over starts anew with this message.
unfoldable pub consume_message_allowance : ℕ → ConnectorSession → Bool × ConnectorSession
consume_message_allowance now s =
    if leb 60000 (now - s.rate_window_started_at)
    then (
      leb 1 max_messages_per_minute,
      record s { rate_window_started_at = now; messages_in_rate_window = 1 },
    )
    else (
      leb (s.messages_in_rate_window + 1) max_messages_per_minute,
      record s { messages_in_rate_window = s.messages_in_rate_window + 1 },
    )

-- What the handler of a message does last: it answers with the accepted events, it calls the event
-- handlers, or it closes the connection with an error code.
pub data Outcome : Type 0 where
  accepted : List String → Outcome
  delivered : String → Event → Outcome
  closed : String → Outcome

abbrev pub handle_event : Option Event → ConnectorSession → Outcome × ConnectorSession
handle_event none s = (closed "invalid_message", s)
handle_event (some e) s =
    if ltb s.last_event_sequence e.sequence && includes e.name s.events
    then (delivered s.server_id e, record s { last_event_sequence = e.sequence })
    else (closed "invalid_message", s)

abbrev pub handle_allowed :
    Option (List String) → Value → ConnectorSession → Outcome × ConnectorSession
handle_allowed (some names) v s = (accepted (unique names), record s { events = unique names })
handle_allowed none v s = handle_event (event_message v) s

-- A parsed message on the socket of the session.
unfoldable pub handle_in_session : ℕ → Value → ConnectorSession → Outcome × ConnectorSession
unfolding consume_message_allowance
handle_in_session now v s =
    let (allowed, s') = consume_message_allowance now s in
    if allowed then handle_allowed (features_events v) v s' else (closed "rate_limited", s')

abbrev put : Outcome × ConnectorSession → Sessions → Outcome × Sessions
put (o, s) ss = (o, update_first (is_of s.server_id) (λ _. s) ss)

abbrev handle_for : ℕ → ℕ → Value → Option ConnectorSession → Sessions → Outcome × Sessions
handle_for now socket v none ss = (closed "unauthorized", ss)
handle_for now socket v (some s) ss =
    if is_on socket s then put (handle_in_session now v s) ss else (closed "unauthorized", ss)

-- `message` is none where it is no JSON object.
unfoldable pub handle_authenticated_message :
    ℕ → ℕ → String → Option Value → Sessions → Outcome × Sessions
unfolding handle_in_session
handle_authenticated_message now socket id none ss = (closed "invalid_message", ss)
handle_authenticated_message now socket id (some v) ss =
    handle_for now socket v (find? (is_of id) ss) ss

-- A connection that is authenticated takes the place of the session that its server had.
unfoldable pub open_session : ℕ → ℕ → String → Sessions → Sessions
open_session now socket id ss = upsert (is_of id) (λ _. opened) opened ss
  where
    opened : ConnectorSession
    opened = record {
      server_id = id;
      socket = socket;
      events = [];
      rate_window_started_at = now;
      messages_in_rate_window = 0;
      last_event_sequence = 0;
    }

-- The socket is closed: its sessions are removed.
unfoldable pub close_socket : ℕ → Sessions → Sessions
close_socket socket ss = filter (λ s. not (is_on socket s)) ss

-- closeGameConnectorSession
unfoldable pub close_game_connector_session : String → Sessions → Sessions
close_game_connector_session id ss = filter (λ s. not (is_of id s)) ss

abbrev declares : String → Option ConnectorSession → Bool
declares event none = false
declares event (some s) = includes event s.events

unfoldable pub has_active_game_connector_feature : String → String → Sessions → Bool
has_active_game_connector_feature id event ss = declares event (find? (is_of id) ss)
