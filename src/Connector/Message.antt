-- ===== src/Connector/Message.antt =====
-- The validators of the connector's messages. A message is the value that JSON.parse yields.
use rw_manager_backend.Base.{
  ℕ, String, Bool, true, false, ◌&&◌, ◌||◌, Option, none, some, List, [], ◌∷◌, leb, str_eq, all,
  length, is_lower, is_upper, is_digit, headed, if◌then◌else◌,
}
use mathlib.Core.Option
use rw_manager_backend.Config.{max_safe_integer}
use rw_manager_backend.Data.Value.{
  is_one, Value, undefined, num, text, array, object, nat, get, text?, array?,
}

-- typeof value === 'string' && value === expected
abbrev is_text : String → Value → Bool
is_text expected (text s) = str_eq s expected
is_text expected v = false

-- value.type === type && value.schemaVersion === 1
abbrev is_message : String → Value → Bool
is_message type v = is_text type (get "type" v) && is_one (get "schemaVersion" v)

-- JSON.parse yields an object or an array; `parse_json` is JSON.parse, with none where it throws.
unfoldable pub parse_message : (String → Option Value) → String → Option Value
parse_message parse_json frame = Option.bind (parse_json frame) entries
  where
    entries : Value → Option Value
    entries (array vs) = some (array vs)
    entries (object ps) = some (object ps)
    entries v = none

-- An integer between 1 and 65535.
abbrev port? : Value → Option ℕ
port? (num (nat n)) = if leb 1 n && leb n 65535 then some n else none
port? v = none

-- A tokenless first message: the game port that it names.
unfoldable pub provision_port : Value → Option ℕ
provision_port v = if is_message "connector.provision" v then port? (get "gamePort" v) else none

-- string.length counts UTF-16 code units: an argument, as the language defines it.
module _ (utf16_length : String → ℕ) where
  abbrev short? : Option String → Option String
  short? none = none
  short? (some c) = if leb (utf16_length c) 256 then some c else none

  -- A first message with a credential of at most 256 characters.
  unfoldable pub authenticate_credential : Value → Option String
  authenticate_credential v =
      if is_message "connector.authenticate" v then short? (text? (get "credential" v)) else none

-- /^[a-z][A-Za-z0-9]{0,63}$/
unfoldable pub is_event_name : String → Bool
is_event_name s = headed is_lower (λ c. is_lower c || is_upper c || is_digit c) 63 s

-- The strings, where every element is one.
abbrev texts : List Value → Option (List String)
texts [] = some []
texts (v ∷ vs) = join (text? v) (texts vs)
  where
    join : Option String → Option (List String) → Option (List String)
    join none rest = none
    join (some s) none = none
    join (some s) (some ss) = some (s ∷ ss)

abbrev names? : Option (List String) → Option (List String)
names? none = none
names? (some names) = if leb (length names) 64 && all is_event_name names then some names else none

-- A features message: at most 64 event names.
unfoldable pub features_events : Value → Option (List String)
features_events v =
    if is_message "connector.features" v
    then names? (Option.bind (array? (get "events" v)) texts)
    else none

pub record Event : Type 0 where
  pub name : String
  pub sequence : ℕ
  pub payload : Value

-- Number.isSafeInteger(sequence); a sequence below zero follows none.
abbrev event_of : Option String → Value → Value → Option Event
event_of none sequence payload = none
event_of (some name) (num (nat n)) payload =
    if is_event_name name && leb n max_safe_integer
    then some (record { name = name; sequence = n; payload = payload })
    else none
event_of (some name) v payload = none

-- 'data' in value: JSON.parse yields no property that is undefined.
abbrev has_data : Value → Bool
has_data undefined = false
has_data v = true

unfoldable pub event_message : Value → Option Event
event_message v =
    if is_message "connector.event" v && has_data (get "data" v)
    then event_of (text? (get "event" v)) (get "sequence" v) (get "data" v)
    else none
