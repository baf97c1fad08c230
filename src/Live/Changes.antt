-- ===== src/Live/Changes.antt =====
-- `serverLiveStatusChanges` of service/server-status-live-service.ts: the difference of two
-- responses. `json` is JSON.stringify of a value, and `json_list` of an array.
pub mod Laws
use rw_manager_backend.Base.{
  ℕ, String, Bool, true, false, not, ◌&&◌, ◌||◌, Option, none, some, List, [], ◌∷◌, ◌++◌, is_some,
  str_eq, opt_eq, if◌then◌else◌,
}
use mathlib.Core.Option
use rw_manager_backend.Data.Value.{Value}
use rw_manager_backend.Live.Response.{LiveResponse, LiveStatus, up, down}

pub data Field : Type 0 where
  query_data_field info_data_field online_players_field error_message_field : Field

-- The changed fields, and the removed ones.
pub record Changes : Type 0 where
  pub status : Option LiveStatus
  pub query_data : Option Value
  pub info_data : Option Value
  pub online_players : Option (List Value)
  pub error_message : Option String
  pub last_checked : Option ℕ
  pub removed : List Field

pub record Json : Type 0 where
  pub value_text : Value → String
  pub list_text : List Value → String
  pub string_text : String → String

abbrev pub same_status : LiveStatus → LiveStatus → Bool
same_status up up = true
same_status down down = true
same_status up down = false
same_status down up = false

-- sameValue: `undefined` has no JSON text.
abbrev pub same_value : {A : Type 0} → (A → String) → Option A → Option A → Bool
same_value text a b = opt_eq (Option.map text a) (Option.map text b)

abbrev pub is_removed : {A : Type 0} → Option A → Option A → Bool
is_removed before next = not (is_some next) && is_some before

-- The new value of a field that is not removed, where it differs.
abbrev pub new_value : {A : Type 0} → (A → String) → Option A → Option A → Option A
new_value text before next = if same_value text before next then none else next

abbrev pub keep_if : Bool → Field → List Field
keep_if b f = if b then f ∷ [] else []

-- Whether anything is sent: Object.keys(changed).length || removedFields.length.
abbrev pub any_list : List Field → Bool
any_list [] = false
any_list (f ∷ fs) = true

unfoldable pub has_changes : Changes → Bool
has_changes c =
    is_some c.status
    || is_some c.query_data
    || is_some c.info_data
    || is_some c.online_players
    || is_some c.error_message
    || is_some c.last_checked
    || any_list c.removed

module _ (json : Json) where
  -- The changes before the time of the check is added.
  abbrev pub field_changes : LiveResponse → LiveResponse → Changes
  field_changes before next = record {
    status = if same_status before.status next.status then none else some next.status;
    query_data = new_value json.value_text before.query_data next.query_data;
    info_data = new_value json.value_text before.info_data next.info_data;
    online_players = new_value json.list_text before.online_players next.online_players;
    error_message = new_value json.string_text before.error_message next.error_message;
    last_checked = none;
    removed =
        keep_if (is_removed before.query_data next.query_data) query_data_field
        ++ keep_if (is_removed before.info_data next.info_data) info_data_field
        ++ keep_if (is_removed before.online_players next.online_players) online_players_field
        ++ keep_if (is_removed before.error_message next.error_message) error_message_field;
  }

  unfoldable pub server_live_status_changes : LiveResponse → LiveResponse → Changes
  unfolding has_changes
  server_live_status_changes before next =
      let fields = field_changes before next in
      if has_changes fields then record fields { last_checked = some next.last_checked } else fields
