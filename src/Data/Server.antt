-- ===== src/Data/Server.antt =====
-- interfaces/server-config.ts. A field that is not in the object, or `undefined`, is `none`.
use rw_manager_backend.Base.{ℕ, String, Bool, Option, none, some, List}
use rw_manager_backend.Data.Value.{Value}
use rw_manager_backend.Data.Player.{DbPlayer}

-- A `Date`, or a string as `new Date(s)` reads it: milliseconds since 1970, or no date (NaN).
pub data Stamp : Type 0 where
  at : ℕ → Stamp
  not_a_date : Stamp

-- new Date(value).getTime(), where that is not NaN
abbrev pub stamp_ms : Stamp → Option ℕ
stamp_ms (at t) = some t
stamp_ms not_a_date = none

pub data Status : Type 0 where
  online offline unknown : Status

pub record ServerConfig : Type 0 where
  pub id : String
  pub label : String
  pub steam_id : Option String
  pub addr : Option String
  pub version : Option String
  pub name : Option String
  pub ip : Option String
  pub port : Option ℕ
  pub region : Option String
  pub gm : Option ℕ
  pub mods : Option Bool
  pub password : Option Bool
  pub whitelist : Option Bool
  pub admin_uid : Option String
  pub query_url : String
  pub query_url_explicit : Option Bool
  pub map_url : Option String
  pub backend_url : Option String
  pub query_data : Option Value
  pub info : Option Value
  pub status : Option Status
  pub online_players : Option (List Value)
  pub known_players : Option (List DbPlayer)
  pub blocked : Option Bool
  pub blocked_at : Option (Option Stamp)
  pub last_checked : Option Stamp
  pub error_message : Option String
  pub first_seen : Option Stamp
  pub last_seen : Option Stamp
  pub query_data_updated_at : Option Stamp
  pub connector_credential : Option String
  pub is_public : Bool
  pub created_at : ℕ
  pub user_id : Option String
