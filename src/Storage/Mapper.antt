-- ===== src/Storage/Mapper.antt =====
-- src/mapper/server-mapper.ts and src/mapper/user-mapper.ts. A date stays a stamp.
use rw_manager_backend.Base.{
  ℕ, String, Bool, Option, none, some, List, trim, get_or, str_eq, if◌then◌else◌,
}
use rw_manager_backend.Data.Value.{Value}
use rw_manager_backend.Data.Server.{ServerConfig, Stamp, Status, online, unknown}
use rw_manager_backend.Data.User.{PublicUser, PrivateUser}
use rw_manager_backend.Store.Users.{default_channels}

-- src/dto/server-dto.ts
pub record ServerDto : Type 0 where
  pub id : String
  pub label : String
  pub steam_id : Option String
  pub addr : Option String
  pub version : Option String
  pub name : Option String
  pub ip : Option String
  pub port : Option ℕ
  pub region : Option String
  pub gm : Option ℕ
  pub mods : Option Bool
  pub password : Option Bool
  pub whitelist : Option Bool
  pub admin_uid : Option String
  pub query_url : String
  pub map_url : Option String
  pub backend_url : Option String
  pub info : Option Value
  pub status : Status
  pub query_data : Option Value
  pub info_data : Option Value
  pub online_players : Option (List Value)
  pub blocked : Option Bool
  pub blocked_at : Option Stamp
  pub last_checked : Option Stamp
  pub error_message : Option String
  pub first_seen : Option Stamp
  pub last_seen : Option Stamp
  pub query_data_updated_at : Option Stamp
  pub is_public : Bool
  pub created_at : ℕ
  pub user_id : Option String

abbrev status_of : Option Status → Option Value → Status
status_of (some s) data_of = s
status_of none none = unknown
status_of none (some v) = online

unfoldable pub map_server_status : ServerConfig → Status
map_server_status s = status_of s.status s.query_data

-- `is_url` is whether `new URL(text)` succeeds.
unfoldable pub map_optional_url : (String → Bool) → Option String → Option String
map_optional_url is_url none = none
map_optional_url is_url (some s) =
    if str_eq (trim s) "" then none else if is_url (trim s) then some (trim s) else none

unfoldable pub map_server_to_dto : (String → Bool) → ServerConfig → ServerDto
unfolding map_server_status map_optional_url
map_server_to_dto is_url s = record {
  id = s.id;
  label = s.label;
  steam_id = s.steam_id;
  addr = s.addr;
  version = s.version;
  name = s.name;
  ip = s.ip;
  port = s.port;
  region = s.region;
  gm = s.gm;
  mods = s.mods;
  password = s.password;
  whitelist = s.whitelist;
  admin_uid = s.admin_uid;
  query_url = s.query_url;
  map_url = map_optional_url is_url s.map_url;
  backend_url = map_optional_url is_url s.backend_url;
  info = s.info;
  status = map_server_status s;
  query_data = s.query_data;
  info_data = s.info;
  online_players = s.online_players;
  blocked = s.blocked;
  blocked_at = get_or s.blocked_at none;
  last_checked = s.last_checked;
  error_message = s.error_message;
  first_seen = s.first_seen;
  last_seen = s.last_seen;
  query_data_updated_at = s.query_data_updated_at;
  is_public = s.is_public;
  created_at = s.created_at;
  user_id = s.user_id;
}

unfoldable pub map_public_user_to_dto : PublicUser → PublicUser
map_public_user_to_dto u = record u {
  intercom_channels = some (get_or u.intercom_channels default_channels);
}

unfoldable pub map_private_user_to_dto : PrivateUser → PrivateUser
unfolding map_public_user_to_dto
map_private_user_to_dto u = record u { profile = map_public_user_to_dto u.profile }
