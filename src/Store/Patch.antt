-- ===== src/Store/Patch.antt =====
-- The partial updates of src/db/manager-store.ts: a field that is `undefined` is left alone.
use rw_manager_backend.Base.{ℕ, String, Bool, Option, none, List, or_else, get_or}
use rw_manager_backend.Data.Value.{Value}
use rw_manager_backend.Data.Player.{DbPlayer}
use rw_manager_backend.Data.Server.{ServerConfig, Stamp, Status}
use rw_manager_backend.Data.User.{DbUser, UserRole, UserState}

pub record ServerPatch : Type 0 where
  pub label : Option String
  pub query_url : Option String
  pub query_url_explicit : Option Bool
  pub backend_url : Option String
  pub map_url : Option String
  pub is_public : Option Bool
  pub query_data : Option Value
  pub info : Option Value
  pub status : Option Status
  pub online_players : Option (List Value)
  pub known_players : Option (List DbPlayer)
  pub blocked : Option Bool
  pub blocked_at : Option (Option Stamp)
  pub last_checked : Option Stamp
  pub error_message : Option String
  pub query_data_updated_at : Option Stamp
  pub steam_id : Option String
  pub addr : Option String
  pub version : Option String
  pub name : Option String
  pub ip : Option String
  pub port : Option ℕ
  pub region : Option String
  pub gm : Option ℕ
  pub mods : Option Bool
  pub password : Option Bool
  pub whitelist : Option Bool
  pub admin_uid : Option String
  pub first_seen : Option Stamp
  pub last_seen : Option Stamp

abbrev pub no_patch : ServerPatch
no_patch = record {
  label = none;
  query_url = none;
  query_url_explicit = none;
  backend_url = none;
  map_url = none;
  is_public = none;
  query_data = none;
  info = none;
  status = none;
  online_players = none;
  known_players = none;
  blocked = none;
  blocked_at = none;
  last_checked = none;
  error_message = none;
  query_data_updated_at = none;
  steam_id = none;
  addr = none;
  version = none;
  name = none;
  ip = none;
  port = none;
  region = none;
  gm = none;
  mods = none;
  password = none;
  whitelist = none;
  admin_uid = none;
  first_seen = none;
  last_seen = none;
}

-- Object.assign(server, the defined fields of the patch)
unfoldable pub assign_server : ServerPatch → ServerConfig → ServerConfig
assign_server p s = record s {
  label = get_or p.label s.label;
  query_url = get_or p.query_url s.query_url;
  query_url_explicit = or_else p.query_url_explicit s.query_url_explicit;
  backend_url = or_else p.backend_url s.backend_url;
  map_url = or_else p.map_url s.map_url;
  is_public = get_or p.is_public s.is_public;
  query_data = or_else p.query_data s.query_data;
  info = or_else p.info s.info;
  status = or_else p.status s.status;
  online_players = or_else p.online_players s.online_players;
  known_players = or_else p.known_players s.known_players;
  blocked = or_else p.blocked s.blocked;
  blocked_at = or_else p.blocked_at s.blocked_at;
  last_checked = or_else p.last_checked s.last_checked;
  error_message = or_else p.error_message s.error_message;
  query_data_updated_at = or_else p.query_data_updated_at s.query_data_updated_at;
  steam_id = or_else p.steam_id s.steam_id;
  addr = or_else p.addr s.addr;
  version = or_else p.version s.version;
  name = or_else p.name s.name;
  ip = or_else p.ip s.ip;
  port = or_else p.port s.port;
  region = or_else p.region s.region;
  gm = or_else p.gm s.gm;
  mods = or_else p.mods s.mods;
  password = or_else p.password s.password;
  whitelist = or_else p.whitelist s.whitelist;
  admin_uid = or_else p.admin_uid s.admin_uid;
  first_seen = or_else p.first_seen s.first_seen;
  last_seen = or_else p.last_seen s.last_seen;
}

pub record UserPatch : Type 0 where
  pub username : Option String
  pub state : Option UserState
  pub role : Option UserRole
  pub pinned_servers : Option (List String)
  pub intercom_channels : Option (List String)
  pub last_seen_at : Option ℕ
  pub api_token_hash : Option String
  pub api_token_salt : Option String
  pub api_token_created_at : Option ℕ

abbrev pub no_user_patch : UserPatch
no_user_patch = record {
  username = none;
  state = none;
  role = none;
  pinned_servers = none;
  intercom_channels = none;
  last_seen_at = none;
  api_token_hash = none;
  api_token_salt = none;
  api_token_created_at = none;
}

-- Object.assign(user, the defined fields of the patch)
unfoldable pub assign_user : UserPatch → DbUser → DbUser
assign_user p u = record u {
  username = get_or p.username u.username;
  state = get_or p.state u.state;
  role = get_or p.role u.role;
  pinned_servers = or_else p.pinned_servers u.pinned_servers;
  intercom_channels = or_else p.intercom_channels u.intercom_channels;
  last_seen_at = or_else p.last_seen_at u.last_seen_at;
  api_token_hash = or_else p.api_token_hash u.api_token_hash;
  api_token_salt = or_else p.api_token_salt u.api_token_salt;
  api_token_created_at = or_else p.api_token_created_at u.api_token_created_at;
}
