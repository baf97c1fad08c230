-- ===== src/Master/Entry.antt =====
-- The fields of an entry of the master list, and `applyMasterEntry`. An entry is a value; a number of
-- the list is natural here, as a port and a game mode are.
use Prim.Native.String
use rw_manager_backend.Base.{
  ℕ, String, Bool, true, false, ◌&&◌, ◌-◌, Option, none, some, leb, nat_eq, or_else, get_or,
  is_digit, all_chars, if◌then◌else◌,
}
use rw_manager_backend.Data.Value.{filled, Value, nat, bool, num, get, text?}
use rw_manager_backend.Data.Server.{ServerConfig, at}
use rw_manager_backend.Store.Servers.{new_server}

-- `show` prints a number; `hash_24` is the start of the SHA-256 of a text, in hexadecimal.
pub record MasterHost : Type 0 where
  pub show : ℕ → String
  pub hash_24 : String → String

abbrev pub string_or_undefined : Value → Option String
string_or_undefined v = filled (text? v)

abbrev pub boolean_or_undefined : Value → Option Bool
boolean_or_undefined (bool b) = some b
boolean_or_undefined v = none

abbrev pub number_or_undefined : Value → Option ℕ
number_or_undefined (num (nat n)) = some n
number_or_undefined v = none

module _ (host : MasterHost) where
  abbrev serialized : Value → Option String
  serialized (num (nat n)) = some (host.show n)
  serialized v = string_or_undefined v

  abbrev if_steam_id : Option String → Option String
  if_steam_id none = none
  if_steam_id (some s) = if all_chars is_digit s && nat_eq (String.count s) 17 then some s else none

  abbrev pub steam_id_or_undefined : Value → Option String
  steam_id_or_undefined v = if_steam_id (serialized v)

  abbrev url_at : Option String → Option ℕ → Option String
  url_at (some ip) (some port) =
      if leb port 1
      then none
      else some (String.◌++◌ "http://" (String.◌++◌ ip (String.◌∷◌ ":" (host.show (port - 1)))))
  url_at none port = none
  url_at (some ip) none = none

  unfoldable pub query_url_for : Value → Option String
  query_url_for entry =
      url_at (string_or_undefined (get "ip" entry)) (number_or_undefined (get "port" entry))

  abbrev id_at : Option String → Option ℕ → Option String
  id_at (some ip) (some port) =
      if leb port 0
      then none
      else some
          (String.◌++◌ "server-" (host.hash_24 (String.◌++◌ ip (String.◌∷◌ ":" (host.show port)))))
  id_at none port = none
  id_at (some ip) none = none

  unfoldable pub server_id_for : Value → Option String
  server_id_for entry =
      id_at (string_or_undefined (get "ip" entry)) (number_or_undefined (get "port" entry))

  -- A URL that an administrator configured is kept.
  abbrev pub listed_url : ServerConfig → Option String → String
  listed_url server query_url =
      if get_or server.query_url_explicit false
      then server.query_url
      else get_or query_url server.query_url

  unfoldable pub apply_master_entry : ServerConfig → Value → ℕ → ServerConfig
  unfolding query_url_for
  apply_master_entry server entry now = record server {
    steam_id = or_else (steam_id_or_undefined (get "steamid" entry)) server.steam_id;
    addr = or_else (string_or_undefined (get "addr" entry)) server.addr;
    version = or_else (string_or_undefined (get "version" entry)) server.version;
    name = or_else (string_or_undefined (get "name" entry)) server.name;
    ip = or_else (string_or_undefined (get "ip" entry)) server.ip;
    port = or_else (number_or_undefined (get "port" entry)) server.port;
    region = or_else (string_or_undefined (get "region" entry)) server.region;
    gm = or_else (number_or_undefined (get "gm" entry)) server.gm;
    mods = or_else (boolean_or_undefined (get "mods" entry)) server.mods;
    password = or_else (boolean_or_undefined (get "password" entry)) server.password;
    whitelist = or_else (boolean_or_undefined (get "whitelist" entry)) server.whitelist;
    query_url = listed_url server (query_url_for entry);
    last_seen = some (at now);
  }

-- The record of a server that the list names for the first time.
abbrev pub first_listed : (id query_url : String) → ℕ → ServerConfig
first_listed id query_url now = record (new_server id id query_url none none true now) {
  query_url_explicit = none;
  first_seen = some (at now);
  last_seen = some (at now);
}
