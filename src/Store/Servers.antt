-- ===== src/Store/Servers.antt =====
-- Servers: lookup, insertion, update and removal.
pub mod Views
use rw_manager_backend.Base.{
  ℕ, String, Bool, true, false, not, ◌&&◌, Option, none, some, List, find?, filter, update_first,
  upsert, remove_first, opt_eq, truthy, str_eq, nat_eq, if◌then◌else◌,
}
use rw_manager_backend.Data.Server.{ServerConfig}
use rw_manager_backend.Store.State.{MongoCollections, Store, memory, mongo}
use rw_manager_backend.Store.Patch.{ServerPatch, assign_server}

-- server.id === id
abbrev pub has_id : String → ServerConfig → Bool
has_id id s = str_eq s.id id

abbrev pub is_port : Option ℕ → ℕ → Bool
is_port none n = false
is_port (some p) n = nat_eq p n

-- server.ip === ip && server.port === port
abbrev pub at_endpoint : String → ℕ → ServerConfig → Bool
at_endpoint ip port s = opt_eq s.ip (some ip) && is_port s.port port

-- { ...stored, ...fields } where `fields` is the server without its credential. A server that is
-- passed in was read from the store or is new, so that it has every field of the stored one.
abbrev pub merge_fields : ServerConfig → ServerConfig → ServerConfig
merge_fields server stored = record server { connector_credential = stored.connector_credential }

-- The document that an upsert inserts.
abbrev pub without_credential : ServerConfig → ServerConfig
without_credential server = record server { connector_credential = none }

abbrev pub new_server :
    (id label query_url : String) (backend_url user_id : Option String) (is_public : Bool) (now : ℕ)
    → ServerConfig
new_server id label query_url backend_url user_id is_public now = record {
  id = id;
  label = label;
  steam_id = none;
  addr = none;
  version = none;
  name = none;
  ip = none;
  port = none;
  region = none;
  gm = none;
  mods = none;
  password = none;
  whitelist = none;
  admin_uid = none;
  query_url = query_url;
  query_url_explicit = some true;
  map_url = none;
  backend_url = backend_url;
  query_data = none;
  info = none;
  status = none;
  online_players = none;
  known_players = none;
  blocked = none;
  blocked_at = none;
  last_checked = none;
  error_message = none;
  first_seen = none;
  last_seen = none;
  query_data_updated_at = none;
  connector_credential = none;
  is_public = is_public;
  created_at = now;
  user_id = user_id;
}

module _ (m : MongoCollections) where
  unfoldable pub list_servers : Store m → List ServerConfig
  list_servers (memory ss us) = ss
  list_servers (mongo s u) = m.servers.find s

  unfoldable pub find_server_by_id : String → Store m → Option ServerConfig
  find_server_by_id id (memory ss us) = find? (has_id id) ss
  find_server_by_id id (mongo s u) = m.servers.find_one (has_id id) s

  unfoldable pub find_server_by_master_endpoint : String → ℕ → Store m → Option ServerConfig
  find_server_by_master_endpoint ip port (memory ss us) = find? (at_endpoint ip port) ss
  find_server_by_master_endpoint ip port (mongo s u) = m.servers.find_one (at_endpoint ip port) s

  unfoldable pub save_server : ServerConfig → Store m → ServerConfig × Store m
  save_server server (memory ss us) =
      (server, memory (upsert (has_id server.id) (merge_fields server) server ss) us)
  save_server server (mongo s u) = (
    server,
    mongo
        (m.servers.upsert_one (has_id server.id) (merge_fields server) (without_credential server)
          s)
        u,
  )

  -- The call with an endpoint; `ip` and `port` are the server's.
  save_at_endpoint : String → ℕ → ServerConfig → Store m → ServerConfig × Store m
  save_at_endpoint ip port server (memory ss us) =
      (server, memory (upsert (at_endpoint ip port) (merge_fields server) server ss) us)
  save_at_endpoint ip port server (mongo s u) = (
    server,
    mongo
        (m.servers.upsert_one (at_endpoint ip port) (merge_fields server)
          (without_credential server) s)
        u,
  )

  save_endpoint? : Option String → Option ℕ → ServerConfig → Store m → ServerConfig × Store m
  unfolding save_at_endpoint
  save_endpoint? (some ip) (some port) server st =
      if str_eq ip "" then save_server server st else save_at_endpoint ip port server st
  save_endpoint? _ _ server st = save_server server st

  unfoldable pub save_master_server : ServerConfig → Store m → ServerConfig × Store m
  unfolding save_endpoint?
  save_master_server server st = save_endpoint? server.ip server.port server st

  -- `id` is the fresh `v4()`, `now` the clock.
  unfoldable pub add_server :
      (id label query_url : String) (backend_url user_id : Option String) (is_public : Bool)
      (now : ℕ)
      → Store m
      → ServerConfig × Store m
  unfolding save_server
  add_server id label query_url backend_url user_id is_public now st =
      save_server (new_server id label query_url backend_url user_id is_public now) st

  unfoldable pub update_server : String → ServerPatch → Store m → Option ServerConfig × Store m
  unfolding find_server_by_id save_server assign_server
  update_server id patch st = elim (find_server_by_id id st) [
    | none ↦ (none, st)
    | some server ↦
        let (saved, st') = save_server (assign_server patch server) st in (some saved, st')
  ]

  unfoldable pub remove_server : String → Store m → Store m
  remove_server id (memory ss us) = memory (filter (λ s. not (has_id id s)) ss) us
  remove_server id (mongo s u) = mongo (m.servers.delete_one (has_id id) s) u
