-- ===== src/Storage/Edit.antt =====
-- listServers, createServer, patchServer, deleteServer and setServerBlocked.
pub mod Urls
pub mod Laws
pub mod Delete
pub mod Backend
use rw_manager_backend.Base.{
  ℕ, String, Bool, true, false, not, ◌&&◌, ◌||◌, Option, none, some, List, [], ◌∷◌, any, opt_eq,
  str_eq, is_some, get_or, or_else, if◌then◌else◌, Run, throw, return, read, call, guard, or_throw,
  ◌>>=◌, ◌>>◌, after, Result, ok, err, label_query_url_required, query_url_exists, server_not_found,
  forbidden,
}
use rw_manager_backend.Data.Server.{ServerConfig, at}
use rw_manager_backend.Config.{AppConfig}
use rw_manager_backend.Store.State.{MongoCollections, Store}
use rw_manager_backend.Store.Patch.{ServerPatch, no_patch}
use rw_manager_backend.Store.Servers.{
  list_servers, find_server_by_id, add_server, update_server, remove_server,
}
use rw_manager_backend.Storage.Mapper.{ServerDto, map_server_to_dto}
use rw_manager_backend.Storage.Access.{
  Web, Context, can_list_server, normalized_query_url, normalize_backend_url, fetch_query_url_name,
  check_backend_for_write, assert_server_write_access, is_super_admin,
}

-- dto/create-server-request.ts, dto/update-server-request.ts
pub record CreateServerRequest : Type 0 where
  pub label : String
  pub query_url : String
  pub backend_url : Option String
  pub is_public : Option Bool

pub record UpdateServerRequest : Type 0 where
  pub label : Option String
  pub query_url : Option String
  pub backend_url : Option String
  pub is_public : Option Bool

-- The same owner, where there are accounts.
abbrev pub same_owner : AppConfig → Option String → ServerConfig → Bool
same_owner config owner s = if config.enable_auth then opt_eq s.user_id owner else true

abbrev pub is_duplicate : AppConfig → Option String → String → ServerConfig → Bool
is_duplicate config owner query_url s = same_owner config owner s && str_eq s.query_url query_url

abbrev pub is_other_duplicate : AppConfig → String → Option String → String → ServerConfig → Bool
is_other_duplicate config id owner query_url s =
    not (str_eq s.id id) && is_duplicate config owner query_url s

-- The name behind the query URL, asked for only where a backend is to be checked.
abbrev name_to_check : AppConfig → Web → Option String → String → Option String
name_to_check config web backend_url query_url =
    if config.enable_auth && is_some backend_url then fetch_query_url_name web query_url else none

module _ (m : MongoCollections) (config : AppConfig) (web : Web) where
  list_dtos : Context → ℕ → List ServerConfig → List ServerDto
  list_dtos context now [] = []
  list_dtos context now (s ∷ ss) =
      let rest = list_dtos context now ss in
      if can_list_server config s context now
      then elim (normalized_query_url web s.query_url) [
        | none ↦ rest
        | some url ↦ map_server_to_dto web.is_url (record s { query_url = url }) ∷ rest
      ]
      else rest

  unfoldable pub list_servers_for : Context → ℕ → Store m → List ServerDto
  unfolding list_dtos
  list_servers_for context now st = list_dtos context now (list_servers m st)

  -- `id` is the fresh id and `now` the clock.
  unfoldable pub create_server :
      (id : String) (now : ℕ) → CreateServerRequest → Context → Run (Store m) ServerDto
  create_server id now input context = do
    guard (not (str_eq input.label "" || str_eq input.query_url "")) label_query_url_required
    servers ← read (list_servers m)
    guard (not (any (is_duplicate config context.user_id input.query_url) servers)) query_url_exists
    check_backend_for_write config web (normalize_backend_url input.backend_url)
        context.user_steam_id
        (name_to_check config web (normalize_backend_url input.backend_url) input.query_url)
    server ← call (
        add_server m id input.label input.query_url (normalize_backend_url input.backend_url)
          context.user_id (get_or input.is_public false) now)
    return (map_server_to_dto web.is_url server)

  -- The backend and the query URL after the patch.
  abbrev pub next_backend_url : UpdateServerRequest → ServerConfig → Option String
  next_backend_url patch current =
      if is_some patch.backend_url
      then normalize_backend_url patch.backend_url
      else normalize_backend_url current.backend_url

  abbrev pub next_query_url : UpdateServerRequest → ServerConfig → String
  next_query_url patch current = get_or patch.query_url current.query_url

  abbrev check_patch : UpdateServerRequest → ServerConfig → Context → Run (Store m) (Unit {0})
  check_patch patch current context =
      if is_some patch.backend_url || is_some patch.query_url
      then check_backend_for_write config web (next_backend_url patch current) context.user_steam_id
          (name_to_check config web (next_backend_url patch current) (next_query_url patch current))
      else return tt

  -- A backend URL that is taken away is `undefined` here, which leaves the stored one alone.
  abbrev pub patch_of : UpdateServerRequest → ServerConfig → ServerPatch
  patch_of patch current = record no_patch {
    label = patch.label;
    query_url = patch.query_url;
    query_url_explicit = if is_some patch.query_url then some true else none;
    backend_url = if is_some patch.backend_url then next_backend_url patch current else none;
    is_public = patch.is_public;
  }

  unfoldable pub patch_server : String → UpdateServerRequest → Context → Run (Store m) ServerDto
  patch_server server_id patch context = do
    found ← read (find_server_by_id m server_id)
    current ← or_throw found server_not_found
    assert_server_write_access config web current context
    servers ← read (list_servers m)
    guard
        (not (
          any (is_other_duplicate config current.id current.user_id (next_query_url patch current))
            servers))
        query_url_exists
    check_patch patch current context
    updated ← call (update_server m current.id (patch_of patch current))
    server ← or_throw updated server_not_found
    return (map_server_to_dto web.is_url server)

  unfoldable pub delete_server : String → Context → Run (Store m) (Unit {0})
  delete_server server_id context = do
    found ← read (find_server_by_id m server_id)
    current ← or_throw found server_not_found
    assert_server_write_access config web current context
    call (λ st. (tt, remove_server m current.id st))

  unfoldable pub set_server_blocked :
      (now : ℕ) → String → Bool → Option String → Run (Store m) ServerDto
  set_server_blocked now server_id blocked steam = do
    guard (is_super_admin config steam) forbidden
    found ← read (find_server_by_id m server_id)
    current ← or_throw found server_not_found
    updated ← call (
        update_server m current.id (record no_patch {
          blocked = some blocked;
          blocked_at = some (if blocked then some (at now) else none);
        }))
    server ← or_throw updated server_not_found
    return (map_server_to_dto web.is_url server)
