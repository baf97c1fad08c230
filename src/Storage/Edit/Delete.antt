-- ===== src/Storage/Edit/Delete.antt =====
-- storage-service.ts: who may delete a server, and what a deletion removes.
use mathlib.Core.Path.{subst}
use rw_manager_backend.Base.{
  String, Bool, false, not, Option, none, some, find?, filter, if◌then◌else◌, arith, Option-cases,
  inl, inr, ◌≡◌, sym, ◌∙◌, server_not_found, ok, err,
}
use rw_manager_backend.Data.Server.{ServerConfig}
use rw_manager_backend.Config.{AppConfig}
use rw_manager_backend.Store.State.{MongoCollections, Store, servers_of, users_of}
use rw_manager_backend.Store.Servers.{has_id, remove_server}
use rw_manager_backend.Store.Servers.Views.{
  HasUniqueIds, find_server_by_id-view, servers-remove_server, users-remove_server, id_of_found,
}
use rw_manager_backend.Storage.Access.{Web, Context, is_writer, assert_server_write_access}
use rw_manager_backend.Storage.Edit.{delete_server}

module _ (m : MongoCollections) (config : AppConfig) (web : Web) where
  -- Whether the caller may write the server that was found.
  abbrev pub may_write : Context → Option ServerConfig → Bool
  may_write context none = false
  may_write context (some current) = is_writer config web current context

  -- Deleting answers `ok` and removes the server with the id, and no other, exactly where there is
  -- such a server and the caller may write it: its owner, an administrator of its backend, or anyone
  -- without accounts. Otherwise it answers SERVER_NOT_FOUND and removes nothing. Ids are unique.
  pub delete_server_exact :
      (server_id : String) (context : Context) (st : Store m)
      → HasUniqueIds (servers_of m st)
      → let may = may_write context (find? (has_id server_id) (servers_of m st)) in
        let (answer, st') = delete_server m config web server_id context st in
        (answer ≡ (if may then ok tt else err server_not_found))
        × (servers_of m st' ≡ (
            if may
            then filter (λ s. not (has_id server_id s)) (servers_of m st)
            else servers_of m st))
        × (users_of m st' ≡ users_of m st)
  unfolding delete_server assert_server_write_access
  delete_server_exact server_id context st unique =
      elim (Option-cases (find? (has_id server_id) (servers_of m st))) [
        | inl missing ↦
            let e = find_server_by_id-view m server_id st ∙ missing in
            (ground (arith, e, missing), ground (arith, e, missing), ground (arith, e, missing))
        | inr (current, found) ↦
            let e = find_server_by_id-view m server_id st ∙ found in
            let removed =
              subst
                (λ k.
                  servers_of m (remove_server m k st)
                  ≡ filter (λ s. not (has_id server_id s)) (servers_of m st))
                (sym (id_of_found server_id (servers_of m st) found))
                (servers-remove_server m server_id st unique) in
            let users = users-remove_server m current.id st in
            (
              ground (arith, e, found),
              ground (arith, e, found, removed),
              ground (arith, e, found, users),
            )
      ]
