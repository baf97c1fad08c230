-- ===== src/Storage/Edit/Backend.antt =====
-- storage-service.ts: a patch that clears the backend URL of a server.
use mathlib.Core.Path.{subst}
use rw_manager_backend.Base.{
  String, Bool, Option, none, some, List, [], ◌∷◌, update_first, str_eq, is_some, or_else,
  if◌then◌else◌, arith, ◌≡◌, refl, sym, ap, ◌∙◌, map, trim,
}
use rw_manager_backend.Data.Server.{ServerConfig}
use rw_manager_backend.Config.{AppConfig}
use rw_manager_backend.Store.State.{MongoCollections, Store, servers_of}
use rw_manager_backend.Store.Patch.{assign_server}
use rw_manager_backend.Store.Servers.{has_id}
use rw_manager_backend.Store.Servers.Views.{servers-update_server}
use rw_manager_backend.Storage.Access.{Web, Context, normalize_backend_url}
use rw_manager_backend.Storage.Edit.{UpdateServerRequest, patch_server}
use rw_manager_backend.Storage.Edit.Laws.{PatchStep, unchanged, changed, patch_server_cases}

unset :
    (b old : Option String) (current : Option String)
    → normalize_backend_url b ≡ none
    → or_else
        (if is_some b then if is_some b then normalize_backend_url b else current else none)
        old
      ≡ old
unset none old current e = refl
unset (some url) old current e = rw e

module _ (m : MongoCollections) (config : AppConfig) (web : Web) where
  backends : List ServerConfig → List (Option String)
  backends = map (λ (s : ServerConfig). s.backend_url)

  backends-update :
      (p : ServerConfig → Bool) (f : ServerConfig → ServerConfig) (ss : List ServerConfig)
      → ((s : ServerConfig) → (f s).backend_url ≡ s.backend_url)
      → backends (update_first p f ss) ≡ backends ss
  unfolding update_first backends
  backends-update p f [] same = refl
  backends-update p f (s ∷ ss) same = ground (arith, same s, backends-update p f ss same)

  -- A patch whose backend URL is blank, which asks to clear it, leaves every stored backend URL as it
  -- was, whatever the service answers.
  pub patch_server_keeps_backend :
      (server_id url : String) (patch : UpdateServerRequest) (context : Context) (st : Store m)
      → patch.backend_url ≡ some url
      → trim url ≡ ""
      → map
          (λ (s : ServerConfig). s.backend_url)
          (servers_of m (patch_server m config web server_id patch context st).1)
        ≡ map (λ (s : ServerConfig). s.backend_url) (servers_of m st)
  unfolding assign_server backends normalize_backend_url
  patch_server_keeps_backend server_id url patch context st blank empty =
      go (patch_server_cases m config web server_id patch context st)
    where
      cleared : normalize_backend_url patch.backend_url ≡ none
      cleared =
          ap normalize_backend_url blank
          ∙ subst (λ t. (if str_eq t "" then none else some t) ≡ none) (sym empty) refl

      go :
          {st' : Store m}
          → PatchStep m config web server_id patch context st st'
          → backends (servers_of m st') ≡ backends (servers_of m st)
      go (unchanged e) = rw e
      go (changed current found writer free e) =
          rw (e, servers-update_server)
            (backends-update (has_id current.id) _ (servers_of m st)
              (λ s. unset patch.backend_url s.backend_url _ cleared))
