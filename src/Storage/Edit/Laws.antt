-- ===== src/Storage/Edit/Laws.antt =====
-- What creating, patching and deleting a server change, and who may do it.
use mathlib.Core.Path.{subst}
use rw_manager_backend.Base.{
  ℕ, String, Bool, true, false, not, ◌||◌, Option, none, some, List, any, find?, str_eq, is_some,
  get_or, arith, Bool-cases, Option-cases, inl, inr, ◌≡◌, refl, sym, ◌∙◌, Run, guard_state,
  Result-cases, truthy,
}
use rw_manager_backend.Data.Server.{ServerConfig}
use rw_manager_backend.Config.{AppConfig}
use rw_manager_backend.Store.State.{MongoCollections, Store, servers_of}
use rw_manager_backend.Store.Patch.{assign_server}
use rw_manager_backend.Store.Servers.{
  has_id, list_servers, find_server_by_id, add_server, update_server,
}
use rw_manager_backend.Store.Servers.Views.{
  HasUniqueIds, list_servers-view, find_server_by_id-view, servers-update_server,
  servers-add_server, id_of_found,
}
use rw_manager_backend.Storage.Access.{
  Web, Context, check_backend_for_write, check_admin, check_match, allows, is_writer,
  normalize_backend_url, NameMatch, same_name, other_name, failed, assert_server_write_access,
}
use rw_manager_backend.Storage.Edit.{
  CreateServerRequest, UpdateServerRequest, is_duplicate, is_other_duplicate, create_server,
  patch_server, patch_of, next_query_url, check_patch, name_to_check,
}
use rw_manager_backend.Storage.Edit.Urls.{
  HasDistinctUrls, HasDistinctUrls-append, HasDistinctUrls-update,
}

false_of_not : (b : Bool) → not b ≡ true → b ≡ false
false_of_not b h = ground arith

module _ {S : Type 0} (config : AppConfig) (web : Web) where
  check_match-state : (r : NameMatch) (s : S) → (check_match r s).1 ≡ s
  check_match-state same_name s = refl
  check_match-state other_name s = refl
  check_match-state failed s = refl

  check_admin-state :
      (steam name : Option String) (admins : Option (List String)) (url : String) (s : S)
      → (check_admin web steam name admins url s).1 ≡ s
  unfolding check_admin
  check_admin-state steam name none url s = refl
  check_admin-state steam name (some admins) url s =
      guard_state (λ t. t ≡ s) (allows admins steam) _ s _
        (λ _. guard_state (λ t. t ≡ s) (truthy name) _ s _ (λ _. check_match-state _ s) refl) refl

  -- The checks of a backend change nothing.
  pub check_backend-state :
      (url steam name : Option String) (s : S)
      → (check_backend_for_write config web url steam name s).1 ≡ s
  unfolding check_backend_for_write
  check_backend-state none steam name s = refl
  check_backend-state (some url) steam name s =
      elim (Bool-cases (not config.enable_auth || str_eq url "")) [
        | inl e ↦ rw e
        | inr e ↦ rw e (check_admin-state steam name _ url s)
      ]

module _ (m : MongoCollections) (config : AppConfig) (web : Web) where
  -- Creating a server changes nothing, or adds the one server where it duplicates none.
  pub data CreateStep (id : String) (now : ℕ) (input : CreateServerRequest) (context : Context)
      (st : Store m) : Store m → Type 0 where
    unchanged : {st' : Store m} → st' ≡ st → CreateStep id now input context st st'
    created :
        {st' : Store m}
        → any (is_duplicate config context.user_id input.query_url) (servers_of m st) ≡ false
        → st'
          ≡ (add_server m id input.label input.query_url
              (normalize_backend_url input.backend_url)
              context.user_id
              (get_or input.is_public false)
              now
              st).1
        → CreateStep id now input context st st'

  unduplicated :
      (p : ServerConfig → Bool) (st : Store m)
      → not (any p (list_servers m st)) ≡ true
      → any p (servers_of m st) ≡ false
  unduplicated p st h =
      subst (λ ss. any p ss ≡ false) (list_servers-view m st)
        (false_of_not (any p (list_servers m st)) h)

  pub create_server_cases :
      (id : String) (now : ℕ) (input : CreateServerRequest) (context : Context) (st : Store m)
      → CreateStep id now input context st (create_server m config web id now input context st).1
  unfolding create_server
  create_server_cases id now input context st =
      elim (Bool-cases (not (str_eq input.label "" || str_eq input.query_url ""))) [
        | inr bad ↦ unchanged (ground (arith, bad))
        | inl given ↦
            elim (Bool-cases (
              not
                (any (is_duplicate config context.user_id input.query_url) (list_servers m st)))) [
                  | inr taken ↦ unchanged (ground (arith, given, taken))
                  | inl free ↦ elim (Result-cases (check st).0) [
                    | inr (e, failed_check) ↦
                        unchanged (ground (arith, given, free, failed_check, kept))
                    | inl (a, passed) ↦
                        created (unduplicated _ st free) (ground (arith, given, free, passed, kept))
                  ]
                ]
      ]
    where
      check : Run (Store m) (Unit {0})
      check =
          check_backend_for_write config web (normalize_backend_url input.backend_url)
            context.user_steam_id
            (name_to_check config web (normalize_backend_url input.backend_url) input.query_url)

      kept : (check st).1 ≡ st
      kept = check_backend-state config web _ _ _ st

  -- Patching changes nothing, or makes the patch to a server that the caller may write and whose
  -- query URL after the patch no other server of its owner has.
  pub data PatchStep (server_id : String) (patch : UpdateServerRequest) (context : Context)
      (st : Store m) : Store m → Type 0 where
    unchanged : {st' : Store m} → st' ≡ st → PatchStep server_id patch context st st'
    changed :
        {st' : Store m} (current : ServerConfig)
        → find? (has_id server_id) (servers_of m st) ≡ some current
        → is_writer config web current context ≡ true
        → any
            (is_other_duplicate config current.id current.user_id
              (next_query_url m config web patch current))
            (servers_of m st)
          ≡ false
        → st' ≡ (update_server m current.id (patch_of m config web patch current) st).1
        → PatchStep server_id patch context st st'

  check_patch-state :
      (patch : UpdateServerRequest) (current : ServerConfig) (context : Context) (st : Store m)
      → (check_patch m config web patch current context st).1 ≡ st
  check_patch-state patch current context st =
      elim (Bool-cases (is_some patch.backend_url || is_some patch.query_url)) [
        | inl e ↦ rw e (check_backend-state config web _ _ _ st)
        | inr e ↦ rw e
      ]

  pub patch_server_cases :
      (server_id : String) (patch : UpdateServerRequest) (context : Context) (st : Store m)
      → PatchStep server_id patch context st
          (patch_server m config web server_id patch context st).1
  unfolding patch_server assert_server_write_access
  patch_server_cases server_id patch context st =
      elim (Option-cases (find_server_by_id m server_id st)) [
        | inl missing ↦ unchanged (ground (arith, missing))
        | inr (current, found) ↦ elim (Bool-cases (is_writer config web current context)) [
          | inr denied ↦ unchanged (ground (arith, found, denied))
          | inl writer ↦
              elim (Bool-cases (
                not (
                  any
                    (is_other_duplicate config current.id current.user_id
                      (next_query_url m config web patch current))
                    (list_servers m st)))) [
                      | inr taken ↦ unchanged (ground (arith, found, writer, taken))
                      | inl free ↦
                          let kept = check_patch-state patch current context st in
                          elim (Result-cases
                            (check_patch m config web patch current context st).0) [
                              | inr (e, failed_check) ↦
                                  unchanged
                                    (ground (arith, found, writer, free, failed_check, kept))
                              | inl (a, passed) ↦
                                  changed current
                                    (sym (find_server_by_id-view m server_id st) ∙ found) writer
                                    (unduplicated _ st free)
                                    (ground (arith, found, writer, free, passed, kept))
                            ]
                    ]
        ]
      ]

  -- Where no owner has two servers of one query URL and the new id is fresh, creating a server
  -- leaves it so, whatever the answer. Without accounts all servers count as one owner's.
  pub create_server-HasDistinctUrls :
      (id : String) (now : ℕ) (input : CreateServerRequest) (context : Context) (st : Store m)
      → find? (has_id id) (servers_of m st) ≡ none
      → HasDistinctUrls config (servers_of m st)
      → HasDistinctUrls config (servers_of m (create_server m config web id now input context st).1)
  create_server-HasDistinctUrls id now input context st fresh h =
      go (create_server_cases id now input context st)
    where
      go :
          {st' : Store m}
          → CreateStep id now input context st st'
          → HasDistinctUrls config (servers_of m st')
      go (unchanged e) = rw e h
      go (created free e) =
          rw (e, servers-add_server m _ _ _ _ _ _ _ st fresh)
            (HasDistinctUrls-append config (servers_of m st) _ h free)

  -- Where no owner has two servers of one query URL and ids are unique, patching a server leaves it
  -- so, whatever the answer.
  pub patch_server-HasDistinctUrls :
      (server_id : String) (patch : UpdateServerRequest) (context : Context) (st : Store m)
      → HasUniqueIds (servers_of m st)
      → HasDistinctUrls config (servers_of m st)
      → HasDistinctUrls config
          (servers_of m (patch_server m config web server_id patch context st).1)
  unfolding assign_server
  patch_server-HasDistinctUrls server_id patch context st unique h =
      go (patch_server_cases server_id patch context st)
    where
      go :
          {st' : Store m}
          → PatchStep server_id patch context st st'
          → HasDistinctUrls config (servers_of m st')
      go (unchanged e) = rw e h
      go (changed current found writer free e) =
          rw (e, servers-update_server)
            (HasDistinctUrls-update config current.id _ (servers_of m st) current unique
              (subst (λ k. find? (has_id k) (servers_of m st) ≡ some current)
                (sym (id_of_found server_id (servers_of m st) found)) found)
              refl free h)
