-- ===== src/Store/Servers/Views.antt =====
-- What each operation does to the servers that a backend holds, the same for both backends.
use rw_manager_backend.Base.{
  ℕ, String, Bool, not, Option, none, some, List, [], ◌∷◌, ◌++◌, ◌≡◌, refl, sym, ap, ◌∙◌, find?,
  find?-passes, filter, update_first, upsert, upsert_hit, upsert_miss, update_first_congr,
  remove_first, eq_iff, arith, Option-cases, inl, inr, update_first_miss,
}
use rw_manager_backend.Data.Server.{ServerConfig}
use rw_manager_backend.Store.State.{MongoCollections, Store, memory, mongo, servers_of, users_of}
use rw_manager_backend.Store.Patch.{ServerPatch, assign_server}
use rw_manager_backend.Store.Servers.{
  has_id, merge_fields, list_servers, find_server_by_id, update_server, remove_server, add_server,
  new_server,
}

-- The first server with the identity, after its patch.
abbrev pub patched : ServerPatch → Option ServerConfig → Option ServerConfig
patched p none = none
patched p (some s) = some (assign_server p s)

pub id_of_found :
    (id : String) (ss : List ServerConfig) {s : ServerConfig}
    → find? (has_id id) ss ≡ some s
    → s.id ≡ id
id_of_found id ss {s} h = (eq_iff s.id id).0 (find?-passes (has_id id) ss h)

-- Saving a patched server is an update in place.
save_patched :
    (id : String) (p : ServerPatch) (ss : List ServerConfig) (s new : ServerConfig)
    → find? (has_id id) ss ≡ some s
    → upsert (has_id s.id) (merge_fields (assign_server p s)) new ss
      ≡ update_first (has_id id) (assign_server p) ss
unfolding assign_server
save_patched id p ss s new h =
    ap (λ k. upsert (has_id k) (merge_fields (assign_server p s)) new ss) (id_of_found id ss h)
    ∙ upsert_hit (has_id id) _ new s ss h
    ∙ update_first_congr (has_id id) (merge_fields (assign_server p s)) (assign_server p) ss s h
        refl

-- No two servers have the same id, as the unique index of src/db/mongodb.ts demands.
abbrev pub HasUniqueIds : List ServerConfig → Type 0
HasUniqueIds [] = Unit
HasUniqueIds (s ∷ ss) = (find? (has_id s.id) ss ≡ none) × HasUniqueIds ss

filter-absent :
    (id : String) (ss : List ServerConfig)
    → find? (has_id id) ss ≡ none
    → filter (λ s. not (has_id id s)) ss ≡ ss
unfolding find? filter
filter-absent id [] h = refl
filter-absent id (s ∷ ss) h = ground (arith, filter-absent id ss)

remove_first-filter :
    (id : String) (ss : List ServerConfig)
    → HasUniqueIds ss
    → remove_first (has_id id) ss ≡ filter (λ s. not (has_id id s)) ss
unfolding filter remove_first
remove_first-filter id [] h = refl
remove_first-filter id (s ∷ ss) (h, hs) =
    ground (arith, eq_iff s.id id, filter-absent id ss, remove_first-filter id ss hs)

module _ (m : MongoCollections) where
  pub list_servers-view : (st : Store m) → list_servers m st ≡ servers_of m st
  unfolding list_servers
  list_servers-view (memory ss us) = refl
  list_servers-view (mongo s u) = m.servers.find_lem s

  pub find_server_by_id-view :
      (id : String) (st : Store m) → find_server_by_id m id st ≡ find? (has_id id) (servers_of m st)
  unfolding find_server_by_id
  find_server_by_id-view id (memory ss us) = refl
  find_server_by_id-view id (mongo s u) = m.servers.find_one_lem (has_id id) s

  -- On both backends a patch is made in place, and the stored credential is left alone.
  pub servers-update_server :
      (id : String) (p : ServerPatch) (st : Store m)
      → servers_of m (update_server m id p st).1
        ≡ update_first (has_id id) (assign_server p) (servers_of m st)
  unfolding update_server
  servers-update_server id p (memory ss us) = elim (Option-cases (find? (has_id id) ss)) [
    | inl e ↦ rw (e, update_server) (sym (update_first_miss _ _ ss e))
    | inr (s, e) ↦ rw (e, update_server) (save_patched id p ss s (assign_server p s) e)
  ]
  servers-update_server id p (mongo s u) =
      elim (Option-cases (find? (has_id id) (m.servers.docs s))) [
        | inl e ↦
            rw (m.servers.find_one_lem, e, update_server)
              (sym (update_first_miss _ _ (m.servers.docs s) e))
        | inr (d, e) ↦
            rw (m.servers.find_one_lem, e, update_server)
              (m.servers.upsert_one-docs _ _ _ s ∙ save_patched id p (m.servers.docs s) d _ e)
      ]

  -- The result is the patched server, or `null` where there is none.
  pub update_server-result :
      (id : String) (p : ServerPatch) (st : Store m)
      → (update_server m id p st).0 ≡ patched p (find? (has_id id) (servers_of m st))
  unfolding update_server
  update_server-result id p (memory ss us) = ground arith
  update_server-result id p (mongo s u) = ground (arith, m.servers.find_one_lem (has_id id) s)

  pub users-update_server :
      (id : String) (p : ServerPatch) (st : Store m)
      → users_of m (update_server m id p st).1 ≡ users_of m st
  unfolding update_server
  users-update_server id p (memory ss us) = ground arith
  users-update_server id p (mongo s u) = ground arith

  -- A server that is new is added at the end, with no credential.
  pub servers-add_server :
      (id label query_url : String) (backend_url user_id : Option String) (is_public : Bool)
      (now : ℕ) (st : Store m)
      → find? (has_id id) (servers_of m st) ≡ none
      → servers_of m (add_server m id label query_url backend_url user_id is_public now st).1
        ≡ servers_of m st ++ new_server id label query_url backend_url user_id is_public now ∷ []
  unfolding add_server
  servers-add_server id l q b u p now (memory ss us) h = upsert_miss _ _ _ ss h
  servers-add_server id l q b u p now (mongo s us) h =
      m.servers.upsert_one-docs _ _ _ s ∙ upsert_miss _ _ _ (m.servers.docs s) h

  -- With unique ids the server is removed, and no other.
  pub servers-remove_server :
      (id : String) (st : Store m)
      → HasUniqueIds (servers_of m st)
      → servers_of m (remove_server m id st) ≡ filter (λ s. not (has_id id s)) (servers_of m st)
  unfolding remove_server
  servers-remove_server id (memory ss us) h = refl
  servers-remove_server id (mongo s us) h =
      m.servers.delete_one-docs _ s ∙ remove_first-filter id (m.servers.docs s) h

  pub users-remove_server :
      (id : String) (st : Store m) → users_of m (remove_server m id st) ≡ users_of m st
  unfolding remove_server
  users-remove_server id (memory ss us) = refl
  users-remove_server id (mongo s us) = refl
