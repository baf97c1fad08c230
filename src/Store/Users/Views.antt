-- ===== src/Store/Users/Views.antt =====
-- What each operation does to the users that a backend holds, the same for both backends.
use rw_manager_backend.Base.{
  String, not, Option, none, some, List, [], ◌∷◌, ◌++◌, ◌≡◌, refl, sym, ap, ◌∙◌, find?,
  find?-passes, filter, update_first, upsert, upsert_hit, upsert_miss, update_first_congr,
  update_first_miss, remove_first, eq_iff, arith, if◌then◌else◌, Option-cases, inl, inr, is_some,
  get_or, map,
}
use rw_manager_backend.Data.User.{DbUser}
use rw_manager_backend.Store.State.{MongoCollections, Store, memory, mongo, servers_of, users_of}
use rw_manager_backend.Store.Patch.{UserPatch, assign_user}
use rw_manager_backend.Store.Users.{
  is_user, has_username, has_steam_id, is_owned_by, stored_steam_id, pull_pin, filter_pins,
  find_user_by_username, find_user_by_id, find_user_by_steam_id, list_users, save_user, create_user,
  update_user, set_user_steam_id, remove_pinned_server, delete_user_and_owned_servers,
}

abbrev pub patched_user : UserPatch → Option DbUser → Option DbUser
patched_user p none = none
patched_user p (some u) = some (assign_user p u)

abbrev pub set_steam : String → DbUser → DbUser
set_steam steam u = record u { steam_id = stored_steam_id steam }

-- No two users have the same id, as the unique index of src/db/mongodb.ts demands.
abbrev pub HasUniqueUsers : List DbUser → Type 0
HasUniqueUsers [] = Unit
HasUniqueUsers (u ∷ us) = (find? (is_user u.id) us ≡ none) × HasUniqueUsers us

pub id_of_user :
    (id : String) (us : List DbUser) {u : DbUser} → find? (is_user id) us ≡ some u → u.id ≡ id
id_of_user id us {u} h = (eq_iff u.id id).0 (find?-passes (is_user id) us h)

-- Saving a found user after a change `f` that keeps the id is an update in place.
save_changed :
    (id : String) (f : DbUser → DbUser) (us : List DbUser) (u : DbUser)
    → find? (is_user id) us ≡ some u
    → upsert (is_user u.id) (λ old. f u) (f u) us ≡ update_first (is_user id) f us
save_changed id f us u h =
    ap (λ k. upsert (is_user k) (λ old. f u) (f u) us) (id_of_user id us h)
    ∙ upsert_hit (is_user id) _ (f u) u us h
    ∙ update_first_congr (is_user id) (λ old. f u) f us u h refl

absent_user :
    (id : String) (us : List DbUser)
    → find? (is_user id) us ≡ none
    → filter (λ u. not (is_user id u)) us ≡ us
unfolding find? filter
absent_user id [] h = refl
absent_user id (u ∷ us) h = ground (arith, absent_user id us)

remove_first-filter :
    (id : String) (us : List DbUser)
    → HasUniqueUsers us
    → remove_first (is_user id) us ≡ filter (λ u. not (is_user id u)) us
unfolding filter remove_first
remove_first-filter id [] h = refl
remove_first-filter id (u ∷ us) (h, hs) =
    ground (arith, eq_iff u.id id, absent_user id us, remove_first-filter id us hs)

-- A user whose list of pins is there.
abbrev pub normal : DbUser → DbUser
normal u = record u { pinned_servers = some (get_or u.pinned_servers []) }

normal_pull_one :
    (server_id : String) (u : DbUser)
    → normal (pull_pin server_id u) ≡ normal (filter_pins server_id u)
unfolding filter
normal_pull_one server_id u = ground arith

normal_pull :
    (id server_id : String) (us : List DbUser)
    → map normal (update_first (is_user id) (pull_pin server_id) us)
      ≡ map normal (update_first (is_user id) (filter_pins server_id) us)
unfolding update_first
normal_pull id server_id [] = refl
normal_pull id server_id (u ∷ us) =
    ground (arith, normal_pull_one server_id u, normal_pull id server_id us)

module _ (m : MongoCollections) where
  pub list_users-view : (st : Store m) → list_users m st ≡ users_of m st
  unfolding list_users
  list_users-view (memory ss us) = refl
  list_users-view (mongo s u) = m.users.find_lem u

  pub find_user_by_id-view :
      (id : String) (st : Store m) → find_user_by_id m id st ≡ find? (is_user id) (users_of m st)
  unfolding find_user_by_id
  find_user_by_id-view id (memory ss us) = refl
  find_user_by_id-view id (mongo s u) = m.users.find_one_lem (is_user id) u

  pub find_user_by_username-view :
      (name : String) (st : Store m)
      → find_user_by_username m name st ≡ find? (has_username name) (users_of m st)
  unfolding find_user_by_username
  find_user_by_username-view name (memory ss us) = refl
  find_user_by_username-view name (mongo s u) = m.users.find_one_lem (has_username name) u

  pub find_user_by_steam_id-view :
      (steam : String) (st : Store m)
      → find_user_by_steam_id m steam st ≡ find? (has_steam_id steam) (users_of m st)
  unfolding find_user_by_steam_id
  find_user_by_steam_id-view steam (memory ss us) = refl
  find_user_by_steam_id-view steam (mongo s u) = m.users.find_one_lem (has_steam_id steam) u

  pub users-save_user :
      (user : DbUser) (st : Store m)
      → users_of m (save_user m user st).1
        ≡ upsert (is_user user.id) (λ old. user) user (users_of m st)
  unfolding save_user
  users-save_user user (memory ss us) = refl
  users-save_user user (mongo s u) = m.users.upsert_one-docs _ _ _ u

  pub servers-save_user :
      (user : DbUser) (st : Store m) → servers_of m (save_user m user st).1 ≡ servers_of m st
  unfolding save_user
  servers-save_user user (memory ss us) = refl
  servers-save_user user (mongo s u) = refl

  -- A patch of a user is made in place, on both backends.
  pub users-update_user :
      (id : String) (p : UserPatch) (st : Store m)
      → users_of m (update_user m id p st).1
        ≡ update_first (is_user id) (assign_user p) (users_of m st)
  unfolding update_user
  users-update_user id p st = elim (Option-cases (find? (is_user id) (users_of m st))) [
    | inl e ↦
        rw (find_user_by_id-view id st, e, update_user)
          (sym (update_first_miss _ _ (users_of m st) e))
    | inr (u, e) ↦
        rw (find_user_by_id-view id st, e, update_user)
          (users-save_user _ st
            ∙ unfold assign_user in save_changed id (assign_user p) (users_of m st) u e)
  ]

  pub servers-update_user :
      (id : String) (p : UserPatch) (st : Store m)
      → servers_of m (update_user m id p st).1 ≡ servers_of m st
  unfolding update_user
  servers-update_user id p st = elim (Option-cases (find_user_by_id m id st)) [
    | inl e ↦ rw (e, update_user)
    | inr (u, e) ↦ rw (e, update_user) (servers-save_user _ st)
  ]

  -- The result is the patched user, or `null` where there is none.
  pub update_user-result :
      (id : String) (p : UserPatch) (st : Store m)
      → (update_user m id p st).0 ≡ patched_user p (find? (is_user id) (users_of m st))
  unfolding update_user save_user
  update_user-result id p (memory ss us) = ground (arith, find_user_by_id-view id (memory ss us))
  update_user-result id p (mongo s u) = ground (arith, find_user_by_id-view id (mongo s u))

  pub users-set_user_steam_id :
      (id steam : String) (st : Store m)
      → users_of m (set_user_steam_id m id steam st).1
        ≡ update_first (is_user id) (set_steam steam) (users_of m st)
  unfolding set_user_steam_id
  users-set_user_steam_id id steam st = elim (Option-cases (find? (is_user id) (users_of m st))) [
    | inl e ↦
        rw (find_user_by_id-view id st, e, set_user_steam_id)
          (sym (update_first_miss _ _ (users_of m st) e))
    | inr (u, e) ↦
        rw (find_user_by_id-view id st, e, set_user_steam_id)
          (users-save_user _ st ∙ save_changed id (set_steam steam) (users_of m st) u e)
  ]

  -- A user that is new is added at the end.
  pub users-create_user :
      (user : DbUser) (st : Store m)
      → find? (is_user user.id) (users_of m st) ≡ none
      → users_of m (create_user m user st).1 ≡ users_of m st ++ user ∷ []
  unfolding create_user
  users-create_user user st h = users-save_user user st ∙ upsert_miss _ _ user (users_of m st) h

  -- Deleting a user removes that user and the servers that it owns, and no others. Both backends,
  -- with unique user ids.
  pub delete_user-view :
      (id : String) (st : Store m)
      → HasUniqueUsers (users_of m st)
      → let (done, st') = delete_user_and_owned_servers m id st in
        (done ≡ is_some (find? (is_user id) (users_of m st)))
        × (users_of m st' ≡ filter (λ u. not (is_user id u)) (users_of m st))
        × (servers_of m st' ≡ (
            if done
            then filter (λ s. not (is_owned_by id s)) (servers_of m st)
            else servers_of m st))
  unfolding delete_user_and_owned_servers
  delete_user-view id (memory ss us) h = elim (Option-cases (find? (is_user id) us)) [
    | inl e ↦ rw (e, delete_user_and_owned_servers) (refl, sym (absent_user id us e), refl)
    | inr (u, e) ↦ rw (e, delete_user_and_owned_servers) (refl, refl, refl)
  ]
  delete_user-view id (mongo s us) h = elim (Option-cases (find? (is_user id) (m.users.docs us))) [
    | inl e ↦
        rw (m.users.find_one_lem (is_user id) us, e, delete_user_and_owned_servers)
          (refl, sym (absent_user id (m.users.docs us) e), refl)
    | inr (u, e) ↦
        rw (m.users.find_one_lem (is_user id) us, e, delete_user_and_owned_servers)
          (
            refl,
            m.users.delete_one-docs _ us ∙ remove_first-filter id (m.users.docs us) h,
            m.servers.delete_many-docs _ s,
          )
  ]

  -- Removing a pin filters it out of the user's pins, on both backends; a missing list counts as
  -- empty.
  pub users-remove_pinned_server :
      (id server_id : String) (st : Store m)
      → map normal (users_of m (remove_pinned_server m id server_id st).1)
        ≡ map normal (update_first (is_user id) (filter_pins server_id) (users_of m st))
  unfolding remove_pinned_server
  users-remove_pinned_server id server_id (memory ss us) =
      elim (Option-cases (find? (is_user id) us)) [
        | inl e ↦ rw (e, remove_pinned_server) (ap (map normal) (sym (update_first_miss _ _ us e)))
        | inr (u, e) ↦
            rw (e, remove_pinned_server)
              (ap (map normal)
                (users-save_user _ (memory ss us) ∙ save_changed id (filter_pins server_id) us u e))
      ]
  users-remove_pinned_server id server_id (mongo s us) =
      ap (map normal) (m.users.update_one-docs _ _ us) ∙ normal_pull id server_id (m.users.docs us)
