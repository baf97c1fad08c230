-- ===== src/Store/Users.antt =====
-- Users: lookup, insertion, update, pins and removal with the servers that a user owns.
pub mod Views
use rw_manager_backend.Base.{
  ℕ, String, Bool, true, false, not, Option, none, some, List, [], ◌∷◌, map, find?, filter,
  update_first, upsert, remove_first, opt_eq, truthy, get_or, str_eq, if◌then◌else◌, includes,
  unique,
}
use mathlib.Core.Option
use rw_manager_backend.Data.Server.{ServerConfig}
use rw_manager_backend.Data.User.{DbUser, PublicUser, PrivateUser, UserRole, UserState}
use rw_manager_backend.Store.State.{MongoCollections, Store, memory, mongo}
use rw_manager_backend.Store.Patch.{UserPatch, no_user_patch, assign_user}

-- user.id === id, user.username === username, user.steamId === steamId
abbrev pub is_user : String → DbUser → Bool
is_user id u = str_eq u.id id

abbrev pub has_username : String → DbUser → Bool
has_username name u = str_eq u.username name

abbrev pub has_steam_id : String → DbUser → Bool
has_steam_id steam u = opt_eq u.steam_id (some steam)

-- server.userId === userId
abbrev pub is_owned_by : String → ServerConfig → Bool
is_owned_by id s = opt_eq s.user_id (some id)

abbrev pub default_channels : List String
default_channels = "global" ∷ "web" ∷ []

-- The scrypt hash in hexadecimal digits: node:crypto. Two digests are compared as their digits.
unfoldable pub verify_user_password : (String → String → String) → DbUser → String → Bool
verify_user_password hash_password user password =
    str_eq user.password_hash (hash_password password user.salt)

unfoldable pub to_public_user : DbUser → PublicUser
to_public_user u = record {
  id = u.id;
  username = u.username;
  state = u.state;
  role = u.role;
  steam_id = u.steam_id;
  pinned_servers = get_or u.pinned_servers [];
  intercom_channels = some (get_or u.intercom_channels default_channels);
  created_at = u.created_at;
  last_seen_at = u.last_seen_at;
}

unfoldable pub to_private_user : DbUser → PrivateUser
unfolding to_public_user
to_private_user u = record { profile = to_public_user u; email = u.email }

-- What `createUser` makes of fresh values: the id, the salt and the clock.
unfoldable pub new_user :
    (String → String → String)
    → (id salt : String) (now : ℕ) (username email password : String) (steam_id : Option String)
    → UserRole
    → UserState
    → DbUser
new_user hash_password id salt now username email password steam_id role state = record {
  id = id;
  username = username;
  email = email;
  state = state;
  role = role;
  steam_id = steam_id;
  pinned_servers = some [];
  intercom_channels = some default_channels;
  password_hash = hash_password password salt;
  salt = salt;
  api_token_hash = none;
  api_token_salt = none;
  api_token_created_at = none;
  created_at = now;
  last_seen_at = none;
}

-- The steam id that is stored for a text: the empty one removes it.
abbrev pub stored_steam_id : String → Option String
stored_steam_id s = if str_eq s "" then none else some s

-- { $pull: { pinnedServers: serverId } }
abbrev pub pull_pin : String → DbUser → DbUser
pull_pin server_id u = record u {
  pinned_servers = Option.map (filter (λ p. not (str_eq p server_id))) u.pinned_servers;
}

-- In memory a user without a list of pins gets an empty one.
abbrev pub filter_pins : String → DbUser → DbUser
filter_pins server_id u = record u {
  pinned_servers = some (filter (λ p. not (str_eq p server_id)) (get_or u.pinned_servers []));
}

module _ (m : MongoCollections) where
  unfoldable pub find_user_by_username : String → Store m → Option DbUser
  find_user_by_username name (memory ss us) = find? (has_username name) us
  find_user_by_username name (mongo s u) = m.users.find_one (has_username name) u

  unfoldable pub find_user_by_id : String → Store m → Option DbUser
  find_user_by_id id (memory ss us) = find? (is_user id) us
  find_user_by_id id (mongo s u) = m.users.find_one (is_user id) u

  unfoldable pub find_user_by_steam_id : String → Store m → Option DbUser
  find_user_by_steam_id steam (memory ss us) = find? (has_steam_id steam) us
  find_user_by_steam_id steam (mongo s u) = m.users.find_one (has_steam_id steam) u

  unfoldable pub list_users : Store m → List DbUser
  list_users (memory ss us) = us
  list_users (mongo s u) = m.users.find u

  unfoldable pub save_user : DbUser → Store m → DbUser × Store m
  save_user user (memory ss us) = (user, memory ss (upsert (is_user user.id) (λ old. user) user us))
  save_user user (mongo s u) =
      (user, mongo s (m.users.upsert_one (is_user user.id) (λ old. user) user u))

  unfoldable pub create_user : DbUser → Store m → PrivateUser × Store m
  create_user user st = let (saved, st') = save_user user st in (to_private_user user, st')

  unfoldable pub update_user : String → UserPatch → Store m → Option DbUser × Store m
  update_user id patch st = elim (find_user_by_id id st) [
    | none ↦ (none, st)
    | some user ↦ let (saved, st') = save_user (assign_user patch user) st in (some saved, st')
  ]

  unfoldable pub set_user_steam_id : String → String → Store m → Option PrivateUser × Store m
  set_user_steam_id id steam st = elim (find_user_by_id id st) [
    | none ↦ (none, st)
    | some user ↦
        let next : DbUser = record user { steam_id = stored_steam_id steam } in
        let (saved, st') = save_user next st in (some (to_private_user next), st')
  ]

  unfoldable pub remove_pinned_server : String → String → Store m → Option DbUser × Store m
  remove_pinned_server id server_id (memory ss us) = elim (find? (is_user id) us) [
    | none ↦ (none, memory ss us)
    | some user ↦
        let (saved, st') = save_user (filter_pins server_id user) (memory ss us) in
        (some (filter_pins server_id user), st')
  ]
  remove_pinned_server id server_id (mongo s u) =
      let (u', matched, modified) = m.users.update_one (is_user id) (pull_pin server_id) u in
      (m.users.find_one (is_user id) u', mongo s u')

  unfoldable pub delete_user_and_owned_servers : String → Store m → Bool × Store m
  delete_user_and_owned_servers id (memory ss us) = elim (find? (is_user id) us) [
    | none ↦ (false, memory ss us)
    | some user ↦ (
      true,
      memory (filter (λ s. not (is_owned_by id s)) ss) (filter (λ u. not (is_user id u)) us),
    )
  ]
  delete_user_and_owned_servers id (mongo s u) = elim (m.users.find_one (is_user id) u) [
    | none ↦ (false, mongo s u)
    | some user ↦
        (true, mongo (m.servers.delete_many (is_owned_by id) s) (m.users.delete_one (is_user id) u))
  ]

  -- The pins of one user with `previous` renamed to `next`, each once.
  abbrev renamed_pins : String → String → List String → List String
  renamed_pins previous next pins = unique (map (λ p. if str_eq p previous then next else p) pins)

  unfoldable pub rename_user_pins : String → String → DbUser → Store m → Store m
  rename_user_pins previous next user st = elim user.pinned_servers [
    | none ↦ st
    | some pins ↦
        (update_user user.id
          (record no_user_patch { pinned_servers = some (renamed_pins previous next pins) }) st).1
  ]

  unfoldable pub rename_pins : String → String → List DbUser → Store m → Store m
  rename_pins previous next [] st = st
  rename_pins previous next (user ∷ users) st =
      rename_pins previous next users (rename_user_pins previous next user st)

  unfoldable pub replace_pinned_server_id : String → String → Store m → Store m
  replace_pinned_server_id previous next st =
      if str_eq previous next then st else rename_pins previous next (list_users st) st
