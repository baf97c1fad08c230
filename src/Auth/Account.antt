-- ===== src/Auth/Account.antt =====
-- src/service/auth-service.ts: sign-up, sign-in, Steam accounts, presence, renaming and API tokens.
pub mod Names
pub mod Sessions
use Prim.Native.String
use rw_manager_backend.Base.{
  ℕ, String, Bool, true, false, not, ◌&&◌, ◌||◌, Option, none, some, List, [], ◌∷◌, str_eq, get_or,
  is_some, trim, truthy, if◌then◌else◌, Run, throw, return, read, call, guard, or_throw, ◌>>=◌,
  ◌>>◌, after, Result, ok, err, user_not_found, email_password_required, email_invalid,
  username_exists, steam_id_invalid, steam_id_exists, invalid_username_or_password, name_required,
  Code,
}
use rw_manager_backend.Data.User.{DbUser, PrivateUser, UserRole, UserState, admin, user}
use rw_manager_backend.Config.{AppConfig}
use rw_manager_backend.Store.State.{MongoCollections, Store}
use rw_manager_backend.Store.Patch.{UserPatch, no_user_patch}
use rw_manager_backend.Store.Users.{
  find_user_by_id, find_user_by_username, find_user_by_steam_id, update_user, create_user,
  set_user_steam_id, delete_user_and_owned_servers, to_private_user, new_user, verify_user_password,
}
use rw_manager_backend.Storage.Mapper.{map_private_user_to_dto}
use rw_manager_backend.Auth.Email.{is_email, normalize_steam_id}
use rw_manager_backend.Auth.Token.{Encoding, create_auth_token}

-- What node:crypto and the language provide.
pub record AuthHost : Type 0 where
  pub hash_password : String → String → String
  pub to_lower_case : String → String
  pub encoding : Encoding

-- Fresh values of one call: randomUUID, randomBytes and Date.now().
pub record Fresh : Type 0 where
  pub id : String
  pub salt : String
  pub random : String
  pub now : ℕ

pub record RegisterLocalUserRequest : Type 0 where
  pub username : Option String
  pub email : Option String
  pub password : String
  pub steam_id : Option String

pub record AuthUserTokenResponse : Type 0 where
  pub account : PrivateUser
  pub token : String

-- The name that was asked for, where it is not blank.
abbrev pub resolved_username : Option String → String → String
resolved_username none email = email
resolved_username (some name) email = if str_eq (trim name) "" then email else trim name

module _ (m : MongoCollections) (host : AuthHost) where
  unfoldable pub mark_user_present : ℕ → String → Run (Store m) PrivateUser
  mark_user_present now id = do
    updated ← call (update_user m id (record no_user_patch { last_seen_at = some now }))
    found ← or_throw updated user_not_found
    return (to_private_user found)

  unfoldable pub token_response : ℕ → String → Run (Store m) AuthUserTokenResponse
  unfolding mark_user_present
  token_response now id = do
    present ← mark_user_present now id
    return (record {
      account = map_private_user_to_dto present;
      token = create_auth_token host.encoding present.id now;
    })

  abbrev pub normalized_email : Option String → String
  normalized_email email = host.to_lower_case (trim (get_or email ""))

  -- An id that was given must be one; `taken` is whether a user has it.
  unfoldable pub check_steam_id : Option String → Run (Store m) (Option String)
  check_steam_id none = return none
  check_steam_id (some value) = do
    steam ← or_throw (normalize_steam_id value) steam_id_invalid
    owner ← read (find_user_by_steam_id m steam)
    guard (not (is_some owner)) steam_id_exists
    return (some steam)

  unfoldable pub register_local_user :
      Fresh → RegisterLocalUserRequest → Run (Store m) AuthUserTokenResponse
  register_local_user fresh input = do
    guard (not (str_eq (normalized_email input.email) "" || str_eq input.password ""))
        email_password_required
    guard (is_email (normalized_email input.email)) email_invalid
    owner ←
        read (
          find_user_by_username m (resolved_username input.username (normalized_email input.email)))
    guard (not (is_some owner)) username_exists
    steam ← check_steam_id input.steam_id
    created ← call (
        create_user m (
          new_user host.hash_password fresh.id fresh.salt fresh.now
            (resolved_username input.username (normalized_email input.email))
            (normalized_email input.email) input.password steam user UserState.new))
    token_response fresh.now created.id

  unfoldable pub login_user : ℕ → (username password : String) → Run (Store m) AuthUserTokenResponse
  login_user now username password = do
    found ← read (find_user_by_username m username)
    owner ← or_throw found invalid_username_or_password
    guard (verify_user_password host.hash_password owner password) invalid_username_or_password
    token_response now owner.id

  -- `steam` is the id that verifySteamOpenId returned.
  abbrev steam_owner : String → String → Option DbUser → Run (Store m) (Option PrivateUser)
  steam_owner id steam (some owner) = return (some (to_private_user owner))
  steam_owner id steam none = call (set_user_steam_id m id steam)

  unfoldable pub connect_steam : ℕ → (user_id steam : String) → Run (Store m) AuthUserTokenResponse
  connect_steam now user_id steam = do
    existing ← read (find_user_by_steam_id m steam)
    owner ← steam_owner user_id steam existing
    account ← or_throw owner user_not_found
    token_response now account.id

  unfoldable pub disconnect_steam : ℕ → String → Run (Store m) AuthUserTokenResponse
  disconnect_steam now user_id = do
    changed ← call (set_user_steam_id m user_id "")
    account ← or_throw changed user_not_found
    token_response now account.id

  unfoldable pub validate_user : ℕ → String → Run (Store m) PrivateUser
  validate_user now user_id = do
    found ← read (find_user_by_id m user_id)
    owner ← or_throw found user_not_found
    present ← mark_user_present now owner.id
    return (map_private_user_to_dto present)

  -- Whether the name belongs to another user.
  abbrev pub is_taken : String → Option DbUser → Bool
  is_taken id none = false
  is_taken id (some other) = not (str_eq other.id id)

  unfoldable pub rename_self : (user_id name : String) → Run (Store m) PrivateUser
  rename_self user_id name = do
    guard (not (str_eq (trim name) "")) name_required
    found ← read (find_user_by_id m user_id)
    owner ← or_throw found user_not_found
    other ← read (find_user_by_username m (trim name))
    guard (not (is_taken owner.id other)) username_exists
    _ ← call (update_user m owner.id (record no_user_patch { username = some (trim name) }))
    return (map_private_user_to_dto (to_private_user (record owner { username = trim name })))

  unfoldable pub delete_self : String → Run (Store m) (Unit {0})
  delete_self user_id = do
    done ← call (delete_user_and_owned_servers m user_id)
    guard done user_not_found

  -- The token is `fresh.random`; only its hash is stored.
  unfoldable pub generate_api_token : Fresh → String → Run (Store m) String
  generate_api_token fresh user_id = do
    found ← read (find_user_by_id m user_id)
    owner ← or_throw found user_not_found
    _ ← call (
        update_user m owner.id (record no_user_patch {
          api_token_salt = some fresh.salt;
          api_token_hash = some (host.hash_password fresh.random fresh.salt);
          api_token_created_at = some fresh.now;
        }))
    return fresh.random
