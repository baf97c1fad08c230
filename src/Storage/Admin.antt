-- ===== src/Storage/Admin.antt =====
-- listUsers, patchUser and deleteStorageUser, which are the superadmin's.
use rw_manager_backend.Base.{
  String, Bool, true, not, Option, none, some, List, map, str_eq, is_some, get_or, if◌then◌else◌,
  Run, return, read, call, guard, or_throw, ◌>>=◌, ◌>>◌, forbidden, state_invalid, role_invalid,
  user_not_found, cannot_delete_self,
}
use rw_manager_backend.Data.User.{
  DbUser, PublicUser, UserRole, UserState, guest, user, admin, new, verified, closed,
}
use rw_manager_backend.Config.{AppConfig}
use rw_manager_backend.Store.State.{MongoCollections, Store}
use rw_manager_backend.Store.Patch.{no_user_patch}
use rw_manager_backend.Store.Users.{
  list_users, find_user_by_id, update_user, delete_user_and_owned_servers, to_public_user,
}
use rw_manager_backend.Storage.Mapper.{map_public_user_to_dto}
use rw_manager_backend.Storage.Access.{is_super_admin}

-- dto/update-storage-user-request.ts, with the texts that the request holds.
pub record UpdateStorageUserRequest : Type 0 where
  pub state : Option String
  pub role : Option String

unfoldable pub valid_state : String → Option UserState
valid_state s =
    if str_eq s "new"
    then some new
    else if str_eq s "verified"
    then some verified
    else if str_eq s "closed"
    then some closed
    else none

unfoldable pub valid_role : String → Option UserRole
valid_role s =
    if str_eq s "guest"
    then some guest
    else if str_eq s "user"
    then some user
    else if str_eq s "admin"
    then some admin
    else none

-- value === undefined || the list of valid values includes it
abbrev pub is_valid {ℓ} : {A : Type ℓ} → (String → Option A) → Option String → Bool
is_valid valid none = true
is_valid valid (some s) = is_some (valid s)

-- The requested value, or the one that is there.
abbrev pub chosen {ℓ} : {A : Type ℓ} → (String → Option A) → Option String → A → A
chosen valid none old = old
chosen valid (some s) old = get_or (valid s) old

abbrev pub with_choices : UpdateStorageUserRequest → DbUser → DbUser
with_choices patch u = record u {
  state = chosen valid_state patch.state u.state;
  role = chosen valid_role patch.role u.role;
}

module _ (m : MongoCollections) (config : AppConfig) where
  unfoldable pub list_all_users : String → Run (Store m) (List PublicUser)
  list_all_users steam = do
    guard (is_super_admin config (some steam)) forbidden
    users ← read (list_users m)
    return (map (λ u. map_public_user_to_dto (to_public_user u)) users)

  unfoldable pub patch_user :
      (steam user_id : String) → UpdateStorageUserRequest → Run (Store m) PublicUser
  patch_user steam user_id patch = do
    guard (is_super_admin config (some steam)) forbidden
    guard (is_valid valid_state patch.state) state_invalid
    guard (is_valid valid_role patch.role) role_invalid
    found ← read (find_user_by_id m user_id)
    u ← or_throw found user_not_found
    _ ← call (
        update_user m u.id (record no_user_patch {
          state = some (with_choices patch u).state;
          role = some (with_choices patch u).role;
        }))
    return (map_public_user_to_dto (to_public_user (with_choices patch u)))

  unfoldable pub delete_storage_user :
      (steam current_user_id user_id : String) → Run (Store m) (Unit {0})
  delete_storage_user steam current_user_id user_id = do
    guard (is_super_admin config (some steam)) forbidden
    guard (not (str_eq current_user_id user_id)) cannot_delete_self
    deleted ← call (delete_user_and_owned_servers m user_id)
    guard deleted user_not_found
