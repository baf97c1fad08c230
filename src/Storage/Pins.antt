-- ===== src/Storage/Pins.antt =====
-- pinServer and unpinServer.
pub mod Laws
use rw_manager_backend.Base.{
  ℕ, String, Bool, true, false, not, Option, none, some, List, [], ◌∷◌, ◌++◌, length, leb, includes,
  get_or, truthy, if◌then◌else◌, Run, throw, return, read, call, guard, or_throw, ◌>>=◌, ◌>>◌,
  after, Result, ok, err, unauthorized, server_not_found, user_not_found,
  pinned_server_limit_reached,
}
use rw_manager_backend.Data.User.{DbUser, PublicUser}
use rw_manager_backend.Config.{AppConfig}
use rw_manager_backend.Store.State.{MongoCollections, Store}
use rw_manager_backend.Store.Patch.{UserPatch, no_user_patch}
use rw_manager_backend.Store.Servers.{find_server_by_id}
use rw_manager_backend.Store.Users.{
  find_user_by_id, update_user, remove_pinned_server, to_public_user,
}
use rw_manager_backend.Storage.Mapper.{map_public_user_to_dto}
use rw_manager_backend.Storage.Access.{Context}

abbrev pub pins_of : DbUser → List String
pins_of u = get_or u.pinned_servers []

-- The user with these pins.
abbrev pub with_pins : List String → DbUser → DbUser
with_pins pins u = record u { pinned_servers = some pins }

module _ (m : MongoCollections) (config : AppConfig) where
  -- The pins of a found user after the call: unchanged where the server is pinned already.
  pin_for : String → DbUser → Run (Store m) DbUser
  pin_for server_id user =
      if includes server_id (pins_of user) then return (with_pins (pins_of user) user) else (do
        guard (not (leb config.max_pinned_servers (length (pins_of user))))
            pinned_server_limit_reached
        _ ← call (
            update_user m user.id
              (record no_user_patch { pinned_servers = some (pins_of user ++ server_id ∷ []) }))
        return (with_pins (pins_of user ++ server_id ∷ []) user))

  unfoldable pub pin_server : String → Context → Run (Store m) PublicUser
  unfolding pin_for
  pin_server server_id context = do
    guard (truthy context.user_id) unauthorized
    found ← read (find_server_by_id m server_id)
    server ← or_throw found server_not_found
    owner ← read (find_user_by_id m (get_or context.user_id ""))
    user ← or_throw owner user_not_found
    pinned ← pin_for server_id user
    return (map_public_user_to_dto (to_public_user pinned))

  unfoldable pub unpin_server : String → Context → Run (Store m) PublicUser
  unpin_server server_id context = do
    guard (truthy context.user_id) unauthorized
    owner ← read (find_user_by_id m (get_or context.user_id ""))
    user ← or_throw owner user_not_found
    left ← call (remove_pinned_server m user.id server_id)
    persisted ← or_throw left user_not_found
    return (map_public_user_to_dto (to_public_user persisted))
