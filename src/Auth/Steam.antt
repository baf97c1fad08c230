-- ===== src/Auth/Steam.antt =====
-- src/service/auth-service.ts: the sign-in with Steam, and the name of an account that it creates.
-- The Steam id is what verifySteamOpenId returned, `persona` what getSteamPersonaName did, and `show`
-- prints a number.
pub mod Fallback
pub mod Laws
use Prim.Native.String
use rw_manager_backend.Base.{
  ℕ, zero, suc, String, Bool, true, false, not, ◌||◌, ◌+◌, ◌&&◌, Option, none, some, List, str_eq,
  get_or, is_some, truthy, length, if◌then◌else◌, Run, return, read, call, or_throw, ◌>>=◌, ◌>>◌,
  after, search_ended,
}
use rw_manager_backend.Data.User.{DbUser, PrivateUser, UserRole, UserState}
use rw_manager_backend.Config.{AppConfig}
use rw_manager_backend.Store.State.{MongoCollections, Store}
use rw_manager_backend.Store.Patch.{no_user_patch}
use rw_manager_backend.Store.Users.{
  find_user_by_username, find_user_by_steam_id, list_users, update_user, create_user, new_user,
}
use rw_manager_backend.Auth.Account.{
  AuthHost, Fresh, AuthUserTokenResponse, token_response, is_taken,
}

abbrev pub steam_name : String → String
steam_name steam = String.◌++◌ "steam_" steam

-- The i-th name that is tried.
abbrev pub fallback_name : (ℕ → String) → String → ℕ → String
fallback_name show base zero = base
fallback_name show base (suc i) = String.◌++◌ base (String.◌++◌ "_" (show (suc i)))

module _ (m : MongoCollections) (config : AppConfig) (host : AuthHost) (show : ℕ → String) where
  -- The loop, for at most so many turns.
  unfoldable pub first_free : (turns i : ℕ) → String → Store m → Option String
  first_free zero i base st = none
  first_free (suc turns) i base st =
      let rest = first_free turns (i + 1) base st in
      if is_some (find_user_by_username m (fallback_name show base i) st)
      then rest
      else some (fallback_name show base i)

  -- One turn more than there are users.
  unfoldable pub next_steam_fallback_username : String → Store m → Option String
  next_steam_fallback_username steam st =
      first_free (suc (length (list_users m st))) 0 (steam_name steam) st

  abbrev is_admin : String → Bool
  is_admin steam = str_eq steam config.super_admin_id

  -- The persona's name, where it is one and nobody has it.
  abbrev pub name_for : String → Option String → Store m → Option String
  name_for steam persona st =
      if truthy persona && not (is_some (find_user_by_username m (get_or persona "") st))
      then persona
      else next_steam_fallback_username steam st

  -- An existing account takes the persona's name where it still has the generated one.
  abbrev pub migrated : String → Option String → DbUser → Store m → Store m
  migrated steam persona owner st =
      if truthy persona
        && str_eq owner.username (steam_name steam)
        && not (is_taken m host owner.id (find_user_by_username m (get_or persona "") st))
      then (update_user m owner.id (record no_user_patch { username = persona }) st).1
      else st

  abbrev pub sign_up :
      Fresh → (steam : String) → Option String → Run (Store m) AuthUserTokenResponse
  sign_up fresh steam persona = do
    found ← read (name_for steam persona)
    username ← or_throw found search_ended
    created ← call (
        create_user m (
          new_user host.hash_password fresh.id fresh.salt fresh.now username
            (String.◌++◌ (steam_name steam) "@steam.local") fresh.random (some steam)
            (if is_admin steam then UserRole.admin else config.default_user_role)
            (if is_admin steam then UserState.verified else UserState.new)))
    token_response m host fresh.now created.id

  abbrev sign_in :
      Fresh → (steam : String) → Option String → Option DbUser → Run (Store m) AuthUserTokenResponse
  sign_in fresh steam persona none st = sign_up fresh steam persona st
  sign_in fresh steam persona (some owner) st =
      token_response m host fresh.now owner.id (migrated steam persona owner st)

  unfoldable pub steam_sign_in :
      Fresh → (steam : String) → Option String → Run (Store m) AuthUserTokenResponse
  steam_sign_in fresh steam persona st =
      sign_in fresh steam persona (find_user_by_steam_id m steam st) st
