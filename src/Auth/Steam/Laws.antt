-- ===== src/Auth/Steam/Laws.antt =====
-- The sign-in with Steam and the users' names.
use rw_manager_backend.Base.{
  ℕ, String, true, not, ◌&&◌, Option, none, some, find?, is_some, truthy, str_eq, arith, ◌≡◌, refl,
  ◌∙◌, ap, Bool-cases, Option-cases, inl, inr,
}
use rw_manager_backend.Data.User.{DbUser}
use rw_manager_backend.Config.{AppConfig}
use rw_manager_backend.Store.State.{MongoCollections, Store, users_of}
use rw_manager_backend.Store.Users.{is_user, find_user_by_username, find_user_by_steam_id, new_user}
use rw_manager_backend.Store.Users.Views.{HasUniqueUsers, find_user_by_username-view}
use rw_manager_backend.Auth.Account.{AuthHost, Fresh, is_taken}
use rw_manager_backend.Auth.Account.Names.{HasDistinctNames}
use rw_manager_backend.Auth.Account.Sessions.{Apart, created-Apart, token-Apart, named-Apart}
use rw_manager_backend.Auth.Steam.{
  steam_name, fallback_name, name_for, migrated, sign_up, steam_sign_in,
}
use rw_manager_backend.Auth.Steam.Fallback.{next_steam_fallback_username-free}

module _ (m : MongoCollections) (config : AppConfig) (host : AuthHost) (show : ℕ → String) where
  migrated-Apart :
      (steam : String) (persona : Option String) (owner : DbUser) (st : Store m)
      → HasUniqueUsers (users_of m st)
      → HasDistinctNames (users_of m st)
      → HasDistinctNames (users_of m (migrated m config host show steam persona owner st))
  migrated-Apart steam none owner st unique h = h
  migrated-Apart steam (some name) owner st unique h =
      elim (Bool-cases (
        truthy (some name)
        && str_eq owner.username (steam_name steam)
        && not (is_taken m host owner.id (find_user_by_username m name st)))) [
          | inl passed ↦
              rw passed (named-Apart m host owner.id name st unique h (ground (arith, passed)))
          | inr failed ↦ rw failed h
        ]

  -- The name of a new account is one that nobody has.
  name_for-free :
      (steam : String) (persona : Option String) (st : Store m)
      → ((i j : ℕ)
          → fallback_name show (steam_name steam) i ≡ fallback_name show (steam_name steam) j
          → i ≡ j)
      → (n : String) × (name_for m config host show steam persona st ≡ some n)
        × (not (is_some (find_user_by_username m n st)) ≡ true)
  name_for-free steam none st apart =
      let (n, found, free) = next_steam_fallback_username-free m config host show steam st apart in
      (n, found, ap (λ o. not (is_some o)) (find_user_by_username-view m n st ∙ free))
  name_for-free steam (some name) st apart =
      elim (Bool-cases (truthy (some name) && not (is_some (find_user_by_username m name st)))) [
        | inl passed ↦ (name, rw passed refl, ground (arith, passed))
        | inr failed ↦
            let (n, found, free) =
              next_steam_fallback_username-free m config host show steam st apart in
            (
              n,
              rw failed found,
              ap (λ o. not (is_some o)) (find_user_by_username-view m n st ∙ free),
            )
      ]

  -- Where no two users have one name, ids are unique, the new id is fresh and the names that are
  -- tried for a new account are distinct, signing in with Steam leaves no two users with one name:
  -- neither the account that it creates nor the name that an old account takes from Steam.
  pub steam_sign_in-HasDistinctNames :
      (fresh : Fresh) (steam : String) (persona : Option String) (st : Store m)
      → ((i j : ℕ)
          → fallback_name show (steam_name steam) i ≡ fallback_name show (steam_name steam) j
          → i ≡ j)
      → HasUniqueUsers (users_of m st)
      → find? (is_user fresh.id) (users_of m st) ≡ none
      → HasDistinctNames (users_of m st)
      → HasDistinctNames (users_of m (steam_sign_in m config host show fresh steam persona st).1)
  unfolding steam_sign_in new_user
  steam_sign_in-HasDistinctNames fresh steam persona st apart unique new h =
      elim (Option-cases (find_user_by_steam_id m steam st)) [
        | inr (owner, e) ↦ rw e (
            token-Apart m host fresh.now owner.id
              (migrated m config host show steam persona owner st)
              (migrated-Apart steam persona owner st unique h))
        | inl e ↦
            let (n, named, free) = name_for-free steam persona st apart in
            rw e (created n named free)
      ]
    where
      created :
          (n : String)
          → name_for m config host show steam persona st ≡ some n
          → not (is_some (find_user_by_username m n st)) ≡ true
          → Apart m host (sign_up m config host show fresh steam persona st).1
      created n named free =
          rw named (token-Apart m host _ _ _ (created-Apart m host _ st new free h))
