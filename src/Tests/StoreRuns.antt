-- ===== src/Tests/StoreRuns.antt =====
-- The theorems of the store at concrete stores.
use rw_manager_backend.Base.{
  String, false, not, none, some, List, [], ◌∷◌, ◌≡◌, ◌≢◌, refl, find?, filter, map, All, is_some,
  opt_eq, str_eq, eq_iff, arith, if◌then◌else◌,
}
use rw_manager_backend.Store.State.{servers_of, users_of}
use rw_manager_backend.Store.Patch.{no_patch}
use rw_manager_backend.Store.Servers.Views.{HasUniqueIds}
use rw_manager_backend.Store.Users.{is_user, is_owned_by, delete_user_and_owned_servers}
use rw_manager_backend.Store.Users.Views.{HasUniqueUsers, delete_user-view}
use rw_manager_backend.Store.Prune.{is_stale_master_server, prune_pins, remove_stale_master_servers}
use rw_manager_backend.Store.Prune.Views.{ids_of_stale, remove_stale_exact}
use rw_manager_backend.Store.Credentials.{replace_server_connector_credential_if_current}
use rw_manager_backend.Store.Credentials.Guards.{stored, IsWrite}
use rw_manager_backend.Store.Credentials.Views.{replace_if_current-IsWrite}
use rw_manager_backend.Store.Credentials.History.{
  Call, saves, updates, claims, resets, rotates, run, Spares, Keeps, run-Keeps,
}
use rw_manager_backend.Tests.Fixtures.{lists, alpha, beta, ann, bob, in_memory, in_mongo}

unique_servers : HasUniqueIds (alpha ∷ beta ∷ [])
unfolding find?
unique_servers = (refl, (refl, tt))

unique_users : HasUniqueUsers (ann ∷ bob ∷ [])
unfolding find?
unique_users = (refl, (refl, tt))

distinct : (x y : String) → str_eq x y ≡ false → x ≢ y
distinct x y e h = ground (arith, e, (eq_iff x y).1 h)

-- A stale save, a claim, resets of another credential and another server, and a rotation.
abbrev calls : List Call
calls =
    saves (record alpha { connector_credential = none })
    ∷ claims "a" "new"
    ∷ resets "a" "other"
    ∷ resets "b" "sealed"
    ∷ rotates "b" "x" "y"
    ∷ updates "a" no_patch
    ∷ []

calls-Spare : All (Spares "a" "sealed") calls
calls-Spare = (
  tt,
  (
    tt,
    (
      (λ h. distinct "other" "sealed" refl h.1),
      (
        (λ h. distinct "b" "a" refl h.0),
        (((λ h. distinct "b" "a" refl h.0), (λ h. distinct "x" "y" refl h)), (tt, tt)),
      ),
    ),
  ),
)

stored-alpha : stored "a" (alpha ∷ beta ∷ []) ≡ some (some "sealed")
unfolding stored
stored-alpha = refl

run-Keeps_example : Keeps "a" "sealed" (servers_of lists (run lists calls in_memory))
run-Keeps_example =
    run-Keeps lists "a" "sealed" calls in_memory calls-Spare (λ h. distinct "sealed" "" refl h)
      (unique_servers, stored-alpha)

remove_stale_exact_example :
    let (ids, st') = remove_stale_master_servers lists 10 in_mongo in
    (ids ≡ ids_of_stale 10 (alpha ∷ beta ∷ []))
    × (servers_of lists st' ≡ filter (λ s. not (is_stale_master_server 10 s)) (alpha ∷ beta ∷ []))
    × (users_of lists st' ≡ map (prune_pins ids) (ann ∷ bob ∷ []))
remove_stale_exact_example = remove_stale_exact lists 10 in_mongo unique_servers

delete_user-view_example :
    let (done, st') = delete_user_and_owned_servers lists "ann" in_mongo in
    (done ≡ is_some (find? (is_user "ann") (ann ∷ bob ∷ [])))
    × (users_of lists st' ≡ filter (λ u. not (is_user "ann" u)) (ann ∷ bob ∷ []))
    × (servers_of lists st' ≡ (
        if done
        then filter (λ s. not (is_owned_by "ann" s)) (alpha ∷ beta ∷ [])
        else alpha ∷ beta ∷ []))
delete_user-view_example = delete_user-view lists "ann" in_mongo unique_users

replace_if_current-IsWrite_example :
    IsWrite "a"
      (λ old. opt_eq old (some "sealed"))
      (some "newer")
      (alpha ∷ beta ∷ [])
      (replace_server_connector_credential_if_current lists "a" "sealed" "newer" in_mongo).0
      (servers_of lists
        (replace_server_connector_credential_if_current lists "a" "sealed" "newer" in_mongo).1)
replace_if_current-IsWrite_example =
    replace_if_current-IsWrite lists "a" "sealed" "newer" in_mongo unique_servers
      (λ h. distinct "sealed" "newer" refl h)
