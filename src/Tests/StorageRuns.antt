-- ===== src/Tests/StorageRuns.antt =====
-- The theorems of the storage service, of the settings and of the players at concrete values.
use rw_manager_backend.Base.{
  String, true, not, ◌||◌, none, some, [], ◌∷◌, ◌≡◌, refl, find?, filter, any, map, All, includes,
  trim, if◌then◌else◌, ok, err, server_not_found, IsDistinct, arith,
}
use rw_manager_backend.Data.Value.{nat}
use rw_manager_backend.Data.Server.{ServerConfig}
use rw_manager_backend.Data.Player.{DbPlayer}
use rw_manager_backend.Config.{from_env, bounded_integer}
use rw_manager_backend.Config.Bounds.{InRange, from_env-InRange}
use rw_manager_backend.Store.State.{servers_of, users_of}
use rw_manager_backend.Store.Servers.{has_id}
use rw_manager_backend.Store.Servers.Views.{HasUniqueIds}
use rw_manager_backend.Storage.Edit.{
  CreateServerRequest, UpdateServerRequest, create_server, patch_server, delete_server,
}
use rw_manager_backend.Storage.Edit.Urls.{HasDistinctUrls}
use rw_manager_backend.Storage.Edit.Laws.{
  create_server-HasDistinctUrls, patch_server-HasDistinctUrls,
}
use rw_manager_backend.Storage.Edit.Delete.{may_write, delete_server_exact}
use rw_manager_backend.Storage.Edit.Backend.{patch_server_keeps_backend}
use rw_manager_backend.Storage.Pins.{pin_server}
use rw_manager_backend.Storage.Pins.Laws.{HasGoodPins, pin_server-HasGoodPins}
use rw_manager_backend.Players.Merge.{uids, named_uids, known, merge-uids}
use rw_manager_backend.Tests.Fixtures.{
  lists, alpha, beta, ann, bob, in_memory, in_mongo, config, web, as_ann,
}

absent : find? (has_id "c") (alpha ∷ beta ∷ []) ≡ none
unfolding find?
absent = refl

unique_ids : HasUniqueIds (alpha ∷ beta ∷ [])
unfolding find?
unique_ids = (refl, (refl, tt))

distinct_urls : HasDistinctUrls config (alpha ∷ beta ∷ [])
unfolding any from_env
distinct_urls = (refl, (refl, tt))

abbrev new_server : CreateServerRequest
new_server = record {
  label = "Gamma";
  query_url = "https://c";
  backend_url = none;
  is_public = some true;
}

abbrev cleared : UpdateServerRequest
cleared = record { label = none; query_url = none; backend_url = some "  "; is_public = none }

abbrev moved : UpdateServerRequest
moved = record { label = none; query_url = some "https://d"; backend_url = none; is_public = none }

create_server-HasDistinctUrls_example :
    HasDistinctUrls config
      (servers_of lists (create_server lists config web "c" 9 new_server as_ann in_mongo).1)
create_server-HasDistinctUrls_example =
    create_server-HasDistinctUrls lists config web "c" 9 new_server as_ann in_mongo absent
      distinct_urls

patch_server-HasDistinctUrls_example :
    HasDistinctUrls config
      (servers_of lists (patch_server lists config web "a" moved as_ann in_mongo).1)
patch_server-HasDistinctUrls_example =
    patch_server-HasDistinctUrls lists config web "a" moved as_ann in_mongo unique_ids distinct_urls

delete_server_exact_example :
    let may = may_write lists config web as_ann (find? (has_id "a") (alpha ∷ beta ∷ [])) in
    let (answer, st') = delete_server lists config web "a" as_ann in_mongo in
    (answer ≡ (if may then ok tt else err server_not_found))
    × (servers_of lists st'
        ≡ (if may then filter (λ s. not (has_id "a" s)) (alpha ∷ beta ∷ []) else alpha ∷ beta ∷ []))
    × (users_of lists st' ≡ ann ∷ bob ∷ [])
delete_server_exact_example = delete_server_exact lists config web "a" as_ann in_mongo unique_ids

blank_url : trim "  " ≡ ""
unfolding trim
blank_url = refl

patch_server_keeps_backend_example :
    map
      (λ (s : ServerConfig). s.backend_url)
      (servers_of lists (patch_server lists config web "a" cleared as_ann in_memory).1)
    ≡ some "https://backend" ∷ some "https://backend" ∷ []
patch_server_keeps_backend_example =
    patch_server_keeps_backend lists config web "a" "  " cleared as_ann in_memory refl blank_url

good_pins : All (HasGoodPins lists config) (ann ∷ bob ∷ [])
unfolding includes from_env bounded_integer
good_pins = (((refl, tt), ground arith), ((tt, ground arith), tt))

pin_server-HasGoodPins_example :
    All (HasGoodPins lists config) (users_of lists (pin_server lists config "a" as_ann in_mongo).1)
pin_server-HasGoodPins_example = pin_server-HasGoodPins lists config "a" as_ann in_mongo good_pins

from_env-InRange_example : InRange (from_env (λ s. nat 7) (λ name. some "7"))
from_env-InRange_example = from_env-InRange (λ s. nat 7) (λ name. some "7")

abbrev player : String → DbPlayer
player uid = record {
  uid = uid;
  id = none;
  name = none;
  platform = none;
  playtime = none;
  firstseen = none;
  lastseen = none;
  profile = [];
}

merge-uids_example :
    IsDistinct (uids (known (some (player "p" ∷ player "" ∷ [])) (player "q" ∷ player "p" ∷ [])))
    × ((x : String)
        → includes x
            (uids (known (some (player "p" ∷ player "" ∷ [])) (player "q" ∷ player "p" ∷ [])))
          ≡ (includes x (named_uids (player "p" ∷ player "" ∷ [])) || includes x ("q" ∷ "p" ∷ [])))
merge-uids_example = merge-uids (some (player "p" ∷ player "" ∷ [])) (player "q" ∷ player "p" ∷ [])
