-- ===== src/Tests/NativeRuns.antt =====
-- The theorems of the native plugins: a route that is refused once.
use rw_manager_backend.Base.{
  true, false, ◌&&◌, ◌*◌, ◌+◌, ◌≤◌, none, some, find?, [], ◌∷◌, ◌≡◌, refl, arith, map_get, opt_eq,
  ltb, if◌then◌else◌, includes, unique, unique_from, trim, trim_start, trim_end, is_space, is_digit,
  all_chars,
}
use rw_manager_backend.Data.Value.{Value, text, num, nat, object, array, prop, end, cons, nil}
use rw_manager_backend.Data.Server.{ServerConfig}
use rw_manager_backend.Store.State.{Store}
use rw_manager_backend.Store.Servers.{find_server_by_id}
use rw_manager_backend.Native.Requests.{
  Failures, json, status, attempts_of, minute_ms, pauses, retry_after_ms, native_access_backoff,
  fetch_route, fetch_native_plugin_json,
}
use rw_manager_backend.Native.Requests.Backoff.{IsBounded, fetch-IsBounded, refused-pauses}
use rw_manager_backend.Native.AdminInfo.{
  NativeAdminUtilsInfo, is_uid, parse_native_admin_utils_info, AreAdmins, parse-AreAdmins,
}
use rw_manager_backend.Tests.Fixtures.{lists, alpha, in_memory}

abbrev failures : Failures
failures = ("a", record { credential = some "old"; until = 9; attempts = 3 }) ∷ []

abbrev reset_alpha : ServerConfig
reset_alpha = record alpha { connector_credential = none }

abbrev refused : Failures × Store lists
refused =
    (fetch_native_plugin_json lists 5 10 true true true alpha (status 401) (failures, in_memory)).1

sent : pauses 5 alpha (map_get "a" failures) ≡ false
unfolding map_get
sent = refl

found : find_server_by_id lists "a" in_memory ≡ some alpha
unfolding find_server_by_id find?
found = refl

-- The stored object has lost its credential, and is refused again.
refused-pauses_example :
    (5 * minute_ms ≤ retry_after_ms (attempts_of none (map_get "a" failures)))
    × (retry_after_ms (attempts_of none (map_get "a" failures)) ≤ 30 * minute_ms)
    × (fetch_native_plugin_json lists 20 30 false true true reset_alpha (json (text "data")) refused
        ≡ (if opt_eq none none
              && ltb 20 (10 + retry_after_ms (attempts_of none (map_get "a" failures)))
            then (native_access_backoff, refused)
            else fetch_route lists 30 false true true reset_alpha (json (text "data")) refused))
refused-pauses_example =
    refused-pauses lists 5 10 20 30 true true true false true true alpha reset_alpha
      (json (text "data")) failures in_memory sent refl (λ shared. found)

few : IsBounded failures
few = omega arith

fetch-IsBounded_example : IsBounded refused.0
fetch-IsBounded_example =
    fetch-IsBounded lists 5 10 true true true alpha (status 401) failures in_memory few

abbrev payload : Value
payload = object (
    prop "schemaVersion" (num (nat 1)) (
      prop "mapUrl" (text "http://map") (
        prop "adminUid" (text "12")
          (prop "admins" (array (cons (text "12") (cons (text "x") nil))) end))))

abbrev info : NativeAdminUtilsInfo
info = record { map_url = "http://map"; admin_uid = "12"; admins = "12" ∷ [] }

read : parse_native_admin_utils_info some payload ≡ some info
unfolding parse_native_admin_utils_info is_uid unique unique_from includes trim trim_start trim_end
    is_space is_digit all_chars
read = refl

parse-AreAdmins_example : AreAdmins info
parse-AreAdmins_example = parse-AreAdmins some payload info read
