-- ===== src/Tests/AuthRuns.antt =====
-- The theorems of the accounts at concrete requests.
use rw_manager_backend.Base.{
  true, none, some, [], ◌∷◌, ◌≡◌, refl, find?, includes, if◌then◌else◌, ltb, ◌/◌, ◌+◌, lacks,
  all_chars,
}
use rw_manager_backend.Store.State.{users_of}
use rw_manager_backend.Store.Users.{is_user}
use rw_manager_backend.Store.Users.Views.{HasUniqueUsers}
use rw_manager_backend.Auth.Token.{
  Encoding, create_auth_token, verified_subject, verified_subject-create, week_seconds,
}
use rw_manager_backend.Auth.Account.{
  AuthHost, Fresh, RegisterLocalUserRequest, register_local_user, rename_self,
}
use rw_manager_backend.Auth.Account.Names.{HasDistinctNames}
use rw_manager_backend.Auth.Account.Sessions.{register-HasDistinctNames, rename-HasDistinctNames}
use rw_manager_backend.Tests.Fixtures.{lists, ann, bob, in_mongo}

-- Encodings that know one payload.
abbrev encoding : Encoding
encoding = record {
  header_part = "header";
  read_header = λ s. true;
  payload_part = λ p. "payload";
  read_payload = λ s. some (record { sub = "ann"; iat = 0; exp = 604800 });
  sign = λ s. "signature";
}

abbrev host : AuthHost
host = record {
  hash_password = λ password salt. password;
  to_lower_case = λ s. s;
  encoding = encoding;
}

abbrev fresh : Fresh
fresh = record { id = "new"; salt = "s"; random = "r"; now = 7 }

abbrev request : RegisterLocalUserRequest
request = record {
  username = some "Cy";
  email = some "cy@example.org";
  password = "pw";
  steam_id = none;
}

absent_user : find? (is_user "new") (ann ∷ bob ∷ []) ≡ none
unfolding find?
absent_user = refl

unique_users : HasUniqueUsers (ann ∷ bob ∷ [])
unfolding find?
unique_users = (refl, (refl, tt))

distinct_names : HasDistinctNames (ann ∷ bob ∷ [])
unfolding includes
distinct_names = (refl, (refl, tt))

register-HasDistinctNames_example :
    HasDistinctNames (users_of lists (register_local_user lists host fresh request in_mongo).1)
register-HasDistinctNames_example =
    register-HasDistinctNames lists host fresh request in_mongo absent_user distinct_names

rename-HasDistinctNames_example :
    HasDistinctNames (users_of lists (rename_self lists host "ann" "Anna" in_mongo).1)
rename-HasDistinctNames_example =
    rename-HasDistinctNames lists host "ann" "Anna" in_mongo unique_users distinct_names

part_header : lacks "." "header" ≡ true
unfolding lacks all_chars
part_header = refl

part_payload : lacks "." "payload" ≡ true
unfolding lacks all_chars
part_payload = refl

part_signature : lacks "." "signature" ≡ true
unfolding lacks all_chars
part_signature = refl

-- The token of the first second of 1970, five seconds later.
verified_subject-create_example :
    verified_subject encoding 5000 (create_auth_token encoding "ann" 0)
    ≡ (if ltb (5000 / 1000) (0 / 1000 + week_seconds) then some "ann" else none)
verified_subject-create_example =
    verified_subject-create encoding "ann" 0 5000 refl (refl, part_header) (refl, part_payload)
      (refl, part_signature) refl refl
