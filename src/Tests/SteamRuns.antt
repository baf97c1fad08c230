-- ===== src/Tests/SteamRuns.antt =====
-- The theorems of the sign-in with Steam, where numbers are printed as strokes.
use Prim.Native.String
use text.Mathlib.TextLemmas.{length-append, length-cons}
use rw_manager_backend.Base.{
  ℕ, zero, suc, String, true, none, some, [], ◌∷◌, ◌+◌, ◌≡◌, refl, sym, ap, ◌∙◌, find?, includes,
  arith,
}
use rw_manager_backend.Store.State.{users_of}
use rw_manager_backend.Store.Users.{is_user, has_username}
use rw_manager_backend.Store.Users.Views.{HasUniqueUsers}
use rw_manager_backend.Auth.Token.{Encoding}
use rw_manager_backend.Auth.Account.{AuthHost, Fresh}
use rw_manager_backend.Auth.Account.Names.{HasDistinctNames}
use rw_manager_backend.Auth.Steam.{
  fallback_name, steam_name, next_steam_fallback_username, steam_sign_in,
}
use rw_manager_backend.Auth.Steam.Fallback.{next_steam_fallback_username-free}
use rw_manager_backend.Auth.Steam.Laws.{steam_sign_in-HasDistinctNames}
use rw_manager_backend.Tests.Fixtures.{lists, ann, bob, in_mongo, config}

abbrev strokes : ℕ → String
strokes zero = ""
strokes (suc n) = String.◌∷◌ "I" (strokes n)

count-strokes : (n : ℕ) → String.count (strokes n) ≡ n
count-strokes zero = refl
count-strokes (suc n) = length-cons "I" (strokes n) ∙ ap suc (count-strokes n)

abbrev steam : String
steam = "7"

count-fallback :
    (i : ℕ)
    → String.count (fallback_name strokes (steam_name steam) (suc i))
      ≡ String.count (steam_name steam) + (1 + suc i)
count-fallback i =
    length-append (steam_name steam) (String.◌++◌ "_" (strokes (suc i)))
    ∙ ap (λ n. String.count (steam_name steam) + n)
        (length-append "_" (strokes (suc i)) ∙ ap (λ n. 1 + n) (count-strokes (suc i)))

apart :
    (i j : ℕ)
    → fallback_name strokes (steam_name steam) i ≡ fallback_name strokes (steam_name steam) j
    → i ≡ j
apart zero zero e = refl
apart zero (suc j) e = absurd (omega (arith, ap String.count e ∙ count-fallback j))
apart (suc i) zero e = absurd (omega (arith, sym (count-fallback i) ∙ ap String.count e))
apart (suc i) (suc j) e =
    omega (arith, sym (count-fallback i) ∙ ap String.count e ∙ count-fallback j)

abbrev encoding : Encoding
encoding = record {
  header_part = "header";
  read_header = λ s. true;
  payload_part = λ p. "payload";
  read_payload = λ s. none;
  sign = λ s. "signature";
}

abbrev host : AuthHost
host = record {
  hash_password = λ password salt. password;
  to_lower_case = λ s. s;
  encoding = encoding;
}

abbrev fresh : Fresh
fresh = record { id = "new"; salt = "s"; random = "r"; now = 7 }

absent_user : find? (is_user "new") (ann ∷ bob ∷ []) ≡ none
unfolding find?
absent_user = refl

unique_users : HasUniqueUsers (ann ∷ bob ∷ [])
unfolding find?
unique_users = (refl, (refl, tt))

distinct_names : HasDistinctNames (ann ∷ bob ∷ [])
unfolding includes
distinct_names = (refl, (refl, tt))

next_steam_fallback_username-free_example :
    (n : String) × (next_steam_fallback_username lists config host strokes steam in_mongo ≡ some n)
    × (find? (has_username n) (ann ∷ bob ∷ []) ≡ none)
next_steam_fallback_username-free_example =
    next_steam_fallback_username-free lists config host strokes steam in_mongo apart

steam_sign_in-HasDistinctNames_example :
    HasDistinctNames
      (users_of lists (steam_sign_in lists config host strokes fresh steam (some "Ann") in_mongo).1)
steam_sign_in-HasDistinctNames_example =
    steam_sign_in-HasDistinctNames lists config host strokes fresh steam (some "Ann") in_mongo apart
      unique_users absent_user distinct_names
