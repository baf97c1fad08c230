-- ===== src/Plugin/Players.antt =====
-- service/server-plugin-data-service.ts: the players of a payload of the admin tools. The times of a
-- player are natural here.
use mathlib.Core.Option
use rw_manager_backend.Base.{
  ℕ, String, Option, none, some, List, [], ◌∷◌, ◌++◌, or_else, get_or, str_eq, if◌then◌else◌,
}
use rw_manager_backend.Data.Value.{
  Value, Number, nat, num, text, object, prop, end, get, text?, array?, filled,
}
use rw_manager_backend.Data.Player.{DbPlayer, Platform, steam, standalone, other_platform}
use rw_manager_backend.Players.{finite?, platform_from_uid}

abbrev natural : Option Number → Option ℕ
natural (some (nat n)) = some n
natural n = none

-- numberOrNull of a time
abbrev time : String → Value → Option ℕ
time key v = natural (finite? (get key v))

abbrev pub platform_or_null : Value → Option Platform
platform_or_null (text s) =
    if str_eq s "Steam"
    then some steam
    else if str_eq s "Standalone"
    then some standalone
    else some (other_platform (text s))
platform_or_null v = Option.map (λ n. other_platform (num n)) (finite? v)

-- The fields that are finite numbers.
abbrev numbers : List String → Value → List (String × Value)
numbers [] v = []
numbers (key ∷ keys) v =
    let rest = numbers keys v in
    elim (finite? (get key v)) [ none ↦ rest | some n ↦ (key, num n) ∷ rest ]

abbrev one : String → Option Value → List (String × Value)
one key none = []
one key (some v) = (key, v) ∷ []

abbrev string_field : List String → Value → Option Value
string_field [] v = none
string_field (key ∷ keys) v = or_else (Option.map text (text? (get key v))) (string_field keys v)

abbrev point : Option Number → Option Number → Option Number → Option Value
point (some x) (some y) (some z) =
    some (object (prop "x" (num x) (prop "y" (num y) (prop "z" (num z) end))))
point (some x) (some y) none = none
point (some x) none z = none
point none y z = none

abbrev pub spawn_or_null : Value → Option Value
spawn_or_null v = point (finite? (get "x" v)) (finite? (get "y" v)) (finite? (get "z" v))

-- The fields that are kept together.
abbrev profile_of : Value → List (String × Value)
profile_of v =
    numbers ("posx" ∷ "posy" ∷ "posz" ∷ "rotx" ∷ "roty" ∷ "rotz" ∷ "rotw" ∷ []) v
    ++ one "permissiongroup" (string_field ("permissiongroup" ∷ "permissionGroup" ∷ []) v)
    ++ numbers
        ("health" ∷ "hunger" ∷ "thirst" ∷ "brokenbones" ∷ "temperature" ∷ "dead" ∷ "flying" ∷ []) v
    ++ one "clothes" (string_field ("clothes" ∷ []) v)
    ++ one "primaryspawn" (spawn_or_null (get "primaryspawn" v))
    ++ one "secondaryspawn" (spawn_or_null (get "secondaryspawn" v))
    ++ one "tertiaryspawn" (spawn_or_null (get "tertiaryspawn" v))
    ++ numbers ("lastspawn" ∷ "lastusedmount" ∷ "lastusedvehicle" ∷ []) v

-- `show` is String(n).
module _ (show : Number → String) where
  unfoldable pub uid_or_null : Value → Option Number → Option String
  uid_or_null v id =
      or_else (filled (or_else (text? (get "uid" v)) (text? (get "UID" v)))) (Option.map show id)

  abbrev normalized : Value → Option String → Option DbPlayer
  normalized v none = none
  normalized v (some uid) = some (record {
    uid = uid;
    id = finite? (get "id" v);
    name = text? (get "name" v);
    platform = some (get_or (platform_or_null (get "platform" v)) (platform_from_uid uid));
    playtime = or_else (time "playtime" v) (time "totalPlayTime" v);
    firstseen = time "firstseen" v;
    lastseen = or_else (time "lastseen" v) (time "lastTimeOnline" v);
    profile = profile_of v;
  })

  unfoldable pub normalize_db_player : Value → Option DbPlayer
  unfolding uid_or_null
  normalize_db_player v = normalized v (uid_or_null v (finite? (get "id" v)))

  abbrev cons? : Option DbPlayer → List DbPlayer → List DbPlayer
  cons? none ps = ps
  cons? (some p) ps = p ∷ ps

  abbrev normalize_all : List Value → List DbPlayer
  normalize_all [] = []
  normalize_all (v ∷ vs) = cons? (normalize_db_player v) (normalize_all vs)

  unfoldable pub players_from_plugin_payload : Value → List DbPlayer
  players_from_plugin_payload payload = normalize_all (get_or (array? (get "players" payload)) [])
