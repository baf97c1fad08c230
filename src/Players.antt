-- ===== src/Players.antt =====
-- src/service/observed-player-service.ts: players seen on a server, and the merge into those known.
pub mod Merge
use Prim.Native.String
use rw_manager_backend.Base.{
  ℕ, String, Bool, true, false, not, ◌&&◌, ◌||◌, Option, none, some, List, [], ◌∷◌, ◌++◌, ◌/◌, max,
  nat_eq, str_eq, all_chars, is_digit, trim, find?, filter, upsert, or_else, get_or, if◌then◌else◌,
}
use mathlib.Core.Option
use rw_manager_backend.Data.Value.{Value, Number, nat, negative, inexact, num, get, text?}
use rw_manager_backend.Data.Player.{DbPlayer, Platform, steam, standalone}
use rw_manager_backend.Data.Server.{Stamp, stamp_ms}

-- /^\d{17}$/
unfoldable pub platform_from_uid : String → Platform
platform_from_uid uid =
    if all_chars is_digit uid && nat_eq (String.count uid) 17 then steam else standalone

abbrev not_blank : Option String → Option String
not_blank none = none
not_blank (some s) = if str_eq (trim s) "" then none else some (trim s)

unfoldable pub string_field : Value → List String → Option String
string_field v [] = none
string_field v (key ∷ keys) = or_else (not_blank (text? (get key v))) (string_field v keys)

-- A finite number.
abbrev pub finite? : Value → Option Number
finite? (num (nat n)) = some (nat n)
finite? (num (negative n)) = some (negative n)
finite? (num (inexact s)) =
    if str_eq s "Infinity" || str_eq s "-Infinity" then none else some (inexact s)
finite? v = none

-- Math.floor(date.getTime() / 1000), where the date is one
abbrev seconds : Stamp → Option ℕ
seconds observed_at = Option.map (λ ms. ms / 1000) (stamp_ms observed_at)

abbrev observed : Value → Stamp → String → DbPlayer
observed v observed_at uid = record {
  uid = uid;
  id = finite? (get "id" v);
  name = string_field v ("name" ∷ "Name" ∷ []);
  platform = some (platform_from_uid uid);
  playtime = none;
  firstseen = seconds observed_at;
  lastseen = seconds observed_at;
  profile = [];
}

unfoldable pub observed_player_from_value : Value → Stamp → Option DbPlayer
observed_player_from_value v observed_at =
    Option.map (observed v observed_at) (string_field v ("uid" ∷ "UID" ∷ []))

abbrev cons? : Option DbPlayer → List DbPlayer → List DbPlayer
cons? none ps = ps
cons? (some p) ps = p ∷ ps

observed_from : List Value → Stamp → List DbPlayer
observed_from [] observed_at = []
observed_from (v ∷ vs) observed_at =
    cons? (observed_player_from_value v observed_at) (observed_from vs observed_at)

unfoldable pub observed_players_from_values : Option (List Value) → Stamp → List DbPlayer
unfolding observed_from
observed_players_from_values none observed_at = []
observed_players_from_values (some vs) observed_at = observed_from vs observed_at

abbrev pub has_uid : String → DbPlayer → Bool
has_uid uid p = str_eq p.uid uid

-- The greater of two times, one of which may be missing.
abbrev latest : Option ℕ → Option ℕ → Option ℕ
latest none none = none
latest none (some b) = some b
latest (some a) none = some a
latest (some a) (some b) = some (max a b)

-- Of two profiles with a common property, the first counts.
abbrev pub merged : DbPlayer → DbPlayer → DbPlayer
merged current player = record {
  uid = player.uid;
  id = or_else player.id current.id;
  name = or_else player.name current.name;
  platform = or_else player.platform current.platform;
  playtime = latest current.playtime player.playtime;
  firstseen = or_else current.firstseen player.firstseen;
  lastseen = latest current.lastseen player.lastseen;
  profile = player.profile ++ current.profile;
}

-- The map of players by uid, in the order of insertion.
unfoldable pub known_from : List DbPlayer → List DbPlayer → List DbPlayer
known_from by_uid [] = by_uid
known_from by_uid (p ∷ ps) =
    let rest = known_from (upsert (has_uid p.uid) (λ old. p) p by_uid) ps in
    let skipped = known_from by_uid ps in if str_eq p.uid "" then skipped else rest

unfoldable pub observe_all : List DbPlayer → List DbPlayer → List DbPlayer
observe_all by_uid [] = by_uid
observe_all by_uid (p ∷ ps) =
    observe_all (upsert (has_uid p.uid) (λ current. merged current p) p by_uid) ps

unfoldable pub merge_known_players : Option (List DbPlayer) → List DbPlayer → Option (List DbPlayer)
unfolding known_from observe_all
merge_known_players none [] = none
merge_known_players (some []) [] = some []
merge_known_players existing ps = some (observe_all (known_from [] (get_or existing [])) ps)
