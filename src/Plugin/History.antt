-- ===== src/Plugin/History.antt =====
-- service/player-map-history-service.ts: the pages of a player's map. What a page answers is an
-- argument: `page n` is the JSON of page n, or none where the request fails.
pub mod Pages
use rw_manager_backend.Base.{
  ℕ, zero, suc, String, Bool, true, false, not, ◌&&◌, ◌||◌, ◌+◌, ◌<◌, ◌≤◌, Option, none, some, List,
  [], ◌∷◌, ◌++◌, length, any, map, ltb, leb, str_eq, includes, filter, get_or, is_some, map_get,
  map_set, Entries, get-set_same, if◌then◌else◌, arith, ◌≡◌, refl, sym, ap, ◌∙◌,
}
use Prim.Native.String
use mathlib.Core.Option
use mathlib.Core.List.{append-nil, append_assoc}
use rw_manager_backend.Config.{max_safe_integer}
use rw_manager_backend.Data.Value.{
  Value, Number, nat, negative, inexact, num, text, bool, get, text?, array?, is_one,
}
use rw_manager_backend.Data.Player.{DbPlayer}
use rw_manager_backend.Data.Server.{ServerConfig}

pub record PlayerMapHistorySector : Type 0 where
  pub sector_x : Number
  pub sector_z : Number
  pub bitmap : String
  pub updated_at_ms : Number

-- The items of a PlayerMapHistory; the other two fields are constants.
pub record PlayerMapHistory : Type 0 where
  pub items : List PlayerMapHistorySector

pub record Page : Type 0 where
  pub has_more : Bool
  pub items : List PlayerMapHistorySector

abbrev pub max_pages : ℕ
max_pages = 100

-- typeof value === 'number' && Number.isSafeInteger(value)
abbrev safe_integer : Value → Option Number
safe_integer (num (nat n)) = if leb n max_safe_integer then some (nat n) else none
safe_integer (num (negative n)) = if ltb n max_safe_integer then some (negative n) else none
safe_integer v = none

abbrev number? : Value → Option Number
number? (num n) = some n
number? v = none

abbrev sector :
    Option Number → Option Number → Option String → Option Number → Option PlayerMapHistorySector
sector (some x) (some z) (some bitmap) (some updated) =
    some (record { sector_x = x; sector_z = z; bitmap = bitmap; updated_at_ms = updated })
sector (some x) (some z) (some bitmap) none = none
sector (some x) (some z) none updated = none
sector (some x) none bitmap updated = none
sector none z bitmap updated = none

abbrev sector_of : Value → Option PlayerMapHistorySector
sector_of v =
    sector (safe_integer (get "sectorX" v)) (safe_integer (get "sectorZ" v))
      (text? (get "bitmap" v)) (number? (get "updatedAtMs" v))

-- The sectors, where each of them is one.
abbrev sectors_of : List Value → Option (List PlayerMapHistorySector)
sectors_of [] = some []
sectors_of (v ∷ vs) = join (sector_of v) (sectors_of vs)
  where
    join :
        Option PlayerMapHistorySector
        → Option (List PlayerMapHistorySector)
        → Option (List PlayerMapHistorySector)
    join none rest = none
    join (some s) none = none
    join (some s) (some ss) = some (s ∷ ss)

abbrev bool? : Value → Option Bool
bool? (bool b) = some b
bool? v = none

abbrev page_of : Option Bool → Option (List PlayerMapHistorySector) → Option Page
page_of (some more) (some items) = some (record { has_more = more; items = items })
page_of (some more) none = none
page_of none items = none

unfoldable pub parse_page : Value → Option Page
parse_page v =
    if is_one (get "schemaVersion" v)
    then page_of (bool? (get "hasMore" v)) (Option.bind (array? (get "sectors" v)) sectors_of)
    else none

module _ (page : ℕ → Option Value) where
  abbrev pub parsed : ℕ → Option Page
  parsed n = Option.bind (page n) parse_page

  -- What follows a page: the rest of the loop, or its end.
  abbrev after_page :
      Option Page
      → List PlayerMapHistorySector
      → (List PlayerMapHistorySector → Option PlayerMapHistory)
      → Option PlayerMapHistory
  after_page none items rest = none
  after_page (some p) items rest =
      let history = rest (items ++ p.items) in
      if p.has_more then history else some (record { items = items ++ p.items })

  -- The loop from page `n` on, with at most `left` pages to come.
  unfoldable pub pages_from : (left n : ℕ) → List PlayerMapHistorySector → Option PlayerMapHistory
  pages_from zero n items = none
  pages_from (suc left) n items = after_page (parsed n) items (pages_from left (n + 1))

  unfoldable pub fetch_history : Option PlayerMapHistory
  unfolding pages_from
  fetch_history = pages_from max_pages 0 []

-- What is remembered of a player on a server.
pub record Remembered : Type 0 where
  pub expires_at_ms : ℕ
  pub value : Option PlayerMapHistory

abbrev pub cache_ttl_ms : ℕ
cache_ttl_ms = 60000

abbrev pub key_of : ServerConfig → String → String
key_of server steam_id = String.◌++◌ server.id (String.◌∷◌ ":" steam_id)

-- The uids a player of the server is known by; an empty one is not kept.
unfoldable pub known_player_uids : List DbPlayer → ServerConfig → List String
known_player_uids cached server =
    filter (λ uid. not (str_eq uid ""))
      (map (λ p. p.uid) (cached ++ get_or server.known_players []))

abbrev pub fresh_at : ℕ → Option Remembered → Option (Option PlayerMapHistory)
fresh_at now none = none
fresh_at now (some r) = if ltb now r.expires_at_ms then some r.value else none

-- `now` is the time of the request and `answered` the time after the last page; `page` answers the
-- pages, and `cached` are the players of the plugin cache.
module _ (cached : List DbPlayer) (page : ℕ → Option Value) (now answered : ℕ) where
  abbrev remember :
      String
      → Option PlayerMapHistory
      → Entries Remembered
      → Option PlayerMapHistory × Entries Remembered
  remember key value cache =
      (value, map_set key (record { expires_at_ms = answered + cache_ttl_ms; value = value }) cache)

  abbrev answer :
      String
      → Entries Remembered
      → Option (Option PlayerMapHistory)
      → Option PlayerMapHistory × Entries Remembered
  answer key cache (some value) = (value, cache)
  answer key cache none = remember key (fetch_history page) cache

  unfoldable pub get_player_map_history :
      ServerConfig → String → Entries Remembered → Option PlayerMapHistory × Entries Remembered
  get_player_map_history server steam_id cache =
      let key = key_of server steam_id in
      if includes steam_id (known_player_uids cached server)
      then answer key cache (fresh_at now (map_get key cache))
      else (none, cache)
