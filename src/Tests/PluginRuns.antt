-- ===== src/Tests/PluginRuns.antt =====
-- The theorems of the plugin data: a server with two pages of a map, and one whose plugins are asked.
use mathlib.Core.Option.{some_inj}
use rw_manager_backend.Base.{
  ℕ, zero, ◌≢◌, ap, sym, String, true, false, ◌<◌, Option, none, some, [], ◌∷◌, ◌≡◌, refl, arith,
  filter, includes, map_get, ltb, if◌then◌else◌, length, Entries,
}
use rw_manager_backend.Data.Value.{
  Value, text, num, nat, negative, bool, object, array, prop, end, cons, nil,
}
use rw_manager_backend.Data.Player.{DbPlayer, steam}
use rw_manager_backend.Plugin.History.{
  Page, PlayerMapHistorySector, parse_page, parsed, max_pages, fetch_history, Remembered,
  known_player_uids, key_of, fresh_at, get_player_map_history,
}
use rw_manager_backend.Plugin.History.Pages.{
  items_of, ends_with, fetch_history-pages, history_repeated,
}
use rw_manager_backend.Plugin.Values.{PluginAnswers, PluginHost}
use rw_manager_backend.Plugin.Cache.{
  PluginDataCacheEntry, PluginWorld, ensure_plugin_data_for_server, get_cached_plugin_data,
  refresh_plugin_data_for_server, entry_of,
}
use rw_manager_backend.Plugin.Cache.Current.{IsCurrent, ensure-IsCurrent}
use rw_manager_backend.Config.Bounds.{from_env-InRange}
use rw_manager_backend.Tests.Fixtures.{env, lists, alpha, in_memory, config}

-- A sector, as JSON and read.
abbrev sector_json : Value
sector_json = object (
    prop "sectorX" (num (nat 3)) (
      prop "sectorZ" (num (negative 2))
        (prop "bitmap" (text "AA==") (prop "updatedAtMs" (num (nat 9)) end))))

abbrev sector : PlayerMapHistorySector
sector = record { sector_x = nat 3; sector_z = negative 2; bitmap = "AA=="; updated_at_ms = nat 9 }

abbrev page_json : Value → Value
page_json more = object (
    prop "schemaVersion" (num (nat 1))
      (prop "hasMore" more (prop "sectors" (array (cons sector_json nil)) end)))

-- The first page says that there are more.
abbrev pages : ℕ → Option Value
pages zero = some (page_json (bool true))
pages n = some (page_json (bool false))

abbrev first_page : Page
first_page = record { has_more = true; items = sector ∷ [] }

first : parsed pages 0 ≡ some first_page
unfolding parse_page mathlib.Core.Option.bind
first = refl

last : (p : Page) → parsed pages 1 ≡ some p → p.has_more ≡ false
unfolding parse_page mathlib.Core.Option.bind
last p is = ap (λ q. q.has_more) (sym ((some_inj).0 is))

fetch_history-pages_example : fetch_history pages ≡ (
    if ltb (length (first_page ∷ [])) max_pages
    then ends_with pages
        (items_of pages (first_page ∷ []))
        (parsed pages (length (first_page ∷ [])))
    else none)
fetch_history-pages_example = fetch_history-pages pages (first_page ∷ []) (first, refl, tt) last

abbrev player : DbPlayer
player = record {
  uid = "7";
  id = none;
  name = none;
  platform = some steam;
  playtime = none;
  firstseen = none;
  lastseen = none;
  profile = [];
}

known : includes "7" (known_player_uids (player ∷ []) alpha) ≡ true
unfolding includes known_player_uids filter
known = refl

unseen : fresh_at 5 (map_get {V = Remembered} (key_of alpha "7") []) ≡ none
unfolding map_get
unseen = refl

history_repeated_example :
    (after : Entries Remembered) × (get_player_map_history (player ∷ []) pages 5 6 alpha "7" []
      ≡ (fetch_history pages, after))
    × (get_player_map_history (player ∷ []) (λ n. none) 60005 60007 alpha "7" after
        ≡ (fetch_history pages, after))
history_repeated_example =
    history_repeated (player ∷ []) (player ∷ []) pages (λ n. none) 5 6 60005 60007 alpha "7" []
      known known unseen (omega arith)

abbrev host : PluginHost
host = record {
  show = λ n. "n";
  show_number = λ n. "n";
  href = λ s. some s;
  http_href = λ s. none;
  to_lower_case = λ s. s;
}

-- One plugin, whose routes answer nothing.
abbrev answers : PluginAnswers
answers = record {
  plugins = some (record { name = "oz---shop"; version = none; valid = true } ∷ []);
  online = some [];
  route = λ path. none;
}

abbrev world : PluginWorld host lists config
world = record { store = in_memory; cache = [] }

abbrev entry : PluginDataCacheEntry
entry =
    entry_of host lists config alpha answers
      (record { name = "oz---shop"; version = none; valid = true } ∷ []) 12

lives : 0 < config.plugin_data_cache_ttl_ms
lives = omega (arith, (from_env-InRange (λ s. nat 1000) env).plugin_ttl.0)

answered :
    (ensure_plugin_data_for_server host lists config (some 30) alpha answers 10 12 world).0
    ≡ some entry
unfolding ensure_plugin_data_for_server get_cached_plugin_data refresh_plugin_data_for_server
    map_get
answered = refl

unfound :
    (id : String) (e : PluginDataCacheEntry) → map_get {V = PluginDataCacheEntry} id [] ≢ some e
unfolding map_get
unfound id e is = absurd (cc is)

ensure-IsCurrent_example :
    IsCurrent host lists config
      (some 30)
      alpha
      10
      entry
      (ensure_plugin_data_for_server host lists config (some 30) alpha answers 10 12 world).1
ensure-IsCurrent_example =
    ensure-IsCurrent host lists config (some 30) alpha answers 10 12 (omega arith) lives
      (omega arith) world entry (λ id e is. absurd (unfound id e is)) answered
