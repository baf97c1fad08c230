-- ===== src/Plugin/Values.antt =====
-- service/plugin-data-cache-service.ts: the routes of the plugins, and what they tell of a server.
use Prim.Native.String
use rw_manager_backend.Base.{
  ℕ, String, not, ◌&&◌, Option, none, some, List, [], ◌∷◌, any, map, filter, ltb, leb, nat_eq,
  str_eq, includes, get_or, map_get, map_set, Entries, if◌then◌else◌,
}
use rw_manager_backend.Data.Value.{Value, Number, nat, num, get, array?}
use rw_manager_backend.Config.{max_safe_integer}
use rw_manager_backend.Native.Plugins.{QueryPluginInfo, native_plugin_route_id}

pub record RouteSpec : Type 0 where
  pub key : String
  pub plugin_route_id : String
  pub path : String

abbrev spec : String → String → String → RouteSpec
spec key plugin path = record { key = key; plugin_route_id = plugin; path = path }

abbrev pub route_specs : List RouteSpec
route_specs =
    spec "ozadminutils.worldAreas" "oz---admin-utils" "world-areas"
    ∷ spec "ozadminutils.playerlist" "oz---admin-utils" "playerlist"
    ∷ spec "ozadminutils.serverConfig" "oz---admin-utils" "server-config"
    ∷ spec "ozgps.globalMarkers" "oz---gps" "marker?type=global"
    ∷ spec "ozmarketplace.zones" "oz---marketplace" "zones"
    ∷ spec "ozshop.zones" "oz---shop" "zones"
    ∷ spec "ozlandclaim.claimSales" "oz---land-claim" "claim-sales"
    ∷ spec "ozlandclaim.renewZones" "oz---land-claim" "renew-zones"
    ∷ spec "ozadminutils.info" "oz---admin-utils" "info"
    ∷ spec "ozmarketplace.criers" "oz---marketplace" "criers"
    ∷ spec "ozshop.traders" "oz---shop" "traders"
    ∷ []

-- The ids of areas that are positive and safe integers.
abbrev area_id : Value → Option ℕ
area_id (num (nat n)) = if ltb 0 n && leb n max_safe_integer then some n else none
area_id v = none

abbrev next_id : Option ℕ → List ℕ → (List ℕ → List ℕ) → List ℕ
next_id none seen rest = rest seen
next_id (some n) seen rest =
    let old = rest seen in let new = n ∷ rest (n ∷ seen) in if any (nat_eq n) seen then old else new

ids_from : List Value → List ℕ → List ℕ
ids_from [] seen = []
ids_from (zone ∷ zones) seen =
    next_id (area_id (get "areaId" zone)) seen (λ ids. ids_from zones ids)

unfoldable pub area_ids_from_zones_payload : Value → List ℕ
unfolding ids_from
area_ids_from_zones_payload payload = ids_from (get_or (array? (get "zones" payload)) []) []

abbrev put? : String → Option Value → Entries Value → Entries Value
put? key none values = values
put? key (some v) values = map_set key v values

-- What a server answers: its list of plugins, its list of players, and a route of a plugin.
pub record PluginAnswers : Type 0 where
  pub plugins : Option (List QueryPluginInfo)
  pub online : Option (List Value)
  pub route : String → Option Value

-- `show` prints a number, `href` is the text of `new URL(s)` where it is one.
pub record PluginHost : Type 0 where
  pub show : ℕ → String
  pub show_number : Number → String
  pub href : String → Option String
  pub http_href : String → Option String
  pub to_lower_case : String → String

module _ (host : PluginHost) where
  abbrev route_ids : List QueryPluginInfo → List String
  route_ids plugins =
      map (λ (p : QueryPluginInfo). native_plugin_route_id host.to_lower_case p.name)
        (filter (λ (p : QueryPluginInfo). p.valid && not (str_eq p.name "")) plugins)

  abbrev route_path : RouteSpec → String
  route_path s = String.◌++◌ "plugins/" (String.◌++◌ s.plugin_route_id (String.◌++◌ "/" s.path))

  abbrev pub fetch_specs :
      PluginAnswers → List String → List RouteSpec → Entries Value → Entries Value
  fetch_specs answers available [] values = values
  fetch_specs answers available (s ∷ specs) values = fetch_specs answers available specs (
      if includes s.plugin_route_id available
      then put? s.key (answers.route (route_path s)) values
      else values)

  abbrev pub fetch_marketplace_offers_by_area :
      PluginAnswers → List ℕ → Entries Value → Entries Value
  fetch_marketplace_offers_by_area answers [] values = values
  fetch_marketplace_offers_by_area answers (id ∷ ids) values =
      fetch_marketplace_offers_by_area answers ids (
        put? (String.◌++◌ "ozmarketplace.offers." (host.show id))
          (answers.route (String.◌++◌ "plugins/oz---marketplace/offers?areaId=" (host.show id)))
          values)

  abbrev area_ids : Option Value → List ℕ
  area_ids none = []
  area_ids (some zones) = area_ids_from_zones_payload zones

  abbrev pub global_offers : PluginAnswers → List String → Entries Value → Entries Value
  global_offers answers available values =
      if includes "oz---marketplace" available
      then put? "ozmarketplace.offers.global"
          (answers.route "plugins/oz---marketplace/offers?global=true") values
      else values

  -- The data of an entry, but for the players online.
  unfoldable pub plugin_values : PluginAnswers → List QueryPluginInfo → Entries Value
  plugin_values answers plugins =
      let available = route_ids plugins in
      let values = fetch_specs answers available route_specs [] in
      global_offers answers available (
        fetch_marketplace_offers_by_area answers (area_ids (map_get "ozmarketplace.zones" values))
          values)
