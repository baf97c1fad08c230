-- ===== src/Live/Service/Connector.antt =====
-- What a connector reports is stored and answered.
use mathlib.Core.Option
use mathlib.Core.Option.{some_inj}
use rw_manager_backend.Base.{
  ℕ, String, true, false, ◌+◌, ◌<◌, Option, none, some, List, find?, find?-update_first,
  find?-passes, update_first, str_eq, eq_iff, ltb, map_get, map_set, get-set_same, arith, ok, ◌≡◌,
  refl, sym, ap, ◌∙◌,
}
use rw_manager_backend.Data.Value.{Value}
use rw_manager_backend.Data.Server.{ServerConfig, online}
use rw_manager_backend.Config.{AppConfig}
use rw_manager_backend.Driver.{Collection}
use rw_manager_backend.Store.State.{MongoCollections, Store, memory, mongo, servers_of}
use rw_manager_backend.Store.Patch.{ServerPatch, assign_server}
use rw_manager_backend.Store.Servers.{has_id, find_server_by_id, update_server}
use rw_manager_backend.Store.Servers.Views.{find_server_by_id-view, servers-update_server}
use rw_manager_backend.Statistics.{BucketDoc, Clock}
use rw_manager_backend.Master.Query.{Answers}
use rw_manager_backend.Live.Response.{LiveResponse, up, stored_live_status_response}
use rw_manager_backend.Live.Status.{connector_online_players, players_patch}
use rw_manager_backend.Live.Service.{
  LiveWorld, CacheEntry, accepted, accept_for, accept_players, accept_connector_player_status,
  get_server_live_status, write_through,
}

module _ (m : MongoCollections) where
  -- A patch of a server that is found.
  update_server-found :
      (id : String) (p : ServerPatch) (st : Store m) (found : ServerConfig)
      → find_server_by_id m id st ≡ some found
      → find_server_by_id m id (update_server m id p st).1 ≡ some (assign_server p found)
  unfolding assign_server
  update_server-found id p st found e =
      find_server_by_id-view m id (update_server m id p st).1
      ∙ ap (find? (has_id id)) (servers-update_server m id p st)
      ∙ find?-update_first (has_id id) (assign_server p) (λ x here. here) (servers_of m st)
      ∙ ap (Option.map (assign_server p)) (sym (find_server_by_id-view m id st) ∙ e)

  -- The changes of the object that was found are stored in memory, and not in MongoDB.
  write_through-found :
      (id : String) (st : Store m) (found server : ServerConfig)
      → find_server_by_id m id st ≡ some found
      → server.id ≡ id
      → server.query_url ≡ found.query_url
      → (s : ServerConfig) × (find_server_by_id m id (write_through server st) ≡ some s)
        × (s.query_url ≡ found.query_url)
  unfolding find_server_by_id
  write_through-found id (memory ss us) found server e same url = (
    server,
    ap (λ k. find? (has_id id) (update_first (has_id k) (λ _. server) ss)) same
        ∙ find?-update_first (has_id id) (λ _. server) (λ x here. (eq_iff server.id id).1 same) ss
        ∙ ap (Option.map (λ _. server)) e,
    url,
  )
  write_through-found id (mongo s u) found server e same url = (found, e, refl)

module _ (m : MongoCollections) (buckets : Collection BucketDoc) (config : AppConfig) where
  -- What is stored after the report.
  accepted-stored :
      (now : ℕ) (id : String) (players : List Value) (found : ServerConfig)
      (w : LiveWorld m buckets)
      → find_server_by_id m id w.store ≡ some found
      → found.id ≡ id
      → (s : ServerConfig) × (find_server_by_id m id
            (accept_for m buckets config now players (some found) w).store
          ≡ some s)
        × (s.query_url ≡ found.query_url)
        × (s.status ≡ some online)
        × (s.online_players ≡ some players)
  unfolding assign_server
  accepted-stored now id players found w e same =
      let server = accepted m buckets config now players found in
      let patch = record (players_patch server) { status = server.status } in
      let (t, through, url) = write_through-found m id w.store found server e same refl in
      (
        assign_server patch t,
        ap (λ k. find_server_by_id m id (update_server m k patch (write_through server w.store)).1)
              same
            ∙ update_server-found m id patch (write_through server w.store) t through,
        url,
        refl,
        refl,
      )

  -- A request for the status of a server that has a response in the cache.
  cached-answered :
      (http_href : String → Option String) (clock : Clock) (later : ℕ) (id : String)
      (answers : Answers) (s : ServerConfig) (entry : CacheEntry) (w : LiveWorld m buckets)
      → find_server_by_id m id w.store ≡ some s
      → str_eq s.query_url "" ≡ false
      → map_get id w.cache ≡ some entry
      → ltb later entry.expires_at ≡ true
      → (get_server_live_status m buckets config http_href clock later id answers w).0
        ≡ ok entry.response
  unfolding get_server_live_status
  cached-answered http_href clock later id answers s entry w e named cached fresh =
      rw (e, named, cached, fresh) refl

  accept-world :
      (now : ℕ) (id : String) (payload : Value) (players : List Value) (found : ServerConfig)
      (w : LiveWorld m buckets)
      → connector_online_players payload ≡ some players
      → find_server_by_id m id w.store ≡ some found
      → (accept_connector_player_status m buckets config now id payload w).1
        ≡ accept_for m buckets config now players (some found) w
  unfolding accept_connector_player_status
  accept-world now id payload players found w read e =
      ap (λ o. (accept_players m buckets config now id o w).1) read
      ∙ ap (λ o. accept_for m buckets config now players o w) e

  -- After a report of a connector is accepted for a server with a query URL, the stored server is
  -- online with the connected players, and until the entry of the cache expires a request for its
  -- status answers that it is online, with these players and no error.
  pub reported_answered :
      (http_href : String → Option String) (clock : Clock) (now later : ℕ) (id : String)
      (payload : Value) (players : List Value) (found : ServerConfig) (answers : Answers)
      (w : LiveWorld m buckets)
      → connector_online_players payload ≡ some players
      → find_server_by_id m id w.store ≡ some found
      → str_eq found.query_url "" ≡ false
      → later < now + config.live_query_proxy_cache_ttl_ms
      → let w' = (accept_connector_player_status m buckets config now id payload w).1 in
        (s : ServerConfig) × (r : LiveResponse) × (find_server_by_id m id w'.store ≡ some s)
        × (s.status ≡ some online)
        × (s.online_players ≡ some players)
        × ((get_server_live_status m buckets config http_href clock later id answers w').0 ≡ ok r)
        × (r.status ≡ up)
        × (r.online_players ≡ some players)
        × (r.error_message ≡ none)
  unfolding stored_live_status_response
  reported_answered http_href clock now later id payload players found answers w read e named
        fresh =
      let same : found.id ≡ id = (eq_iff found.id id).0 (
        find?-passes (has_id id) (servers_of m w.store)
          (sym (find_server_by_id-view m id w.store) ∙ e)) in
      let (s, stored, url, is_online, has_players) =
        accepted-stored now id players found w e same in
      let response =
        stored_live_status_response now (accepted m buckets config now players found) in
      let entry : CacheEntry = record {
        expires_at = now + config.live_query_proxy_cache_ttl_ms;
        response = response;
      } in
      let made = sym (accept-world now id payload players found w read e) in
      (
        s,
        response,
        ap (λ (v : LiveWorld m buckets). find_server_by_id m id v.store) (sym made) ∙ stored,
        is_online,
        has_players,
        ap
              (λ (v : LiveWorld m buckets).
                (get_server_live_status m buckets config http_href clock later id answers v).0)
              (sym made)
            ∙ cached-answered http_href clock later id answers s entry
                (accept_for m buckets config now players (some found) w) stored
                (ap (λ u. str_eq u "") url ∙ named)
                (ap (λ k. map_get id (map_set k entry w.cache)) same
                  ∙ get-set_same id entry w.cache)
                (ground (arith, fresh)),
        refl,
        refl,
        refl,
      )
