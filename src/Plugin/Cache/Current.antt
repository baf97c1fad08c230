-- ===== src/Plugin/Cache/Current.antt =====
-- What a call for the data of the plugins answers.
use rw_manager_backend.Base.{
  ℕ, String, Bool, true, false, ◌<◌, ◌≤◌, List, Option, none, some, map_get, get-set_same, ◌≡◌,
  refl, arith, map_delete, if◌then◌else◌, ltb→lt,
}
use mathlib.Core.Option.{some_inj}
use mathlib.Core.Path.{subst}
use rw_manager_backend.Data.Server.{ServerConfig}
use rw_manager_backend.Native.Plugins.{QueryPluginInfo}
use rw_manager_backend.Config.{AppConfig}
use rw_manager_backend.Store.State.{MongoCollections}
use rw_manager_backend.Plugin.Cache.Keyed.{IsKeyed, set-IsKeyed, delete-IsKeyed}
use rw_manager_backend.Plugin.Values.{PluginAnswers, PluginHost}
use rw_manager_backend.Plugin.Cache.{
  PluginDataCacheEntry, Cache, entry_of, unexpired, PluginWorld, get_cached_plugin_data, kept,
  refresh_plugin_data_for_server, refresh_with, refresh_at, normalized_url, entry?, is_young,
  ensure_with, ensure_plugin_data_for_server,
}

module _ (host : PluginHost) (m : MongoCollections) (config : AppConfig) where
  -- The entry is the server's, is cached, has not expired, and is not too old.
  abbrev pub IsCurrent :
      Option ℕ → ServerConfig → ℕ → PluginDataCacheEntry → PluginWorld host m config → Type 0
  IsCurrent maximum server now e w =
      (e.server_id ≡ server.id)
      × (map_get server.id w.cache ≡ some e)
      × (now < e.expires_at_ms)
      × (is_young host m config now maximum e ≡ true)

  abbrev pub IsPositive : Option ℕ → Type 0
  IsPositive none = Unit
  IsPositive (some age) = 0 < age

  is_young_at :
      (maximum : Option ℕ) (now answered : ℕ) (e : PluginDataCacheEntry)
      → IsPositive maximum
      → now ≤ answered
      → e.refreshed_at_ms ≡ answered
      → is_young host m config now maximum e ≡ true
  is_young_at none now answered e positive later at = refl
  is_young_at (some age) now answered e positive later at = rw at (ground arith)

  module _ (maximum : Option ℕ) (server : ServerConfig) (answers : PluginAnswers)
      (now answered : ℕ) where
    -- The answer where an entry is cached that is young, or is not.
    abbrev choice :
        Bool
        → PluginDataCacheEntry
        → PluginWorld host m config
        → Option PluginDataCacheEntry × PluginWorld host m config
    choice young c w =
        let (result, w') = refresh_plugin_data_for_server host m config server answers answered w in
        if young then (some c, w) else (entry? host m config result, w')

    -- The answer, and what is then cached, for an entry that is cached.
    abbrev call :
        PluginWorld host m config
        → Option PluginDataCacheEntry × Cache
        → Option PluginDataCacheEntry × PluginWorld host m config
    call w k =
        ensure_with host m config maximum server answers now answered (record w { cache = k.1 }) k.0

    with-IsKeyed :
        (cache : Cache) (w : PluginWorld host m config) (plugins : Option (List QueryPluginInfo))
        → IsKeyed cache
        → IsKeyed
            (refresh_with host m config server answers answered
              (record w { cache = cache })
              plugins).1.cache
    with-IsKeyed cache w none h = h
    with-IsKeyed cache w (some plugins) h =
        set-IsKeyed server.id (entry_of host m config server answers plugins answered) cache h refl

    at-IsKeyed :
        (cache : Cache) (w : PluginWorld host m config) (url : Option String)
        → IsKeyed cache
        → IsKeyed
            (refresh_at host m config url server answers answered
              (record w { cache = cache })).1.cache
    at-IsKeyed cache w none h = h
    at-IsKeyed cache w (some url) h = with-IsKeyed cache w answers.plugins h

    -- A refresh keeps the cached entries under the ids of their servers.
    pub refresh-IsKeyed :
        (w : PluginWorld host m config)
        → IsKeyed w.cache
        → IsKeyed (refresh_plugin_data_for_server host m config server answers answered w).1.cache
    unfolding refresh_plugin_data_for_server
    refresh-IsKeyed w h = at-IsKeyed w.cache w (normalized_url host m config server.query_url) h

    choice-IsKeyed :
        (w : PluginWorld host m config) (c : PluginDataCacheEntry) (young : Bool)
        → IsKeyed w.cache
        → IsKeyed (choice young c w).1.cache
    choice-IsKeyed w c true h = h
    choice-IsKeyed w c false h = refresh-IsKeyed w h

    unexpired-IsKeyed :
        (w : PluginWorld host m config) (c : PluginDataCacheEntry) (alive : Bool)
        → IsKeyed w.cache
        → IsKeyed
            (call w
              (if alive then (some c, w.cache) else (none, map_delete server.id w.cache))).1.cache
    unexpired-IsKeyed w c true h = choice-IsKeyed w c (is_young host m config now maximum c) h
    unexpired-IsKeyed w c false h =
        refresh-IsKeyed (record w { cache = map_delete server.id w.cache })
          (delete-IsKeyed server.id w.cache h)

    kept-IsKeyed :
        (w : PluginWorld host m config) (o : Option PluginDataCacheEntry)
        → IsKeyed w.cache
        → IsKeyed (call w (kept now server.id w.cache o)).1.cache
    kept-IsKeyed w none h = refresh-IsKeyed w h
    kept-IsKeyed w (some c) h = unexpired-IsKeyed w c (unexpired now c) h

    -- Whatever is asked and answered, the cached entries stand under the ids of their servers.
    pub ensure-IsKeyed :
        (w : PluginWorld host m config)
        → IsKeyed w.cache
        → IsKeyed
            (ensure_plugin_data_for_server host m config maximum server answers now answered
              w).1.cache
    unfolding ensure_plugin_data_for_server get_cached_plugin_data
    ensure-IsKeyed w h = kept-IsKeyed w (map_get server.id w.cache) h

    module _ (positive : IsPositive maximum) (ttl : 0 < config.plugin_data_cache_ttl_ms)
        (later : now ≤ answered) where
      with-IsCurrent :
          (w : PluginWorld host m config) (plugins : Option (List QueryPluginInfo))
          (e : PluginDataCacheEntry)
          → entry? host m config (refresh_with host m config server answers answered w plugins).0
            ≡ some e
          → IsCurrent maximum server now e
              (refresh_with host m config server answers answered w plugins).1
      with-IsCurrent w none e is = absurd (cc is)
      with-IsCurrent w (some plugins) e is =
          let entry = entry_of host m config server answers plugins answered in
          subst
            (λ f.
              IsCurrent maximum server now f
                (refresh_with host m config server answers answered w (some plugins)).1)
            ((some_inj).0 is)
            (
              refl,
              get-set_same server.id entry w.cache,
              omega arith,
              is_young_at maximum now answered entry positive later refl,
            )

      at-IsCurrent :
          (w : PluginWorld host m config) (url : Option String) (e : PluginDataCacheEntry)
          → entry? host m config (refresh_at host m config url server answers answered w).0 ≡ some e
          → IsCurrent maximum server now e
              (refresh_at host m config url server answers answered w).1
      at-IsCurrent w none e is = absurd (cc is)
      at-IsCurrent w (some url) e is = with-IsCurrent w answers.plugins e is

      refresh-IsCurrent :
          (w : PluginWorld host m config) (e : PluginDataCacheEntry)
          → entry? host m config
              (refresh_plugin_data_for_server host m config server answers answered w).0
            ≡ some e
          → IsCurrent maximum server now e
              (refresh_plugin_data_for_server host m config server answers answered w).1
      unfolding refresh_plugin_data_for_server
      refresh-IsCurrent w e is = at-IsCurrent w (normalized_url host m config server.query_url) e is

      choice-IsCurrent :
          (w : PluginWorld host m config) (c e : PluginDataCacheEntry) (young : Bool)
          → IsCurrent none server now c w
          → is_young host m config now maximum c ≡ young
          → (choice young c w).0 ≡ some e
          → IsCurrent maximum server now e (choice young c w).1
      choice-IsCurrent w c e true (own, found, left, _) age is =
          subst (λ f. IsCurrent maximum server now f w) ((some_inj).0 is) (own, found, left, age)
      choice-IsCurrent w c e false current age is = refresh-IsCurrent w e is

      -- By whether the entry has not expired.
      unexpired-IsCurrent :
          (w : PluginWorld host m config) (c e : PluginDataCacheEntry) (alive : Bool)
          → c.server_id ≡ server.id
          → map_get server.id w.cache ≡ some c
          → unexpired now c ≡ alive
          → (call w (if alive then (some c, w.cache) else (none, map_delete server.id w.cache))).0
            ≡ some e
          → IsCurrent maximum server now e
              (call w (if alive then (some c, w.cache) else (none, map_delete server.id w.cache))).1
      unexpired-IsCurrent w c e true own found left is =
          choice-IsCurrent w c e (is_young host m config now maximum c)
            (own, found, ltb→lt now c.expires_at_ms left, refl) refl is
      unexpired-IsCurrent w c e false own found left is =
          refresh-IsCurrent (record w { cache = map_delete server.id w.cache }) e is

      kept-IsCurrent :
          (w : PluginWorld host m config) (o : Option PluginDataCacheEntry)
          (e : PluginDataCacheEntry)
          → IsKeyed w.cache
          → map_get server.id w.cache ≡ o
          → (call w (kept now server.id w.cache o)).0 ≡ some e
          → IsCurrent maximum server now e (call w (kept now server.id w.cache o)).1
      kept-IsCurrent w none e keyed at is = refresh-IsCurrent w e is
      kept-IsCurrent w (some c) e keyed at is =
          unexpired-IsCurrent w c e (unexpired now c) (keyed server.id c at) at refl is

      -- Where a call answers an entry, that is the server's, is cached from then on, has not expired at the
      -- time of the call, and is younger than the maximum age where one is given. The time to live and
      -- the maximum age are positive, the clock does not go back, and the cached entries stand under the
      -- ids of their servers.
      pub ensure-IsCurrent :
          (w : PluginWorld host m config) (e : PluginDataCacheEntry)
          → IsKeyed w.cache
          → (ensure_plugin_data_for_server host m config maximum server answers now answered w).0
            ≡ some e
          → IsCurrent maximum server now e
              (ensure_plugin_data_for_server host m config maximum server answers now answered w).1
      unfolding ensure_plugin_data_for_server get_cached_plugin_data
      ensure-IsCurrent w e keyed is = kept-IsCurrent w (map_get server.id w.cache) e keyed refl is
