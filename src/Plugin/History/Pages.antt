-- ===== src/Plugin/History/Pages.antt =====
-- The pages that a history is read from, and what is remembered of it.
use rw_manager_backend.Base.{
  ℕ, zero, suc, String, true, false, ◌+◌, ◌<◌, Option, none, some, List, [], ◌∷◌, ◌++◌, length, ltb,
  includes, map_get, map_set, Entries, get-set_same, if◌then◌else◌, arith, ◌≡◌, refl, sym, ap, ◌∙◌,
}
use mathlib.Core.List.{append-nil, append_assoc}
use rw_manager_backend.Data.Value.{Value}
use rw_manager_backend.Data.Player.{DbPlayer}
use rw_manager_backend.Data.Server.{ServerConfig}
use rw_manager_backend.Plugin.History.{
  PlayerMapHistorySector, PlayerMapHistory, Page, max_pages, parsed, after_page, pages_from,
  fetch_history, Remembered, cache_ttl_ms, key_of, known_player_uids, fresh_at,
  get_player_map_history,
}

module _ (page : ℕ → Option Value) where
  -- The pages from `n` on that say that there are more.
  abbrev pub AreMore : ℕ → List Page → Type 0
  AreMore n [] = Unit
  AreMore n (p ∷ ps) = (parsed page n ≡ some p) × (p.has_more ≡ true) × AreMore (n + 1) ps

  abbrev pub items_of : List Page → List PlayerMapHistorySector
  items_of [] = []
  items_of (p ∷ ps) = p.items ++ items_of ps

  -- The history that ends with a page after the items before it.
  abbrev pub ends_with : List PlayerMapHistorySector → Option Page → Option PlayerMapHistory
  ends_with items none = none
  ends_with items (some p) = some (record { items = items ++ p.items })

  last_page :
      (o : Option Page) (items : List PlayerMapHistorySector)
      (rest : List PlayerMapHistorySector → Option PlayerMapHistory)
      → ((p : Page) → o ≡ some p → p.has_more ≡ false)
      → after_page page o items rest ≡ ends_with items o
  last_page none items rest last = refl
  last_page (some p) items rest last = rw (last p refl) refl

  pages_from-pages :
      (left n : ℕ) (items : List PlayerMapHistorySector) (ps : List Page)
      → AreMore n ps
      → ((p : Page) → parsed page (n + length ps) ≡ some p → p.has_more ≡ false)
      → pages_from page left n items ≡ (
          if ltb (length ps) left
          then ends_with (items ++ items_of ps) (parsed page (n + length ps))
          else none)
  unfolding pages_from
  pages_from-pages zero n items ps more last = ground arith
  pages_from-pages (suc left) n items [] more last =
      let here : n + 0 ≡ n = omega arith in
      let first : ltb 0 (suc left) ≡ true = ground arith in
      rw (here, first, append-nil items)
        (last_page (parsed page n) items (pages_from page left (n + 1))
          (λ p is. last p (ap (parsed page) here ∙ is)))
  pages_from-pages (suc left) n items (p ∷ ps) (is, goes_on, more) last =
      let there : n + 1 + length ps ≡ n + suc (length ps) = omega arith in
      let shorter : ltb (suc (length ps)) (suc left) ≡ ltb (length ps) left = ground arith in
      let rest =
        pages_from-pages left (n + 1) (items ++ p.items) ps more
          (λ q at. last q (ap (parsed page) (sym there) ∙ at)) in
      rw (is, goes_on, shorter, ← there, ← append_assoc items p.items (items_of ps)) rest

  -- The history of a player whose first pages say that there are more, and whose next page says that
  -- there are no more, fails, or is malformed: all the sectors of those pages in their order where that
  -- next page can be read and is one of the first hundred, and none elsewhere, a partial history never.
  pub fetch_history-pages :
      (ps : List Page)
      → AreMore 0 ps
      → ((p : Page) → parsed page (length ps) ≡ some p → p.has_more ≡ false)
      → fetch_history page ≡ (
          if ltb (length ps) max_pages
          then ends_with (items_of ps) (parsed page (length ps))
          else none)
  unfolding fetch_history
  fetch_history-pages ps more last =
      let sum : 0 + length ps ≡ length ps = omega arith in
      let h =
        pages_from-pages max_pages 0 [] ps more
          (λ p at. last p (ap (parsed page) (sym sum) ∙ at)) in
      rw sum at h

-- A player that the server knows, and of whom nothing fresh is remembered, is asked for; for a minute
-- after the answer a request for a player that is still known gets that answer, an absent history
-- included, whatever the server would tell then, and leaves the cache as it is.
pub history_repeated :
    (cached cached' : List DbPlayer) (page page' : ℕ → Option Value)
    (now answered later answered' : ℕ) (server : ServerConfig) (steam_id : String)
    (cache : Entries Remembered)
    → includes steam_id (known_player_uids cached server) ≡ true
    → includes steam_id (known_player_uids cached' server) ≡ true
    → fresh_at now (map_get (key_of server steam_id) cache) ≡ none
    → later < answered + cache_ttl_ms
    → (after : Entries Remembered) × (get_player_map_history cached page now answered server
          steam_id cache
        ≡ (fetch_history page, after))
      × (get_player_map_history cached' page' later answered' server steam_id after
          ≡ (fetch_history page, after))
unfolding get_player_map_history
history_repeated cached cached' page page' now answered later answered' server steam_id cache known
      known' stale soon =
    let entry : Remembered = record {
      expires_at_ms = answered + cache_ttl_ms;
      value = fetch_history page;
    } in
    let key = key_of server steam_id in
    let fresh : ltb later (answered + cache_ttl_ms) ≡ true = ground arith in
    (
      map_set key entry cache,
      rw (known, stale) refl,
      rw (known', get-set_same key entry cache, fresh) refl,
    )
