-- ===== src/Store/Prune/Views.antt =====
-- What pruning removes, on both backends.
use rw_manager_backend.Base.{
  ℕ, String, false, not, Option, none, some, List, [], ◌∷◌, map, filter, any, get_or, includes,
  if◌then◌else◌, ◌≡◌, refl, sym, ap, ◌∙◌, arith, Bool-cases, inl, inr, find?, eq_iff,
}
use mathlib.Core.Option
use mathlib.Core.Path.{ap₂, fun_ext, subst}
use rw_manager_backend.Data.Server.{ServerConfig}
use rw_manager_backend.Data.User.{DbUser}
use rw_manager_backend.Store.State.{MongoCollections, Store, memory, mongo, servers_of, users_of}
use rw_manager_backend.Store.Servers.{has_id}
use rw_manager_backend.Store.Servers.Views.{list_servers-view, HasUniqueIds}
use rw_manager_backend.Store.Prune.{
  is_stale_master_server, in_ids, prune_pins, pins_any, stale_ids, prune,
  remove_stale_master_servers,
}

-- The ids of the stale servers.
abbrev pub ids_of_stale : ℕ → List ServerConfig → List String
ids_of_stale cutoff ss =
    map (λ (s : ServerConfig). s.id) (filter (is_stale_master_server cutoff) ss)

unpinned :
    (ids : List String) (pins : List String)
    → any (λ p. includes p ids) pins ≡ false
    → filter (λ p. not (includes p ids)) pins ≡ pins
unfolding any filter
unpinned ids [] h = refl
unpinned ids (p ∷ pins) h = ground (arith, unpinned ids pins)

unpinned_option :
    (ids : List String) (pins : Option (List String))
    → any (λ p. includes p ids) (get_or pins []) ≡ false
    → Option.map (filter (λ p. not (includes p ids))) pins ≡ pins
unpinned_option ids none h = refl
unpinned_option ids (some pins) h = ap some (unpinned ids pins h)

-- An update of those with such a pin is one of all.
pruned_pins :
    (ids : List String) (u : DbUser)
    → (if pins_any ids u then prune_pins ids u else u) ≡ prune_pins ids u
pruned_pins ids u = elim (Bool-cases (pins_any ids u)) [
  | inl e ↦ rw e
  | inr e ↦ rw e (
      ap (λ pins. record u { pinned_servers = pins })
        (sym (unpinned_option ids u.pinned_servers e)))
]

kept_none : (ss : List ServerConfig) → filter (λ s. not (in_ids [] s)) ss ≡ ss
unfolding filter includes
kept_none [] = refl
kept_none (s ∷ ss) = ap (◌∷◌ s) (kept_none ss)

kept_pins : (pins : List String) → filter (λ p. not (includes p [])) pins ≡ pins
unfolding filter includes
kept_pins [] = refl
kept_pins (p ∷ pins) = ap (◌∷◌ p) (kept_pins pins)

kept_option :
    (pins : Option (List String)) → Option.map (filter (λ p. not (includes p []))) pins ≡ pins
kept_option none = refl
kept_option (some pins) = ap some (kept_pins pins)

kept_users : (us : List DbUser) → map (prune_pins []) us ≡ us
kept_users [] = refl
kept_users (u ∷ us) =
    ap₂ ◌∷◌ (ap (λ pins. record u { pinned_servers = pins }) (kept_option u.pinned_servers))
      (kept_users us)

-- The answer, the servers and the users after the stale ids were pruned.
abbrev pub IsPruned :
    List String
    → List ServerConfig
    → List DbUser
    → List String
    → List ServerConfig
    → List DbUser
    → Type 0
IsPruned ids ss us answer ss' us' =
    (answer ≡ ids) × (ss' ≡ filter (λ s. not (in_ids ids s)) ss) × (us' ≡ map (prune_pins ids) us)

module _ (m : MongoCollections) where
  prune-IsPruned :
      (ids : List String) (st : Store m)
      → IsPruned ids
          (servers_of m st)
          (users_of m st)
          (prune m ids st).0
          (servers_of m (prune m ids st).1)
          (users_of m (prune m ids st).1)
  unfolding prune
  prune-IsPruned [] st = (refl, sym (kept_none _), sym (kept_users _))
  prune-IsPruned (id ∷ ids) (memory ss us) = (refl, refl, refl)
  prune-IsPruned (id ∷ ids) (mongo s u) = (
    refl,
    m.servers.delete_many-docs _ s,
    m.users.update_many-docs _ _ u ∙ rw (fun_ext (pruned_pins (id ∷ ids))),
  )

  remove_stale-IsPruned :
      (cutoff : ℕ) (st : Store m)
      → IsPruned
          (ids_of_stale cutoff (servers_of m st))
          (servers_of m st)
          (users_of m st)
          (remove_stale_master_servers m cutoff st).0
          (servers_of m (remove_stale_master_servers m cutoff st).1)
          (users_of m (remove_stale_master_servers m cutoff st).1)
  unfolding remove_stale_master_servers
  remove_stale-IsPruned cutoff st =
      subst
        (λ ss.
          IsPruned (map (λ (s : ServerConfig). s.id) (filter (is_stale_master_server cutoff) ss))
            (servers_of m st) (users_of m st) (prune m (stale_ids m cutoff st) st).0
            (servers_of m (prune m (stale_ids m cutoff st) st).1)
            (users_of m (prune m (stale_ids m cutoff st) st).1))
        (list_servers-view m st) (prune-IsPruned (stale_ids m cutoff st) st)

-- Without an id that no server has, the same servers are kept.
drop_absent :
    (k : String) (ids : List String) (ss : List ServerConfig)
    → find? (has_id k) ss ≡ none
    → filter (λ s. not (in_ids (k ∷ ids) s)) ss ≡ filter (λ s. not (in_ids ids s)) ss
unfolding find? filter includes
drop_absent k ids [] h = refl
drop_absent k ids (s ∷ ss) h = ground (arith, eq_iff k s.id, eq_iff s.id k, drop_absent k ids ss)

absent_ids :
    (cutoff : ℕ) (k : String) (ss : List ServerConfig)
    → find? (has_id k) ss ≡ none
    → includes k (ids_of_stale cutoff ss) ≡ false
unfolding find? filter includes
absent_ids cutoff k [] h = refl
absent_ids cutoff k (s ∷ ss) h = ground (arith, absent_ids cutoff k ss)

-- With unique ids the servers whose id is that of a stale server are the stale servers.
kept_exactly :
    (cutoff : ℕ) (ss : List ServerConfig)
    → HasUniqueIds ss
    → filter (λ s. not (in_ids (ids_of_stale cutoff ss) s)) ss
      ≡ filter (λ s. not (is_stale_master_server cutoff s)) ss
unfolding filter includes
kept_exactly cutoff [] h = refl
kept_exactly cutoff (s ∷ ss) (h, hs) = ground (
  arith,
  drop_absent s.id (ids_of_stale cutoff ss) ss h,
  absent_ids cutoff s.id ss h,
  eq_iff s.id s.id,
  kept_exactly cutoff ss hs,
)

-- Pruning answers the ids of the stale catalog records and removes exactly those records, in both
-- backends; of each user's pins it removes those ids and no others. The ids are unique.
pub remove_stale_exact :
    (m : MongoCollections) (cutoff : ℕ) (st : Store m)
    → HasUniqueIds (servers_of m st)
    → let (ids, st') = remove_stale_master_servers m cutoff st in
      (ids ≡ ids_of_stale cutoff (servers_of m st))
      × (servers_of m st' ≡ filter (λ s. not (is_stale_master_server cutoff s)) (servers_of m st))
      × (users_of m st' ≡ map (prune_pins ids) (users_of m st))
remove_stale_exact m cutoff st unique =
    let (answer, servers, users) = remove_stale-IsPruned m cutoff st in
    (
      answer,
      servers ∙ kept_exactly cutoff (servers_of m st) unique,
      users ∙ ap (λ ids. map (prune_pins ids) (users_of m st)) (sym answer),
    )
