-- ===== src/Store/Prune.antt =====
-- removeStaleMasterServers: catalog records that the master list no longer names.
pub mod Views
use rw_manager_backend.Base.{
  ℕ, String, Bool, true, false, not, ◌||◌, Option, none, some, List, [], ◌∷◌, map, filter, any,
  truthy, is_some, get_or, includes, ltb, if◌then◌else◌, str_eq,
}
use mathlib.Core.Option
use rw_manager_backend.Data.Server.{ServerConfig, Stamp, at, not_a_date}
use rw_manager_backend.Data.User.{DbUser}
use rw_manager_backend.Store.State.{MongoCollections, Store, memory, mongo}
use rw_manager_backend.Store.Servers.{list_servers}

-- A last sighting that is a date before the cutoff.
abbrev pub is_before : Stamp → ℕ → Bool
is_before (at t) cutoff = ltb t cutoff
is_before not_a_date cutoff = false

-- A port of the model is a number.
pub is_stale_master_server : ℕ → ServerConfig → Bool
is_stale_master_server cutoff s =
    if not s.is_public || truthy s.user_id || not (truthy s.ip) || not (is_some s.port)
    then false
    else is_before (get_or s.last_seen (at s.created_at)) cutoff

-- { id: { $in: ids } }
abbrev pub in_ids : List String → ServerConfig → Bool
in_ids ids s = includes s.id ids

-- The pins that are left.
abbrev pub prune_pins : List String → DbUser → DbUser
prune_pins ids u = record u {
  pinned_servers = Option.map (filter (λ p. not (includes p ids))) u.pinned_servers;
}

-- { pinnedServers: { $in: ids } }
abbrev pub pins_any : List String → DbUser → Bool
pins_any ids u = any (λ p. includes p ids) (get_or u.pinned_servers [])

module _ (m : MongoCollections) where
  stale_ids : ℕ → Store m → List String
  stale_ids cutoff st =
      map (λ (s : ServerConfig). s.id) (filter (is_stale_master_server cutoff) (list_servers m st))

  prune : List String → Store m → List String × Store m
  prune [] st = ([], st)
  prune (id ∷ ids) (memory ss us) = (
    id ∷ ids,
    memory (filter (λ s. not (in_ids (id ∷ ids) s)) ss) (map (prune_pins (id ∷ ids)) us),
  )
  prune (id ∷ ids) (mongo s u) = (
    id ∷ ids,
    mongo (m.servers.delete_many (in_ids (id ∷ ids)) s)
        (m.users.update_many (pins_any (id ∷ ids)) (prune_pins (id ∷ ids)) u),
  )

  unfoldable pub remove_stale_master_servers : ℕ → Store m → List String × Store m
  unfolding prune stale_ids
  remove_stale_master_servers cutoff st = prune (stale_ids cutoff st) st
