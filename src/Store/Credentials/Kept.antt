-- ===== src/Store/Credentials/Kept.antt =====
-- Unique ids and stored credentials under the writes of src/db/manager-store.ts.
use rw_manager_backend.Base.{
  String, Bool, false, Option, none, some, List, [], ◌∷◌, ◌≡◌, refl, ap, ◌≢◌, find?, update_first,
  upsert, arith, str_eq, eq_iff, Bool-cases, inl, inr,
}
use rw_manager_backend.Data.Server.{ServerConfig}
use rw_manager_backend.Store.Servers.{has_id, merge_fields}
use rw_manager_backend.Store.Servers.Views.{HasUniqueIds}
use rw_manager_backend.Store.Credentials.{set_credential}
use rw_manager_backend.Store.Credentials.Guards.{stored}

pub find-update :
    (k : String) (p : ServerConfig → Bool) (f : ServerConfig → ServerConfig)
    (ss : List ServerConfig)
    → ((s : ServerConfig) → (f s).id ≡ s.id)
    → find? (has_id k) ss ≡ none
    → find? (has_id k) (update_first p f ss) ≡ none
unfolding find? update_first
find-update k p f [] same h = refl
find-update k p f (s ∷ ss) same h =
    ground (arith, same s, ap (λ i. str_eq i k) (same s), find-update k p f ss same)

pub HasUniqueIds-update :
    (p : ServerConfig → Bool) (f : ServerConfig → ServerConfig) (ss : List ServerConfig)
    → ((s : ServerConfig) → (f s).id ≡ s.id)
    → HasUniqueIds ss
    → HasUniqueIds (update_first p f ss)
unfolding update_first
HasUniqueIds-update p f [] same h = tt
HasUniqueIds-update p f (s ∷ ss) same (h, hs) = elim (Bool-cases (p s)) [
  | inl e ↦ rw e (rw (same s) h, hs)
  | inr e ↦ rw e (find-update s.id p f ss same h, HasUniqueIds-update p f ss same hs)
]

pub find-upsert :
    (k : String) (server new : ServerConfig) (ss : List ServerConfig)
    → new.id ≡ server.id
    → str_eq server.id k ≡ false
    → find? (has_id k) ss ≡ none
    → find? (has_id k) (upsert (has_id server.id) (merge_fields server) new ss) ≡ none
unfolding find? upsert
find-upsert k server new [] e ne h = ground (arith, e, ap (λ i. str_eq i k) e)
find-upsert k server new (s ∷ ss) e ne h = ground (arith, find-upsert k server new ss e ne)

pub HasUniqueIds-upsert :
    (server new : ServerConfig) (ss : List ServerConfig)
    → new.id ≡ server.id
    → HasUniqueIds ss
    → HasUniqueIds (upsert (has_id server.id) (merge_fields server) new ss)
unfolding find? upsert
HasUniqueIds-upsert server new [] e h = (refl, tt)
HasUniqueIds-upsert server new (s ∷ ss) e (h, hs) = elim (Bool-cases (has_id server.id s)) [
  | inl hit ↦ rw hit (rw (← (eq_iff s.id server.id).0 hit) h, hs)
  | inr miss ↦ rw miss (
    find-upsert s.id server new ss e (ground (arith, eq_iff s.id server.id, eq_iff server.id s.id))
        h,
    HasUniqueIds-upsert server new ss e hs,
  )
]

pub stored-upsert :
    (id : String) (server new : ServerConfig) (c : Option String) (ss : List ServerConfig)
    → stored id ss ≡ some c
    → stored id (upsert (has_id server.id) (merge_fields server) new ss) ≡ some c
unfolding stored upsert
stored-upsert id server new c [] h = cc
stored-upsert id server new c (s ∷ ss) h = ground (
  arith,
  eq_iff s.id server.id,
  eq_iff s.id id,
  eq_iff server.id id,
  stored-upsert id server new c ss,
)

pub stored-update :
    (id : String) (p : ServerConfig → Bool) (f : ServerConfig → ServerConfig)
    (ss : List ServerConfig)
    → ((s : ServerConfig) → (f s).id ≡ s.id)
    → ((s : ServerConfig) → (f s).connector_credential ≡ s.connector_credential)
    → stored id (update_first p f ss) ≡ stored id ss
unfolding stored update_first
stored-update id p f [] same keeps = refl
stored-update id p f (s ∷ ss) same keeps =
    ground
      (arith, same s, ap (λ i. str_eq i id) (same s), keeps s, stored-update id p f ss same keeps)

pub stored-write_ne :
    (id k : String) (v : Option String) (ss : List ServerConfig)
    → k ≢ id
    → stored id (update_first (has_id k) (set_credential v) ss) ≡ stored id ss
unfolding stored update_first
stored-write_ne id k v [] ne = refl
stored-write_ne id k v (s ∷ ss) ne =
    ground (arith, eq_iff s.id k, eq_iff s.id id, ne, stored-write_ne id k v ss ne)
