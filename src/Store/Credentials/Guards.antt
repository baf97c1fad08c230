-- ===== src/Store/Credentials/Guards.antt =====
-- Guarded writes of a credential over a list of servers with unique ids.
use rw_manager_backend.Base.{
  String, Bool, true, false, ◌&&◌, Option, none, some, List, [], ◌∷◌, ◌≡◌, refl, find?,
  update_first, if◌then◌else◌, arith, eq_iff, Bool-cases, inl, inr,
}
use mathlib.Core.Path.{subst}
use rw_manager_backend.Data.Server.{ServerConfig}
use rw_manager_backend.Store.Servers.{has_id}
use rw_manager_backend.Store.Servers.Views.{HasUniqueIds}
use rw_manager_backend.Store.Credentials.{set_credential}

-- The credential field of the server with the id; `none` where there is no such server.
unfoldable pub stored : String → List ServerConfig → Option (Option String)
stored id [] = none
stored id (s ∷ ss) = if has_id id s then some s.connector_credential else stored id ss

-- Whether there is a server and the guard passes its credential.
abbrev pub permits : (Option String → Bool) → Option (Option String) → Bool
permits g none = false
permits g (some c) = g c

-- The write of a credential, where it is done.
abbrev pub write_if : Bool → String → Option String → List ServerConfig → List ServerConfig
write_if b id c ss = if b then update_first (has_id id) (set_credential c) ss else ss

-- The filter { id, ... } of a guarded write.
abbrev pub guarded : String → (Option String → Bool) → ServerConfig → Bool
guarded id g s = has_id id s && g s.connector_credential

module _ (id : String) (g : Option String → Bool) where
  absent_guarded :
      (ss : List ServerConfig) → find? (has_id id) ss ≡ none → find? (guarded id g) ss ≡ none
  unfolding find?
  absent_guarded [] h = refl
  absent_guarded (s ∷ ss) h = ground (arith, absent_guarded ss)

  pub absent_stored : (ss : List ServerConfig) → find? (has_id id) ss ≡ none → stored id ss ≡ none
  unfolding find? stored
  absent_stored [] h = refl
  absent_stored (s ∷ ss) h = ground (arith, absent_stored ss)

  absent_update :
      (f : ServerConfig → ServerConfig) (ss : List ServerConfig)
      → find? (has_id id) ss ≡ none
      → update_first (guarded id g) f ss ≡ ss
  unfolding find? update_first
  absent_update f [] h = refl
  absent_update f (s ∷ ss) h = ground (arith, absent_update f ss)

  -- With unique ids a guarded write reads and writes the one server with the id.
  pub update_first-guarded :
      (f : ServerConfig → ServerConfig) (ss : List ServerConfig)
      → HasUniqueIds ss
      → update_first (guarded id g) f ss
        ≡ (if permits g (stored id ss) then update_first (has_id id) f ss else ss)
  unfolding update_first stored
  update_first-guarded f [] h = refl
  update_first-guarded f (s ∷ ss) (h, hs) = elim (Bool-cases (has_id id s)) [
    | inl e ↦
        let gone : find? (has_id id) ss ≡ none =
          subst (λ k. find? (has_id k) ss ≡ none) ((eq_iff s.id id).0 e) h in
        ground (arith, e, absent_update f ss gone)
    | inr e ↦ ground (arith, e, update_first-guarded f ss hs)
  ]

  pub found_guarded :
      (ss : List ServerConfig)
      → HasUniqueIds ss
      → permits g (stored id ss) ≡ true
      → (s : ServerConfig) × (find? (guarded id g) ss ≡ some s) × (g s.connector_credential ≡ true)
  unfolding find? stored
  found_guarded [] h p = cc
  found_guarded (s ∷ ss) (h, hs) p = elim (Bool-cases (has_id id s)) [
    | inl e ↦ (s, ground (arith, e, p), ground (arith, e, p))
    | inr e ↦
        let (d, found, passed) = found_guarded ss hs (ground (arith, e, p)) in
        (d, ground (arith, e, found), passed)
  ]

  pub missed_guarded :
      (ss : List ServerConfig)
      → HasUniqueIds ss
      → permits g (stored id ss) ≡ false
      → find? (guarded id g) ss ≡ none
  unfolding find? stored
  missed_guarded [] h p = refl
  missed_guarded (s ∷ ss) (h, hs) p = elim (Bool-cases (has_id id s)) [
    | inl e ↦
        let gone : find? (has_id id) ss ≡ none =
          subst (λ k. find? (has_id k) ss ≡ none) ((eq_iff s.id id).0 e) h in
        ground (arith, e, p, absent_guarded ss gone)
    | inr e ↦ ground (arith, e, missed_guarded ss hs)
  ]

abbrev pub credential_field : Option ServerConfig → Option (Option String)
credential_field none = none
credential_field (some s) = some s.connector_credential

pub stored-find :
    (id : String) (ss : List ServerConfig) → credential_field (find? (has_id id) ss) ≡ stored id ss
unfolding find? stored
stored-find id [] = refl
stored-find id (s ∷ ss) = ground (arith, stored-find id ss)

-- The answer of a guarded write, and the servers after it.
abbrev pub IsWrite :
    (id : String) (g : Option String → Bool) (c : Option String) (before : List ServerConfig)
    → Bool
    → List ServerConfig
    → Type 0
IsWrite id g c before done now =
    (done ≡ permits g (stored id before))
    × (now ≡ write_if (permits g (stored id before)) id c before)
