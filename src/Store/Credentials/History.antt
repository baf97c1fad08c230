-- ===== src/Store/Credentials/History.antt =====
-- Which calls leave a stored credential alone, in any order.
use rw_manager_backend.Base.{
  String, Bool, false, Option, none, some, List, [], ◌∷◌, ◌≡◌, refl, ap, ◌∙◌, ◌≢◌, update_first,
  opt_eq, arith, eq_iff, Bool-cases, inl, inr, All,
}
use rw_manager_backend.Data.Server.{ServerConfig}
use rw_manager_backend.Store.State.{MongoCollections, Store, memory, mongo, servers_of}
use rw_manager_backend.Store.Patch.{ServerPatch, assign_server}
use rw_manager_backend.Store.Servers.{has_id, without_credential, save_server, update_server}
use rw_manager_backend.Store.Servers.Views.{HasUniqueIds, servers-update_server}
use rw_manager_backend.Store.Credentials.{
  set_credential, claim_server_connector_credential, reset_server_connector_credential,
  replace_server_connector_credential_if_current,
}
use rw_manager_backend.Store.Credentials.Guards.{stored, permits, IsWrite}
use rw_manager_backend.Store.Credentials.Kept.{
  HasUniqueIds-update, HasUniqueIds-upsert, stored-upsert, stored-update, stored-write_ne,
}
use rw_manager_backend.Store.Credentials.Views.{
  reset-IsWrite, claim_guard, claim_guard-blocks, claim-IsWrite_guard, replace_if_current-IsWrite,
}

-- A call of the store that may reach a server's record.
pub data Call : Type 0 where
  saves : ServerConfig → Call
  updates : String → ServerPatch → Call
  claims resets : (id c : String) → Call
  rotates : (id expected c : String) → Call

-- The call, without its answer.
pub step : (m : MongoCollections) → Call → Store m → Store m
step m (saves server) st = (save_server m server st).1
step m (updates id p) st = (update_server m id p st).1
step m (claims id c) st = (claim_server_connector_credential m id c st).1
step m (resets id c) st = (reset_server_connector_credential m id c st).1
step m (rotates id expected c) st =
    (replace_server_connector_credential_if_current m id expected c st).1

pub run : (m : MongoCollections) → List Call → Store m → Store m
run m [] st = st
run m (c ∷ cs) st = run m cs (step m c st)

-- A call that does not name the credential `c` of the server `id`.
abbrev pub Spares : (id c : String) → Call → Type 0
Spares id c (resets k d) = ¬ ((k ≡ id) × (d ≡ c))
Spares id c (rotates k expected d) = (¬ ((k ≡ id) × (expected ≡ c))) × (expected ≢ d)
Spares id c _ = Unit {0}

-- The server holds the credential, and ids are unique.
abbrev pub Keeps : (id c : String) → List ServerConfig → Type 0
Keeps id c ss = HasUniqueIds ss × (stored id ss ≡ some (some c))

module _ (m : MongoCollections) (id c : String) where
  save-Keeps :
      (server : ServerConfig) (st : Store m)
      → Keeps id c (servers_of m st)
      → Keeps id c (servers_of m (save_server m server st).1)
  unfolding save_server
  save-Keeps server (memory ss us) (u, h) =
      (HasUniqueIds-upsert server server ss refl u, stored-upsert id server server (some c) ss h)
  save-Keeps server (mongo s us) (u, h) = rw m.servers.upsert_one-docs (
    HasUniqueIds-upsert server (without_credential server) (m.servers.docs s) refl u,
    stored-upsert id server (without_credential server) (some c) (m.servers.docs s) h,
  )

  update-Keeps :
      (k : String) (p : ServerPatch) (ss : List ServerConfig)
      → Keeps id c ss
      → Keeps id c (update_first (has_id k) (assign_server p) ss)
  unfolding assign_server
  update-Keeps k p ss (u, h) = (
    HasUniqueIds-update (has_id k) (assign_server p) ss (λ s. refl) u,
    stored-update id (has_id k) (assign_server p) ss (λ s. refl) (λ s. refl) ∙ h,
  )

  -- A guarded write whose guard the credential does not pass, or to another server.
  write-Keeps :
      (k : String) (g : Option String → Bool) (v : Option String) (before now : List ServerConfig)
      (done : Bool)
      → (k ≡ id → g (some c) ≡ false)
      → IsWrite k g v before done now
      → Keeps id c before
      → Keeps id c now
  write-Keeps k g v before now done blocked (_, e) (u, h) =
      elim (Bool-cases (permits g (stored k before))) [
        | inr shut ↦ rw (e, shut) (u, h)
        | inl open_guard ↦
            rw (e, open_guard)
              (
                HasUniqueIds-update (has_id k) (set_credential v) before (λ s. refl) u,
                stored-write_ne id k v before
                      (λ same. cc (blocked same, open_guard, ap (λ i. stored i before) same, h))
                    ∙ h,
              )
      ]

  -- One call that spares the credential leaves it in place, on both backends.
  step-Keeps :
      (call : Call) (st : Store m)
      → Spares id c call
      → c ≢ ""
      → Keeps id c (servers_of m st)
      → Keeps id c (servers_of m (step m call st))
  unfolding step
  step-Keeps (saves server) st spared ne h = save-Keeps server st h
  step-Keeps (updates k p) st spared ne h =
      rw servers-update_server (update-Keeps k p (servers_of m st) h)
  step-Keeps (claims k d) st spared ne h =
      write-Keeps k (claim_guard m st) (some d) (servers_of m st) _ _
        (λ same. claim_guard-blocks m st c ne) (claim-IsWrite_guard m k d st h.0) h
  step-Keeps (resets k d) st spared ne h =
      write-Keeps k (λ old. opt_eq old (some d)) none (servers_of m st) _ _
        (λ same. ground (arith, eq_iff c d, spared, same)) (reset-IsWrite m k d st h.0) h
  step-Keeps (rotates k expected d) st spared ne h =
      write-Keeps k (λ old. opt_eq old (some expected)) (some d) (servers_of m st) _ _
        (λ same. ground (arith, eq_iff c expected, spared.0, same))
        (replace_if_current-IsWrite m k expected d st h.0 spared.1) h

-- A credential that is stored for a server outlives every sequence of calls none of which names it:
-- saves of any snapshot, however stale, patches, claims, resets of another credential and rotations
-- of another one to a credential that differs from it. Both backends; ids are unique and the
-- credential is not empty.
pub run-Keeps :
    (m : MongoCollections) (id c : String) (calls : List Call) (st : Store m)
    → All (Spares id c) calls
    → c ≢ ""
    → Keeps id c (servers_of m st)
    → Keeps id c (servers_of m (run m calls st))
unfolding run
run-Keeps m id c [] st spared ne h = h
run-Keeps m id c (call ∷ calls) st (first, later) ne h =
    run-Keeps m id c calls (step m call st) later ne (step-Keeps m id c call st first ne h)
