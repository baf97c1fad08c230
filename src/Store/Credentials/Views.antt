-- ===== src/Store/Credentials/Views.antt =====
-- The credential of a server, on both backends, as a register with guarded writes.
use rw_manager_backend.Base.{
  String, Bool, true, false, not, Option, none, some, List, ◌≡◌, refl, ap, ◌∙◌, ◌≢◌, find?, opt_eq,
  opt_eq_iff, truthy, is_some, arith, eq_iff, Bool-cases, inl, inr, Option-cases, update_first_miss,
  update_first, eq_refl,
}
use rw_manager_backend.Data.Server.{ServerConfig}
use rw_manager_backend.Data.User.{DbUser}
use rw_manager_backend.Store.State.{MongoCollections, Store, memory, mongo, servers_of}
use rw_manager_backend.Store.Servers.{has_id}
use rw_manager_backend.Store.Servers.Views.{HasUniqueIds}
use rw_manager_backend.Store.Credentials.{
  change_found, set_credential, claim_server_connector_credential,
  reset_server_connector_credential, replace_server_connector_credential,
  replace_server_connector_credential_if_current,
}
use rw_manager_backend.Store.Credentials.Guards.{
  stored, permits, guarded, absent_stored, update_first-guarded, found_guarded, missed_guarded,
  credential_field, stored-find, IsWrite,
}

module _ (m : MongoCollections) where
  change_found-IsWrite :
      (id : String) (g : Option String → Bool) (c : Option String) (ss : List ServerConfig)
      (found : Option ServerConfig)
      → credential_field found ≡ stored id ss
      → IsWrite id g c ss (change_found m id g c found ss).0 (change_found m id g c found ss).1
  unfolding change_found
  change_found-IsWrite id g c ss none e = rw (← e) (refl, refl)
  change_found-IsWrite id g c ss (some s) e = rw (← e) (ground arith, ground arith)

  guarded-IsWrite :
      (id : String) (g : Option String → Bool) (c : Option String) (s : m.servers.State)
      → HasUniqueIds (m.servers.docs s)
      → ((old : Option String) → g old ≡ true → c ≢ old)
      → IsWrite id g c
          (m.servers.docs s)
          (m.servers.update_one (guarded id g) (set_credential c) s).2
          (m.servers.docs (m.servers.update_one (guarded id g) (set_credential c) s).0)
  guarded-IsWrite id g c s unique changes = (
    elim (Bool-cases (permits g (stored id (m.servers.docs s)))) [
      | inl e ↦
          let (d, found, passed) = found_guarded id g (m.servers.docs s) unique e in
          rw e (
            m.servers.update_one-modified _ _ s d found (λ same.
              changes d.connector_credential passed (ap (λ r. r.connector_credential) same)))
      | inr e ↦
          rw e (m.servers.update_one-miss _ _ s (missed_guarded id g (m.servers.docs s) unique e)).1
    ],
    m.servers.update_one-docs _ _ s
        ∙ update_first-guarded id g (set_credential c) (m.servers.docs s) unique,
  )

  -- In memory the credential that the found server has is reset.
  pub reset_found :
      (id c : String) (ss : List ServerConfig) (us : List DbUser) (server : ServerConfig)
      → find? (has_id id) ss ≡ some server
      → server.connector_credential ≡ some c
      → reset_server_connector_credential m id c (memory ss us)
        ≡ (true, memory (update_first (has_id id) (set_credential none) ss) us)
  unfolding reset_server_connector_credential change_found
  reset_found id c ss us server found has = rw (found, has, eq_refl c) refl

  -- A reset answers whether the stored credential is exactly the given one; if so it removes it from
  -- that server, and otherwise it changes nothing. Both backends, with unique ids.
  pub reset-IsWrite :
      (id c : String) (st : Store m)
      → HasUniqueIds (servers_of m st)
      → IsWrite id
          (λ old. opt_eq old (some c))
          none
          (servers_of m st)
          (reset_server_connector_credential m id c st).0
          (servers_of m (reset_server_connector_credential m id c st).1)
  unfolding reset_server_connector_credential
  reset-IsWrite id c (memory ss us) unique =
      change_found-IsWrite id _ none ss (find? (has_id id) ss) (stored-find id ss)
  reset-IsWrite id c (mongo s us) unique =
      guarded-IsWrite id (λ old. opt_eq old (some c)) none s unique
        (λ old h e. cc ((opt_eq_iff old (some c)).0 h))

  -- A replacement for a current credential is done exactly where the stored one is the expected one,
  -- which differs from the new one, and otherwise changes nothing. Both backends, with unique ids.
  pub replace_if_current-IsWrite :
      (id expected c : String) (st : Store m)
      → HasUniqueIds (servers_of m st)
      → expected ≢ c
      → IsWrite id
          (λ old. opt_eq old (some expected))
          (some c)
          (servers_of m st)
          (replace_server_connector_credential_if_current m id expected c st).0
          (servers_of m (replace_server_connector_credential_if_current m id expected c st).1)
  unfolding replace_server_connector_credential_if_current
  replace_if_current-IsWrite id expected c (memory ss us) unique ne =
      change_found-IsWrite id _ (some c) ss (find? (has_id id) ss) (stored-find id ss)
  replace_if_current-IsWrite id expected c (mongo s us) unique ne =
      guarded-IsWrite id (λ old. opt_eq old (some expected)) (some c) s unique
        (λ old h e. ground (arith, ne, (opt_eq_iff old (some expected)).0 h, e))

  unclaimed_guard :
      (id c : String) (old : Option (Option String)) (ss : List ServerConfig) (done : Bool)
      (now : List ServerConfig)
      → old ≢ some (some "")
      → old ≡ stored id ss
      → IsWrite id (λ o. not (truthy o)) (some c) ss done now
      → IsWrite id (λ o. not (is_some o)) (some c) ss done now
  unclaimed_guard id c none ss done now ne e w = rw (← e) (rw (← e) at w)
  unclaimed_guard id c (some none) ss done now ne e w = rw (← e) (rw (← e) at w)
  unclaimed_guard id c (some (some k)) ss done now ne e w =
      rw (← e) (ground (arith, eq_iff k "", ne, (rw (← e) at w)))

  -- A claim is done exactly where the server has no credential, and otherwise changes nothing. Both
  -- backends, with unique ids; the server's credential is not the empty string.
  pub claim-IsWrite :
      (id c : String) (st : Store m)
      → HasUniqueIds (servers_of m st)
      → stored id (servers_of m st) ≢ some (some "")
      → IsWrite id
          (λ old. not (is_some old))
          (some c)
          (servers_of m st)
          (claim_server_connector_credential m id c st).0
          (servers_of m (claim_server_connector_credential m id c st).1)
  unfolding claim_server_connector_credential
  claim-IsWrite id c (memory ss us) unique ne =
      unclaimed_guard id c (stored id ss) ss _ _ ne refl
        (change_found-IsWrite id _ (some c) ss (find? (has_id id) ss) (stored-find id ss))
  claim-IsWrite id c (mongo s us) unique ne =
      guarded-IsWrite id (λ old. not (is_some old)) (some c) s unique
        (λ old h e. ground (arith, h, e))

  -- The guard of a claim: in memory an empty credential counts as none.
  abbrev pub claim_guard : Store m → Option String → Bool
  claim_guard (memory ss us) old = not (truthy old)
  claim_guard (mongo s us) old = not (is_some old)

  pub claim_guard-blocks : (st : Store m) (c : String) → c ≢ "" → claim_guard st (some c) ≡ false
  claim_guard-blocks (memory ss us) c ne = ground (arith, eq_iff c "", ne)
  claim_guard-blocks (mongo s us) c ne = refl

  pub claim-IsWrite_guard :
      (id c : String) (st : Store m)
      → HasUniqueIds (servers_of m st)
      → IsWrite id
          (claim_guard st)
          (some c)
          (servers_of m st)
          (claim_server_connector_credential m id c st).0
          (servers_of m (claim_server_connector_credential m id c st).1)
  unfolding claim_server_connector_credential
  claim-IsWrite_guard id c (memory ss us) unique =
      change_found-IsWrite id _ (some c) ss (find? (has_id id) ss) (stored-find id ss)
  claim-IsWrite_guard id c (mongo s us) unique =
      guarded-IsWrite id (λ old. not (is_some old)) (some c) s unique
        (λ old h e. ground (arith, h, e))

  -- A replacement is done wherever there is such a server.
  pub replace-IsWrite :
      (id c : String) (st : Store m)
      → IsWrite id
          (λ old. true)
          (some c)
          (servers_of m st)
          (replace_server_connector_credential m id c st).0
          (servers_of m (replace_server_connector_credential m id c st).1)
  unfolding replace_server_connector_credential
  replace-IsWrite id c (memory ss us) =
      change_found-IsWrite id _ (some c) ss (find? (has_id id) ss) (stored-find id ss)
  replace-IsWrite id c (mongo s us) = elim (Option-cases (find? (has_id id) (m.servers.docs s))) [
    | inl e ↦ rw (absent_stored id (λ old. true) (m.servers.docs s) e) (
      (m.servers.update_one-miss _ _ s e).0,
      m.servers.update_one-docs _ _ s ∙ update_first_miss _ _ (m.servers.docs s) e,
    )
    | inr (d, e) ↦
        rw (← stored-find id (m.servers.docs s), e)
          (m.servers.update_one-matched _ _ s d e, m.servers.update_one-docs _ _ s)
  ]
