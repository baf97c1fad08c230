-- ===== src/Store/Credentials.antt =====
-- The game connector's credentials: claim, reset, replace, and replace if current.
pub mod Guards
pub mod Kept
pub mod Views
pub mod History
use rw_manager_backend.Base.{
  String, Bool, true, false, not, ◌&&◌, Option, none, some, List, find?, update_first, opt_eq,
  truthy, is_some, if◌then◌else◌,
}
use rw_manager_backend.Data.Server.{ServerConfig}
use rw_manager_backend.Store.State.{MongoCollections, Store, memory, mongo}
use rw_manager_backend.Store.Servers.{has_id}

abbrev pub set_credential : Option String → ServerConfig → ServerConfig
set_credential c s = record s { connector_credential = c }

-- { id, connectorCredential: { $exists: false } }
abbrev pub unclaimed : String → ServerConfig → Bool
unclaimed id s = has_id id s && not (is_some s.connector_credential)

-- { id, connectorCredential: credential }
abbrev pub holds : String → String → ServerConfig → Bool
holds id c s = has_id id s && opt_eq s.connector_credential (some c)

module _ (m : MongoCollections) where
  -- In memory: change the found server where `test` of its credential passes. `db.write()` of the
  -- store in memory never fails, so the change is never taken back.
  change_found :
      String
      → (Option String → Bool)
      → Option String
      → Option ServerConfig
      → List ServerConfig
      → Bool × List ServerConfig
  change_found id test c none ss = (false, ss)
  change_found id test c (some s) ss =
      if test s.connector_credential
      then (true, update_first (has_id id) (set_credential c) ss)
      else (false, ss)

  unfoldable pub claim_server_connector_credential : String → String → Store m → Bool × Store m
  unfolding change_found
  claim_server_connector_credential id c (memory ss us) =
      let (done, ss') =
        change_found id (λ old. not (truthy old)) (some c) (find? (has_id id) ss) ss in
      (done, memory ss' us)
  claim_server_connector_credential id c (mongo s u) =
      let (s', matched, modified) =
        m.servers.update_one (unclaimed id) (set_credential (some c)) s in
      (modified, mongo s' u)

  unfoldable pub reset_server_connector_credential : String → String → Store m → Bool × Store m
  unfolding change_found
  reset_server_connector_credential id c (memory ss us) =
      let (done, ss') =
        change_found id (λ old. opt_eq old (some c)) none (find? (has_id id) ss) ss in
      (done, memory ss' us)
  reset_server_connector_credential id c (mongo s u) =
      let (s', matched, modified) = m.servers.update_one (holds id c) (set_credential none) s in
      (modified, mongo s' u)

  unfoldable pub replace_server_connector_credential : String → String → Store m → Bool × Store m
  unfolding change_found
  replace_server_connector_credential id c (memory ss us) =
      let (done, ss') = change_found id (λ old. true) (some c) (find? (has_id id) ss) ss in
      (done, memory ss' us)
  replace_server_connector_credential id c (mongo s u) =
      let (s', matched, modified) = m.servers.update_one (has_id id) (set_credential (some c)) s in
      (matched, mongo s' u)

  unfoldable pub replace_server_connector_credential_if_current :
      String → String → String → Store m → Bool × Store m
  unfolding change_found
  replace_server_connector_credential_if_current id expected c (memory ss us) =
      let (done, ss') =
        change_found id (λ old. opt_eq old (some expected)) (some c) (find? (has_id id) ss) ss in
      (done, memory ss' us)
  replace_server_connector_credential_if_current id expected c (mongo s u) =
      let (s', matched, modified) =
        m.servers.update_one (holds id expected) (set_credential (some c)) s in
      (modified, mongo s' u)
