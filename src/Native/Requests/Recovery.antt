-- ===== src/Native/Requests/Recovery.antt =====
-- The credential of a server object after a 401.
use rw_manager_backend.Base.{
  String, Bool, true, false, ◌&&◌, Option, none, some, if◌then◌else◌, ◌≡◌, refl,
}
use rw_manager_backend.Data.Server.{ServerConfig}
use rw_manager_backend.Store.State.{MongoCollections, Store, memory, mongo}
use rw_manager_backend.Store.Servers.{find_server_by_id}
use rw_manager_backend.Store.Credentials.{reset_server_connector_credential}
use rw_manager_backend.Store.Credentials.Views.{reset_found}
use rw_manager_backend.Native.Requests.{after_reset, reset_of, recover}

module _ (m : MongoCollections) where
  -- The credential that a server object has after a 401: in memory a reset takes it from the stored
  -- object.
  abbrev pub remaining :
      (authorized connected shared : Bool) → ServerConfig → Store m → Option String
  remaining authorized connected shared server (memory ss us) =
      if authorized && connected && shared then none else server.connector_credential
  remaining authorized connected shared server (mongo s us) = server.connector_credential

  after_reset-id :
      (shared done : Bool) (server : ServerConfig) (st : Store m)
      → (after_reset m shared done server st).id ≡ server.id
  after_reset-id true true server (memory ss us) = refl
  after_reset-id true false server (memory ss us) = refl
  after_reset-id false done server (memory ss us) = refl
  after_reset-id shared done server (mongo s us) = refl

  reset_of-id :
      (shared : Bool) (server : ServerConfig) (st : Store m) (o : Option String)
      → (reset_of m shared server st o).0.id ≡ server.id
  reset_of-id shared server st none = refl
  reset_of-id shared server st (some c) =
      after_reset-id shared (reset_server_connector_credential m server.id c st).0 server
        (reset_server_connector_credential m server.id c st).1

  pub recover-id :
      (authorized connected shared : Bool) (server : ServerConfig) (st : Store m)
      → (recover m authorized connected shared server st).0.id ≡ server.id
  unfolding recover
  recover-id true true shared server st = reset_of-id shared server st server.connector_credential
  recover-id true false shared server st = refl
  recover-id false connected shared server st = refl

  unshared :
      (done : Bool) (server : ServerConfig) (st : Store m)
      → (after_reset m false done server st).connector_credential ≡ server.connector_credential
  unshared done server (memory ss us) = refl
  unshared done server (mongo s us) = refl

  unshared_mongo :
      (shared : Bool) (server : ServerConfig) (c : String) (s : m.servers.State)
      (us : m.users.State)
      → (reset_of m shared server (mongo s us) (some c)).0.connector_credential
        ≡ server.connector_credential
  unfolding reset_server_connector_credential
  unshared_mongo shared server c s us = refl

  reset_of-remaining :
      (shared : Bool) (server : ServerConfig) (st : Store m) (o : Option String)
      → (shared ≡ true → find_server_by_id m server.id st ≡ some server)
      → server.connector_credential ≡ o
      → (reset_of m shared server st o).0.connector_credential
        ≡ remaining true true shared server st
  unfolding find_server_by_id
  reset_of-remaining true server (memory ss us) none held has = has
  reset_of-remaining true server (memory ss us) (some c) held has =
      rw (reset_found m server.id c ss us server (held refl) has) refl
  reset_of-remaining false server (memory ss us) none held has = refl
  reset_of-remaining false server (memory ss us) (some c) held has =
      unshared (reset_server_connector_credential m server.id c (memory ss us)).0 server
        (reset_server_connector_credential m server.id c (memory ss us)).1
  reset_of-remaining shared server (mongo s us) none held has = refl
  reset_of-remaining shared server (mongo s us) (some c) held has =
      unshared_mongo shared server c s us

  pub recover-remaining :
      (authorized connected shared : Bool) (server : ServerConfig) (st : Store m)
      → (shared ≡ true → find_server_by_id m server.id st ≡ some server)
      → (recover m authorized connected shared server st).0.connector_credential
        ≡ remaining authorized connected shared server st
  unfolding recover
  recover-remaining true true shared server st held =
      reset_of-remaining shared server st server.connector_credential held refl
  recover-remaining true false shared server (memory ss us) held = refl
  recover-remaining true false shared server (mongo s us) held = refl
  recover-remaining false connected shared server (memory ss us) held = refl
  recover-remaining false connected shared server (mongo s us) held = refl
