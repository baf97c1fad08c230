-- ===== src/Store/State.antt =====
-- The state of the store: the collections of src/db/mongodb.ts, or the arrays in memory.
use rw_manager_backend.Base.{List}
use rw_manager_backend.Data.Server.{ServerConfig}
use rw_manager_backend.Data.User.{DbUser}
use rw_manager_backend.Driver.{Collection}

pub record MongoCollections : Type 1 where
  pub servers : Collection ServerConfig
  pub users : Collection DbUser

module _ (m : MongoCollections) where
  -- What `getMongoCollections()` decides: `memory` where it returns undefined.
  pub data Store : Type 0 where
    memory : List ServerConfig → List DbUser → Store
    mongo : m.servers.State → m.users.State → Store

  -- The servers and users that a backend holds, in its order.
  abbrev pub servers_of : Store → List ServerConfig
  servers_of (memory ss us) = ss
  servers_of (mongo s u) = m.servers.docs s

  abbrev pub users_of : Store → List DbUser
  users_of (memory ss us) = us
  users_of (mongo s u) = m.users.docs u
