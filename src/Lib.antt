-- ===== src/Lib.antt =====
-- A model of rw-manager-backend, the server manager of a game, written in TypeScript.
--
-- The parts, and the files that model them:
--   Base      JavaScript's array and string methods, and computations that throw (Base/Monad)
--   Data      the records of interfaces/, and JSON values (Data/Value)
--   Driver    the MongoDB driver: an interface of the calls that the program makes, with laws
--   Store     db/manager-store.ts: servers, users, connector credentials and pruning. A store is
--             the arrays in memory or two collections of the driver (Store/State); each operation
--             has a clause for either, and the `Views` modules say what both do to the lists
--   Config    utils/app-config.ts: settings from the environment
--   Storage   service/storage-service.ts, can-admin-server-service.ts and the mappers
--   Connector service/game-connector-websocket-service.ts and game-connector-credential-service.ts
--   Auth      service/auth-service.ts, auth-token-service.ts and utils/normalize-steam-id.ts
--   Players   service/observed-player-service.ts
--   Scheduler service/manager-refresh-scheduler.ts: a refresh loop as a step relation
--   Heartbeat service/websocket-heartbeat-service.ts: a round over the sockets
--   Live      service/server-live-status-service.ts, server-live-update-service.ts and
--             server-status-live-service.ts: Live/Service the status of a server and its cache,
--             Live/Changes and Live/Updates what subscribers are sent, Live/Subscribe their messages
--   Master    service/master-server-list-service.ts: Master/Entry an entry applied to a server,
--             Master/Query what a server tells, Master/Refresh the whole refresh
--   Native    service/native-plugin-request-service.ts, native-plugin-list.ts and
--             native-admin-utils-info.ts
--   Plugin    service/server-plugin-data-service.ts, plugin-data-cache-service.ts and
--             player-map-history-service.ts: Plugin/Values what the plugins tell, Plugin/Cache its
--             cache, Plugin/History the map of a player
--   OpenId    service/steam-openid-service.ts, as the steps before and after the request to Steam
--   Statistics db/server-statistics-store.ts and service/server-statistics-service.ts
--   Tests     concrete stores, requests and connections
-- Paths are from the folder src/ of the repository. A function keeps its name, in snake case.
--
-- The services call the store; a call of the store is one step on its state, and an `await`
-- between two calls lets no other request in. The sequences of calls in Store/Credentials/History
-- are interleavings of whole store calls. What is random or reads the clock is an argument: new
-- ids, salts, initialization vectors and the time. Dates are milliseconds.
--
-- Parameters are the code of others: the driver, URL parsing and fetch (Storage/Access.Web), the
-- cipher, addresses and UTF-16 lengths (Connector), password hashes, lower case and the encodings
-- of a token (Auth). Laws of a parameter stand with it, or are hypotheses of the theorem.
--
-- All recursion is on lists and strings, but for the search of a free name (Auth/Steam), which has
-- one turn more than there are users, and ends in time, and for the pages of a map (Plugin/History),
-- of which the source reads at most max_pages.
--
-- Live, Master and Statistics work together: a refresh reads and saves a server by the store, adds a
-- sample to the statistics and publishes an update, which the subscribers are sent as changes. A
-- response of a remote server is an argument of the call that asks for it. In memory a server that
-- is found is the stored object, and its changes are stored at once (Live/Service.write_through).
-- A request to a plugin says whether the object that it is given is the stored one (`shared` in
-- Native/Requests), since a reset of the credential in memory is then seen in it.
--
-- Not modelled: sockets, timers and HTTP routes, requests in flight at the same time but for those of
-- OpenId, plugin releases, map layers and live maps, Steam's profiles, the migration of old data,
-- and logging.
pub mod Base
pub mod Data
pub mod Driver
pub mod Store
pub mod Config
pub mod Storage
pub mod Connector
pub mod Auth
pub mod Players
pub mod Plugin
pub mod Scheduler
pub mod Heartbeat
pub mod Live
pub mod Master
pub mod Native
pub mod OpenId
pub mod Statistics
pub mod Tests
