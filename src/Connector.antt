-- ===== src/Connector.antt =====
-- src/service/game-connector-websocket-service.ts: the WebSocket endpoint of the game connector. A
-- session is the state of an authenticated connection, `now` is Date.now().
pub mod Message
pub mod Session
pub mod Credential
pub mod Provision
