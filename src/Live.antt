-- ===== src/Live.antt =====
-- The live status of servers: what is stored of it, and the WebSocket service that sends it on.
pub mod Response
pub mod Changes
pub mod Updates
pub mod Subscribe
pub mod Status
pub mod Service
