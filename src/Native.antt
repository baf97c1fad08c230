-- ===== src/Native.antt =====
-- The plugins of a game server: the list of them, the requests to their routes, and what the admin
-- tools tell.
pub mod Requests
pub mod Plugins
pub mod AdminInfo
