-- ===== src/Plugin.antt =====
-- What the plugins of a game server tell: the players, the cache, and the map history of a player.
pub mod Players
pub mod Values
pub mod Cache
pub mod History
