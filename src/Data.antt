-- ===== src/Data.antt =====
-- The data of the program: `unknown` values, players, servers and users (interfaces/*.ts).
pub mod Value
pub mod Player
pub mod Server
pub mod User
