-- ===== src/Storage.antt =====
-- src/service/storage-service.ts and src/mapper: the routes' operations on servers and users.
-- HTTP, URLs and the clock are arguments; a call runs to its end before the next one starts.
pub mod Mapper
pub mod Access
pub mod Edit
pub mod Pins
pub mod Admin
