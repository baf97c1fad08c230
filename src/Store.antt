-- ===== src/Store.antt =====
-- src/db/manager-store.ts: servers and users, in MongoDB or, with no collections, in memory
-- (src/db/non-storage-store.ts, whose `write` does nothing and never fails). A call runs to its end
-- before the next one starts. An object read from memory is the stored one, and each caller that
-- changes it passes the change on, so that it is modelled as a copy. `_id` is not part of a document.
pub mod State
pub mod Patch
pub mod Servers
pub mod Credentials
pub mod Users
pub mod Prune
