-- ===== src/Master.antt =====
-- service/master-server-list-service.ts: the catalog of the master list, its application to the stored
-- servers, and the refresh of what each server tells of itself.
pub mod Entry
pub mod Query
pub mod Refresh
pub mod Listed
pub mod Seen
