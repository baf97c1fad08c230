-- ===== src/Tests.antt =====
-- Concrete stores, requests and connections, and the theorems at them.
mod Fixtures
mod StoreRuns
mod StorageRuns
mod ConnectorRuns
mod AuthRuns
mod SteamRuns
mod SchedulerRuns
mod HeartbeatRuns
mod LiveRuns
mod NativeRuns
mod StatisticsRuns
mod MasterRuns
mod OpenIdRuns
mod PluginRuns
