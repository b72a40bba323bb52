-- ===== src/System.antt =====
-- The services together: services/execution-worker, services/system-monitor and services/api-gateway
-- on the same database and the same Redis server.
pub mod Bystanding
pub mod Bootstraps
pub mod Histories
pub mod Backlogs
pub mod Lifetimes
pub mod Crashes
pub mod Interleavings
pub mod Commits
pub mod Records
pub mod Provenance
pub mod Exclusion
