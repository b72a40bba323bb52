-- ===== src/Jobs.antt =====
-- The database statements and the dead letter queue that the worker and the system monitor share
-- (services/execution-worker/src/index.ts, services/system-monitor/src/reaper.ts).
mod Statements
pub mod Places
pub mod Results
pub mod Bystanders
pub mod Rollbacks
pub mod Queues
pub mod Updates
unfoldable pub use Statements.*
