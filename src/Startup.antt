-- ===== src/Startup.antt =====
-- services/system-monitor/src/index.ts: recoverOrphanedJobsOnStartup.
mod Handlers
pub mod Recovery
unfoldable pub use Handlers.*
