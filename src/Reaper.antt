-- ===== src/Reaper.antt =====
-- services/system-monitor/src/reaper.ts
mod Handlers
pub mod Recovery
pub mod Sweeps
pub mod Scans
pub mod Orphans
pub mod Detection
pub mod Rescue
pub mod Rescued
pub mod Locking
pub mod Turns
unfoldable pub use Handlers.*
