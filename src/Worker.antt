-- ===== src/Worker.antt =====
-- services/execution-worker/src/index.ts and sandbox.ts
pub mod Verdict
mod Handlers
pub mod Verdicts
pub mod Claims
pub mod Retry
pub mod Possession
pub mod Custody
pub mod Others
pub mod Elsewhere
pub mod Serving
pub mod Payloads
pub mod Rounds
pub mod Chunks
pub mod Termination
pub mod Output
pub mod Collecting
pub mod Sandbox
pub mod Settling
pub mod Kills
pub mod Ending
unfoldable pub use Handlers.*
