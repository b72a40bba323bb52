-- ===== src/Contracts.antt =====
-- shared/contracts/src/index.ts: statuses, error categories, payloads, keys and limits.
mod Defs
pub mod Keys
pub mod Transitions
unfoldable pub use Defs.*
