-- ===== src/Web.antt =====
-- The web client: apps/web/src/hooks, apps/web/src/api and the logic of apps/web/src/App.tsx.
mod Handlers
pub mod History
pub mod App
pub mod Streaming
pub mod Polling
pub mod Entries
unfoldable pub use Handlers.*
