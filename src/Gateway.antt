-- ===== src/Gateway.antt =====
-- services/api-gateway/src/routes/submissions.ts and index.ts
mod Handlers
pub mod Registry
pub mod Sets
pub mod Registrations
pub mod Sizes
pub mod Sockets
pub mod Deliveries
pub mod Replays
pub mod Connections
pub mod Reached
pub mod Routes
pub mod Removals
pub mod Stored
pub mod Readings
pub mod Listings
pub mod Answers
pub mod Submissions
pub mod Pages
pub mod Access
unfoldable pub use Handlers.*
