-- ===== src/Examples.antt =====
-- Concrete services, and the theorems at concrete inputs.
mod Database
mod Server
mod Codec
mod Setting
pub mod Runs
pub mod Streams
pub mod Clients
pub mod Tools
pub mod Fleet
pub mod Rows
pub mod Monitors
