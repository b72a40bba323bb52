-- ===== src/Services.antt =====
-- What the services are to each other: the PostgreSQL tables (infra/schema.sql), the Redis server
-- and the JSON codec, none of them code of the repository, as parameters with the laws that the
-- code relies on.
mod Tables
mod Server
mod Runtime
pub mod Effects
pub mod Triples
pub mod Transactions
pub mod Keeping
unfoldable pub use Tables.*
unfoldable pub use Server.*
unfoldable pub use Runtime.*
