-- ===== src/Server.antt =====
-- server/src: the backend.
pub mod Db
pub mod Sql
pub mod Select
pub mod Query
pub mod SqliteStore
pub mod Moderation
pub mod Jetstream
pub mod Invariant
pub mod Startup
