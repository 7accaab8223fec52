-- ===== src/Database.antt =====
-- The database layer: src/infrastructure/database.
pub mod Text
pub mod Mapper
pub mod Oracle
pub mod Pools
pub mod Queries
pub mod Settings
