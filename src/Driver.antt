-- ===== src/Driver.antt =====
-- Package driver: the schemas of tables, and what they add to a write.
pub mod Exec
pub mod Schema
