-- ===== src/Samples.antt =====
-- Concrete values that the theorems are applied to.
pub mod Go
pub mod Store
mod Filters
mod Texts
mod Schemas
mod Server
mod Statements
