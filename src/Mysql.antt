-- ===== src/Mysql.antt =====
-- The MySQL side of the program: mysql/*.go.
pub mod Alter
pub mod Comments
pub mod Ddl
pub mod Define
pub mod Handler
pub mod Meta
pub mod Result
pub mod Scan
pub mod Sessions
pub mod Show
pub mod Syntax
pub mod System
