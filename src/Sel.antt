-- ===== src/Sel.antt =====
-- Package translator/internal/sel: SELECT statements, by way of a plan.
pub mod Plan
pub mod Source
pub mod Items
pub mod Limits
pub mod Find
pub mod Join
pub mod Group
pub mod Having
pub mod Aggregate
pub mod Translate
