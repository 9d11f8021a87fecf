-- ===== src/Expr.antt =====
-- Package translator/internal/expr: SQL expressions to Go values, Mongo filters and aggregation
-- expressions.
pub mod Number
pub mod Convert
pub mod Slice
pub mod Like
pub mod Func
pub mod Eval
pub mod Columns
pub mod AggFunc
pub mod Agg
pub mod Where
