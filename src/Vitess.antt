-- ===== src/Vitess.antt =====
-- The vitess SQL parser (vitess.io/vitess/go/vt/sqlparser), which is no part of the repository:
-- the functions on syntax trees that the translator calls.
use mongosql.Prelude.{Bool, List}
use mongosql.Bytes.{Bytes}
use mongosql.Ast.{Expr, ColName}

pub record Vitess : Type 0 where
  -- sqlparser.String
  pub print : Expr → Bytes
  -- sqlparser.Rewrite with a callback that changes each column reference in place.
  pub map_columns : (ColName → ColName) → Expr → Expr
  -- sqlparser.Rewrite with a callback that replaces the nodes of a test and does not go below
  -- them: the nodes that it meets, in the order of the visit, and the tree with the replacements.
  pub visit : (Expr → Bool) → Expr → List Expr
  pub replace : (Expr → Bool) → (Expr → Expr) → Expr → Expr
