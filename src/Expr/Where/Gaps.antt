-- ===== src/Expr/Where/Gaps.antt =====
-- translator/internal/expr/expr.go: the filters of IN and NOT IN, and null columns.
use mongosql.Expr.Where.{
  translate_where, translate_comparison, column_comparison, expr_op_to_mongo, negate_comparison_op,
  condition,
}
use mongosql.Expr.Eval.{value}
use mongosql.Expr.Columns.{col_name}
use mongosql.Result.{ok}
use mongosql.Runtime.{Runtime}
use mongosql.Prelude.{◌≡◌, true, arith}
use mongosql.Ast.{Expr, Exprs, ColName}
use mongosql.Ast
use mongosql.Bson.{Values, Fields, arr, is_nil}
use mongosql.Mongo.{Mongo, is_plain, no_null}

-- NOT (c IN (...)), with values that are not null, matches every row on which the column c, of a
-- plain name, is null or missing, where MySQL's condition is
-- unknown and drops the row.
pub not_in-null :
    (rt : Runtime) (mongo : Mongo) (c : ColName) (es : Exprs) (vs : Values) (d : mongo.Doc)
    → value rt (Ast.val_tuple es) ≡ ok (arr vs)
    → no_null vs ≡ true
    → is_plain (col_name c) ≡ true
    → is_nil (mongo.look_up d (col_name c)) ≡ true
    → (f : Fields) × (translate_where rt
          (Ast.not_expr (Ast.comparison Ast.in_op (Ast.col c) (Ast.val_tuple es)))
        ≡ ok f)
      × (mongo.matches f d ≡ true)
unfolding translate_where translate_comparison column_comparison expr_op_to_mongo
    negate_comparison_op
not_in-null rt mongo c es vs d e n p z = (
  condition (col_name c) "$nin" (arr vs),
  ground (arith, e),
  ground
      (arith, mongo.matches_nin (col_name c) (arr vs) d, mongo.matches_in_null (col_name c) vs d),
)
