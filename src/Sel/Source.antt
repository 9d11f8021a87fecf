-- ===== src/Sel/Source.antt =====
-- translator/internal/sel/source.go: column references, and the FROM clause.
use mongosql.Expr.Columns.{no_text}
use mongosql.Result.{err, fail, ◌>>=◌, ok, Result}
use Prim.Native.String.{[]}
use mongosql.Prelude.{◌∷◌, some, ◌&&◌, [], ◌++◌, if◌then◌else◌, List, false, not, Bool, none, true}
use mongosql.Bytes.{Bytes, bytes_eq}
use mongosql.Ast.{not_expr, Expr, ColName}
use mongosql.Ast
use mongosql.Sel.Plan.{
  natural_right_join, natural_left_join, right_join, left_join, SourceRef, FieldRef, JoinPlan,
  TableExpr, JoinType, JoinCondition, table, derived, join_table, other_table,
}

unfoldable pub field_ref_from_col_name : ColName → FieldRef
field_ref_from_col_name c = record { source_alias = c.qualifier; parts = c.name ∷ [] }

unfoldable pub field_ref_from_expr : Expr → Result FieldRef
unfolding field_ref_from_col_name
field_ref_from_expr (Ast.col c) = ok (field_ref_from_col_name c)
field_ref_from_expr _ = fail "unsupported select expression: %T"

unfoldable pub source_ref_from_aliased_table : TableExpr → Result SourceRef
source_ref_from_aliased_table (table db name as') = ok (record {
  database = db;
  collection = name;
  alias = if no_text as' then name else as';
  explicit_as = not (no_text as');
})
source_ref_from_aliased_table _ = fail "subqueries in FROM not supported"

-- Which side of the equality belongs to the left source.
unfoldable pub orient : ColName → ColName → Bytes → Bytes → FieldRef × FieldRef
unfolding bytes_eq field_ref_from_col_name
orient lc rc left_alias right_alias =
    let left = field_ref_from_col_name lc in
    let right = field_ref_from_col_name rc in
    if bytes_eq lc.qualifier left_alias && bytes_eq rc.qualifier right_alias
    then (left, right)
    else if bytes_eq rc.qualifier left_alias && bytes_eq lc.qualifier right_alias
    then (right, left)
    else if no_text lc.qualifier && bytes_eq rc.qualifier right_alias
    then (left, right)
    else if no_text rc.qualifier && bytes_eq lc.qualifier right_alias
    then (right, left)
    else (left, right)

unfoldable pub extract_join_on_fields : JoinCondition → Bytes → Bytes → Result (FieldRef × FieldRef)
unfolding orient
extract_join_on_fields none la ra = fail "JOIN requires ON clause"
extract_join_on_fields (some (Ast.comparison Ast.equal_op (Ast.col lc) (Ast.col rc))) la ra =
    ok (orient lc rc la ra)
extract_join_on_fields (some (Ast.comparison Ast.equal_op l r)) la ra =
    fail "JOIN ON must compare two columns for equi-join"
extract_join_on_fields (some e) la ra = fail "not an equi-join"

abbrev pub no_field : FieldRef
no_field = record { source_alias = []; parts = [] }

-- An equi-join where the condition is one, the raw ON expression otherwise.
unfoldable pub plan_join : SourceRef → SourceRef → JoinCondition → Bool → Result JoinPlan
unfolding extract_join_on_fields
plan_join main joined cond outer = elim (extract_join_on_fields cond main.alias joined.alias) [
  | ok (lf, rf) ↦
      ok (record {
        right = joined;
        left_field = lf;
        right_field = rf;
        on_expr = none;
        outer = outer;
      })
  | err e ↦ elim cond [
    | none ↦ fail "JOIN requires ON clause"
    | some on ↦ ok (record {
      right = joined;
      left_field = no_field;
      right_field = no_field;
      on_expr = some on;
      outer = outer;
    })
  ]
]

abbrev is_left : JoinType → Bool
is_left left_join = true
is_left natural_left_join = true
is_left _ = false

abbrev is_right : JoinType → Bool
is_right right_join = true
is_right natural_right_join = true
is_right _ = false

abbrev pub is_aliased : TableExpr → Bool
is_aliased (table db name as') = true
is_aliased (derived as') = true
is_aliased _ = false

-- A join of the sources found on the left with the right source. A RIGHT JOIN swaps the two.
unfoldable pub add_join :
    JoinType
    → SourceRef
    → List JoinPlan
    → SourceRef
    → JoinCondition
    → Result (SourceRef × List JoinPlan)
unfolding plan_join
add_join type left [] right cond =
    if is_right type
    then (do join ← plan_join right left cond true; ok (right, join ∷ []))
    else do join ← plan_join left right cond (is_left type); ok (left, join ∷ [])
add_join type left (j ∷ js) right cond =
    if is_right type
    then fail "RIGHT JOIN with more than two tables is not supported"
    else do join ← plan_join left right cond (is_left type); ok (left, (j ∷ js) ++ join ∷ [])

unfoldable pub extract_from_plan : TableExpr → Result (SourceRef × List JoinPlan)
unfolding add_join source_ref_from_aliased_table
extract_from_plan (join_table type l r cond) = do
  (left, joins) ← extract_from_plan l
  right ←
      if is_aliased r
      then source_ref_from_aliased_table r
      else fail "only simple JOIN of a table is supported, got %T"
  add_join type left joins right cond
extract_from_plan other_table = fail "unsupported FROM clause: %T"
extract_from_plan t = do source ← source_ref_from_aliased_table t; ok (source, [])
