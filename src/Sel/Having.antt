-- ===== src/Sel/Having.antt =====
-- translator/internal/sel/render_aggregate.go: buildHaving.
use mongosql.Result.{ok, ◌>>=◌, Result}
use mongosql.Sel.Items.{is_aggregate, is_agg_expr, plan_agg_spec}
use mongosql.Expr.Number.{decimal}
use mongosql.Expr.Where.{translate_where}
use mongosql.Runtime.{Runtime}
use mongosql.Bytes.{Bytes, str, bytes_eq}
use mongosql.Prelude.{length, ℕ, [], ◌++◌, some, Option, ◌∷◌, if◌then◌else◌, none, List}
use mongosql.Ast.{Expr, ColName}
use mongosql.Ast
use mongosql.Bson.{Fields, put, obj}
use mongosql.Sel.Plan.{SelectItem}
use mongosql.Sel.Group.{
  distinct_projection, accumulator_for, agg_default, agg_result_name, projected,
}
use mongosql.Vitess.{Vitess}

-- What the walk over HAVING extends: the three documents, the names of the aggregates by their
-- text, and the names that are only there for HAVING.
pub record HavingState : Type 0 where
  pub group : Fields
  pub project : Fields
  pub defaults : Fields
  pub names : List (Bytes × Bytes)
  pub having_only : List Bytes

unfoldable pub name_of : Bytes → List (Bytes × Bytes) → Option Bytes
unfolding bytes_eq
name_of key [] = none
name_of key ((k, name) ∷ r) = if bytes_eq k key then some name else name_of key r

-- The map from the text of a selected aggregate to its output field: a later item wins.
unfoldable pub selected_names :
    Vitess → List SelectItem → Bytes → List (Bytes × Bytes) → List (Bytes × Bytes)
unfolding agg_result_name
selected_names vt [] main_alias names = names
selected_names vt (item ∷ items) main_alias names = selected_names vt items main_alias (
    if is_aggregate item
    then (vt.print item.raw_expr, agg_result_name item main_alias) ∷ names
    else names)

-- `__hv_%d`
unfoldable pub hidden_name : ℕ → Bytes
unfolding str decimal
hidden_name counter = str "__hv_" ++ decimal 20 counter []

module _ (rt : Runtime) (vt : Vitess) where
  -- The callback on one aggregate node.
  unfoldable pub having_node : Bytes → HavingState → Expr → Result HavingState
  unfolding name_of plan_agg_spec accumulator_for agg_default hidden_name put distinct_projection
  having_node main_alias s e = elim (name_of (vt.print e) s.names) [
    | some name ↦ ok s
    | none ↦ (do
      spec ← plan_agg_spec rt e
      let name = hidden_name (length s.having_only)
      acc ← accumulator_for rt spec main_alias
      ok (record {
        group = put name (obj acc) s.group;
        project = put name (projected spec name) s.project;
        defaults = put name (agg_default (some spec)) s.defaults;
        names = (vt.print e, name) ∷ s.names;
        having_only = s.having_only ++ name ∷ [];
      }))
  ]

  unfoldable pub having_nodes : Bytes → HavingState → List Expr → Result HavingState
  unfolding having_node
  having_nodes main_alias s [] = ok s
  having_nodes main_alias s (e ∷ es) = do
    s' ← having_node main_alias s e
    having_nodes main_alias s' es

  -- The column that stands for an aggregate.
  abbrev output_column : List (Bytes × Bytes) → Expr → Expr
  output_column names e = elim (name_of (vt.print e) names) [
    | some name ↦ Ast.col (record { qualifier = []; name = name })
    | none ↦ e
  ]

  -- The filter, and the documents that the walk has extended.
  unfoldable pub build_having :
      Expr → List SelectItem → Fields → Fields → Fields → Bytes → Result (Fields × HavingState)
  unfolding selected_names having_nodes translate_where is_agg_expr
  build_having having items group project defaults main_alias = do
    let start : HavingState = record {
      group = group;
      project = project;
      defaults = defaults;
      names = selected_names vt items main_alias [];
      having_only = [];
    }
    s ← having_nodes main_alias start (vt.visit (is_agg_expr rt) having)
    filter ← translate_where rt (vt.replace (is_agg_expr rt) (output_column s.names) having)
    ok (filter, s)
