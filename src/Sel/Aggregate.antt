-- ===== src/Sel/Aggregate.antt =====
-- translator/internal/sel/render_aggregate.go: buildAggregate.
pub mod Columns
use mongosql.Sel.Items.{is_aggregate}
use mongosql.Expr.Columns.{no_text}
use mongosql.Prelude.Int.{pos, ltb_ℤ, is_zero, ℤ}
use mongosql.Result.{wrap, fail, ok, ◌>>=◌, Result}
use mongosql.Expr.Where.{translate_where}
use mongosql.Expr.Agg.{to_agg_expr}
use mongosql.Runtime.{Runtime}
use mongosql.Prelude.{
  none, [], if◌then◌else◌, Bool, ◌&&◌, ◌++◌, ◌||◌, some, true, not, false, ◌∷◌, String, List,
  Option,
}
use mongosql.Bytes.{split_on, replace_byte, Bytes, bytes_eq, str, elem}
use mongosql.Ast.{Expr, ColName}
use mongosql.Ast
use mongosql.Bson.{
  Value, Fields, int, int64, text, arr, obj, field, end, m, pair, triple, put, delete, has, get,
  of_list,
}
use mongosql.Sel.Plan.{
  aggregate_item, expr_item, field_item, SelectItem, SelectPlan, Statement, aggregate_stmt,
}
use mongosql.Sel.Group.{
  distinct_projection, doc, render_col_name, render_field_ref, build_group, agg_result_name,
  agg_default, projected,
}
use mongosql.Sel.Having.{build_having}
use mongosql.Sel.Limits.{direction}
use mongosql.Sel.Join.{join_stages}
use mongosql.Sel.Find.{id_key}
use mongosql.Vitess.{Vitess}

abbrev pub Stages : Type 0
Stages = List Fields

-- `name: "$_id.name"` for each grouping column.
unfoldable pub group_columns : List Expr → Fields → Fields
unfolding put str
group_columns [] project = project
group_columns (Ast.col c ∷ es) project =
    group_columns es (put c.name (text (str "$_id." ++ c.name)) project)
group_columns (e ∷ es) project = group_columns es project

-- The projected aggregates, and their values over no rows.
unfoldable pub aggregate_columns : List SelectItem → Bytes → Fields → Fields → Fields × Fields
unfolding put agg_result_name agg_default distinct_projection
aggregate_columns [] main_alias project defaults = (project, defaults)
aggregate_columns (item ∷ items) main_alias project defaults =
    let name = agg_result_name item main_alias in
    let shown : Value = elim item.agg [ none ↦ int (pos 1) | some a ↦ projected a name ] in
    if is_aggregate item
    then aggregate_columns items main_alias (put name shown project)
        (put name (agg_default item.agg) defaults)
    else aggregate_columns items main_alias project defaults

-- Without grouping columns exactly one row comes out, also of no rows.
unfoldable pub facet_stages : Fields → Fields → Fields → Stages
unfolding str
facet_stages group project defaults =
    doc "$facet"
      (m "__rows" (arr (of_list (m "$group" (obj group) ∷ m "$project" (obj project) ∷ []))))
    ∷ doc "$project" (
        m "__row" (
          m "$cond" (
            triple (m "$gt" (pair (m "$size" (text (str "$__rows"))) (int (pos 0))))
              (m "$arrayElemAt" (pair (text (str "$__rows")) (int (pos 0)))) (obj defaults))))
    ∷ doc "$replaceRoot" (m "newRoot" (text (str "$__row")))
    ∷ []

unfoldable pub group_stages : List Expr → Fields → Fields → Fields → Stages
unfolding facet_stages str
group_stages [] group project defaults = facet_stages group project defaults
group_stages (e ∷ es) group project defaults =
    doc "$group" (obj group) ∷ doc "$project" (obj project) ∷ []

abbrev drop_fields : List Bytes → Fields → Fields
drop_fields [] drop' = drop'
drop_fields (n ∷ ns) drop' = drop_fields ns (put n (int (pos 0)) drop')

-- $match of the HAVING filter, and the removal of what is only there for it.
unfoldable pub having_stages : Fields → List Bytes → Stages
unfolding put str
having_stages filter [] = doc "$match" (obj filter) ∷ []
having_stages filter (n ∷ ns) =
    doc "$match" (obj filter) ∷ doc "$project" (obj (drop_fields (n ∷ ns) end)) ∷ []

abbrev pub no_exprs : List Expr → Bool
no_exprs [] = true
no_exprs (e ∷ es) = false

abbrev pub or_no_exprs : Option (List Expr) → List Expr
or_no_exprs none = []
or_no_exprs (some es) = es

-- The alias of the item with the same text as an ORDER BY expression.
unfoldable pub find_expr_alias : Vitess → Expr → List SelectItem → Bytes
unfolding bytes_eq
find_expr_alias vt e [] = []
find_expr_alias vt e (item ∷ items) =
    if not (no_text item.alias) && bytes_eq (vt.print item.raw_expr) (vt.print e)
    then item.alias
    else find_expr_alias vt e items

unfoldable pub sort_doc :
    Vitess → List (Expr × Bool) → List SelectItem → Bytes → Fields → Result Fields
unfolding find_expr_alias render_col_name put
sort_doc vt [] items main_alias doc' = ok doc'
sort_doc vt ((Ast.col c, desc) ∷ os) items main_alias doc' =
    sort_doc vt os items main_alias (put (render_col_name c main_alias) (direction desc) doc')
sort_doc vt ((e, desc) ∷ os) items main_alias doc' =
    let rest =
      sort_doc vt os items main_alias (put (find_expr_alias vt e items) (direction desc) doc') in
    if no_text (find_expr_alias vt e items)
    then fail "ORDER BY expression must have an alias in SELECT list"
    else rest

unfoldable pub sort_stages : Vitess → List (Expr × Bool) → List SelectItem → Bytes → Result Stages
unfolding sort_doc str
sort_stages vt [] items main_alias = ok []
sort_stages vt (o ∷ os) items main_alias = do
  d ← sort_doc vt (o ∷ os) items main_alias end
  ok (doc "$sort" (obj d) ∷ [])

abbrev positive_stage : String → ℤ → Stages
positive_stage op n = if ltb_ℤ (pos 0) n then doc op (int64 n) ∷ [] else []

unfoldable pub limit_stages : ℤ → ℤ → Stages
unfolding str
limit_stages offset limit = positive_stage "$skip" offset ++ positive_stage "$limit" limit

-- The last part of a dotted path.
unfoldable pub leaf_of : List Bytes → Bytes
leaf_of [] = []
leaf_of (p ∷ []) = p
leaf_of (p ∷ q ∷ ps) = leaf_of (q ∷ ps)

-- The output name of a plain field, before a clash of names is settled.
unfoldable pub output_name : Bytes → Bytes → Bytes
unfolding elem split_on leaf_of
output_name alias path =
    if not (no_text alias)
    then alias
    else if elem b'.' path
    then leaf_of (split_on b'.' path)
    else path

-- Where the name is taken, the whole path with `_` for the dots.
unfoldable pub settled_name : Bytes → Bytes → Fields → Bytes
unfolding output_name get bytes_eq replace_byte
settled_name alias path project =
    let name = output_name alias path in
    if has name project && not (bytes_eq name id_key) then replace_byte b'.' b'_' path else name

unfoldable pub project_field : Bytes → Bytes → Fields → Fields
unfolding settled_name put bytes_eq
project_field alias path project =
    let name = settled_name alias path project in
    put name (if bytes_eq name path then int (pos 1) else text (b'$' ∷ path)) project

module _ (rt : Runtime) (vt : Vitess) where
  -- The final projection, and whether `_id` is asked for.
  unfoldable pub final_fields : List SelectItem → Bytes → Fields → Bool → Result (Fields × Bool)
  unfolding project_field render_field_ref to_agg_expr put settled_name bytes_eq
  final_fields [] main_alias project asked = ok (project, asked)
  final_fields (item ∷ items) main_alias project asked = elim item.kind [
    | field_item ↦ elim item.field [
      | none ↦ fail "nil field in SelectItemField"
      | some f ↦
          let path = render_field_ref f main_alias in
          final_fields items main_alias (project_field item.alias path project)
            (asked || bytes_eq (settled_name item.alias path project) id_key)
    ]
    | expr_item ↦ (do
      v ← wrap "expression projection: %w" (to_agg_expr rt main_alias item.raw_expr)
      let name = if no_text item.alias then vt.print item.raw_expr else item.alias
      final_fields items main_alias (put name v project) asked)
    | aggregate_item ↦ fail "unsupported select expression in aggregate: kind=%s"
  ]

  unfoldable pub final_stages : SelectPlan → List Expr → Bytes → Result Stages
  unfolding final_fields delete str
  final_stages p group_exprs main_alias = elim p.items [
    | [] ↦ ok []
    | item ∷ items ↦ if p.has_agg || not (no_exprs group_exprs) || p.has_star then ok [] else do
      (project, asked) ← final_fields p.items main_alias (field id_key (int (pos 0)) end) false
      ok (doc "$project" (obj (if asked then delete id_key project else project)) ∷ [])
  ]

  -- translateWhereWithMain: the alias of the main source is dropped from the columns first.
  unfoldable pub strip_main : Bytes → ColName → ColName
  unfolding bytes_eq
  strip_main main_alias c =
      if not (no_text c.qualifier) && bytes_eq c.qualifier main_alias
      then record { qualifier = []; name = c.name }
      else c

  unfoldable pub translate_where_with_main : Expr → Bytes → Result Fields
  unfolding strip_main translate_where
  translate_where_with_main e main_alias =
      translate_where rt
        (if no_text main_alias then e else vt.map_columns (strip_main main_alias) e)

  unfoldable pub where_stages : Option Expr → Bytes → Result Stages
  unfolding translate_where_with_main str
  where_stages none main_alias = ok []
  where_stages (some e) main_alias = do
    filter ← translate_where_with_main e main_alias
    ok (doc "$match" (obj filter) ∷ [])

  unfoldable pub having_or_not :
      Option Expr → List Expr → List SelectItem → Fields → Fields → Fields → Bytes → Result Stages
  unfolding build_having group_stages having_stages
  having_or_not none group_exprs items group project defaults main_alias =
      ok (group_stages group_exprs group project defaults)
  having_or_not (some having) group_exprs items group project defaults main_alias = do
    (filter, s) ← build_having rt vt having items group project defaults main_alias
    ok (group_stages group_exprs s.group s.project s.defaults ++ having_stages filter s.having_only)

  -- GROUP BY, the aggregates and HAVING.
  unfoldable pub grouping_stages : SelectPlan → List Expr → Bytes → Result Stages
  unfolding build_group group_columns aggregate_columns having_or_not
  grouping_stages p group_exprs main_alias =
      if p.has_agg || not (no_exprs group_exprs)
      then (do
        group ← build_group rt group_exprs p.items main_alias
        let start = group_columns group_exprs (field id_key (int (pos 0)) end)
        let (project, defaults) = aggregate_columns p.items main_alias start end
        having_or_not p.raw.having group_exprs p.items group project defaults main_alias)
      else ok []

  -- The pipeline of build, in its order.
  unfoldable pub aggregate_pipeline : SelectPlan → Result Stages
  unfolding join_stages where_stages grouping_stages sort_stages limit_stages final_stages
  aggregate_pipeline p = do
    let main_alias = p.main_source.alias
    let group_exprs = or_no_exprs p.raw.group_by
    joins ← join_stages rt p.joins main_alias
    where' ← where_stages p.raw.where_expr main_alias
    grouping ← grouping_stages p group_exprs main_alias
    sorting ← sort_stages vt p.raw.order_by p.items main_alias
    final ← final_stages p group_exprs main_alias
    ok (joins ++ (where' ++ (grouping ++ (sorting ++ (limit_stages p.offset p.limit ++ final)))))

  abbrev aggregate_of : SelectPlan → Stages → Bool → Statement
  aggregate_of p stages empty' =
      aggregate_stmt
        (record { collection = p.main_source.collection; pipeline = stages; empty = empty' })

  unfoldable pub build_aggregate : SelectPlan → Result Statement
  unfolding aggregate_pipeline
  build_aggregate p =
      if p.has_limit && is_zero p.limit
      then ok (aggregate_of p [] true)
      else do stages ← aggregate_pipeline p; ok (aggregate_of p stages false)
