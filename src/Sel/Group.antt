-- ===== src/Sel/Group.antt =====
-- translator/internal/sel/render_aggregate.go: the $group stage, and HAVING.
use mongosql.Sel.Items.{is_aggregate}
use mongosql.Sel.Find.{id_key}
use mongosql.Expr.Columns.{dotted, no_text}
use mongosql.Prelude.Int.{pos}
use mongosql.Result.{fail, map_ok, wrap, ok, ◌>>=◌, Result}
use mongosql.Expr.Agg.{to_agg_expr}
use mongosql.Runtime.{Runtime}
use mongosql.Prelude.{
  List, ◌||◌, [], ◌++◌, ◌&&◌, some, ◌∷◌, if◌then◌else◌, not, none, String, Option,
}
use mongosql.Bytes.{str, bytes_eq, Bytes}
use mongosql.Ast.{Expr, ColName}
use mongosql.Ast
use mongosql.Bson.{Value, Fields, null, int, int64, text, obj, field, end, m, pair, triple, put}
use mongosql.Sel.Plan.{AggFunc, AggSpec, FieldRef, SelectItem, unqualified_path}

unfoldable pub render_col_name : ColName → Bytes → Bytes
unfolding bytes_eq
render_col_name c main_alias =
    if no_text c.qualifier
    then c.name
    else if bytes_eq c.qualifier main_alias
    then c.name
    else dotted c.qualifier c.name

unfoldable pub render_field_ref : FieldRef → Bytes → Bytes
unfolding bytes_eq unqualified_path
render_field_ref f main_alias =
    if no_text f.source_alias || bytes_eq f.source_alias main_alias
    then unqualified_path f
    else dotted f.source_alias (unqualified_path f)

-- strings.ToLower of the function's name.
unfoldable pub agg_op_name : AggFunc → Bytes
unfolding str
agg_op_name AggFunc.count = str "count"
agg_op_name AggFunc.sum = str "sum"
agg_op_name AggFunc.avg = str "avg"
agg_op_name AggFunc.min = str "min"
agg_op_name AggFunc.max = str "max"

unfoldable pub agg_arg : AggSpec → Bytes → Bytes
unfolding render_field_ref
agg_arg a main_alias =
    if a.star
    then b'*' ∷ []
    else elim a.arg [ none ↦ b'*' ∷ [] | some f ↦ render_field_ref f main_alias ]

unfoldable pub agg_result_name : SelectItem → Bytes → Bytes
unfolding agg_op_name agg_arg str bytes_eq
agg_result_name item main_alias = if not (no_text item.alias) then item.alias else elim item.agg [
  | none ↦ str "value"
  | some a ↦
      let op = agg_op_name a.func in
      if a.star then op ++ str "_star" else elim a.arg_expr [
        | some e ↦ op ++ str "_expr"
        | none ↦
            let name = agg_arg a main_alias in
            if bytes_eq name (b'*' ∷ []) then op ++ str "_star" else op ++ (b'_' ∷ name)
      ]
]

-- aggDefault: what MySQL gives for an aggregate over no rows.
unfoldable pub agg_default : Option AggSpec → Value
agg_default none = null
agg_default (some a) = elim a.func [ AggFunc.count ↦ int64 (pos 0) | _ ↦ null ]

unfoldable pub distinct_projection : AggFunc → Bytes → Value
unfolding str
distinct_projection f name =
    let set = m "$filter" (
      obj (
        field (str "input") (text (b'$' ∷ name)) (
          field (str "as") (text (str "v"))
            (field (str "cond") (m "$ne" (pair (text (str "$$v")) null)) end)))) in
    elim f [
      | AggFunc.sum ↦ m "$sum" set
      | AggFunc.avg ↦ m "$avg" set
      | AggFunc.min ↦ m "$min" set
      | AggFunc.max ↦ m "$max" set
      | AggFunc.count ↦ m "$size" set
    ]

abbrev pub doc : String → Value → Fields
doc op v = field (str op) v end

-- COUNT(col) counts the values that are not null.
unfoldable pub count_non_null : Value → Value
unfolding str
count_non_null v =
    m "$cond" (triple (m "$eq" (pair (m "$ifNull" (pair v null)) null)) (int (pos 0)) (int (pos 1)))

module _ (rt : Runtime) where
  unfoldable pub agg_arg_value : AggSpec → Bytes → Result Value
  unfolding to_agg_expr render_field_ref
  agg_arg_value a main_alias = if a.star then ok null else elim a.arg_expr [
    | some e ↦ wrap "aggregate %s argument: %w" (to_agg_expr rt main_alias e)
    | none ↦ elim a.arg [
      | some f ↦ ok (text (b'$' ∷ render_field_ref f main_alias))
      | none ↦ ok null
    ]
  ]

  unfoldable pub accumulator_for : AggSpec → Bytes → Result Fields
  unfolding agg_arg_value count_non_null str
  accumulator_for a main_alias = do
    v ← agg_arg_value a main_alias
    ok (
        if a.distinct && not a.star then doc "$addToSet" v else elim a.func [
          | AggFunc.count ↦ doc "$sum" (if a.star then int (pos 1) else count_non_null v)
          | AggFunc.sum ↦ doc "$sum" v
          | AggFunc.avg ↦ doc "$avg" v
          | AggFunc.min ↦ doc "$min" v
          | AggFunc.max ↦ doc "$max" v
        ])

  -- The document of the grouping columns.
  unfoldable pub group_id_doc : List Expr → Bytes → Fields → Result Fields
  unfolding render_col_name put
  group_id_doc [] main_alias id = ok id
  group_id_doc (Ast.col c ∷ es) main_alias id =
      group_id_doc es main_alias (put c.name (text (b'$' ∷ render_col_name c main_alias)) id)
  group_id_doc (e ∷ es) main_alias id = fail "GROUP BY supports column references only"

  unfoldable pub group_id : List Expr → Bytes → Result Value
  unfolding group_id_doc
  group_id [] main_alias = ok null
  group_id (e ∷ es) main_alias = map_ok obj (group_id_doc (e ∷ es) main_alias end)

  unfoldable pub group_accumulators : List SelectItem → Bytes → Fields → Result Fields
  unfolding accumulator_for agg_result_name put
  group_accumulators [] main_alias group = ok group
  group_accumulators (item ∷ items) main_alias group =
      let step : Result Fields = elim item.agg [
        | none ↦ ok group
        | some a ↦
            map_ok (λ acc. put (agg_result_name item main_alias) (obj acc) group)
              (accumulator_for a main_alias)
      ] in
      if is_aggregate item
      then (do g ← step; group_accumulators items main_alias g)
      else group_accumulators items main_alias group

  unfoldable pub build_group : List Expr → List SelectItem → Bytes → Result Fields
  unfolding group_id group_accumulators
  build_group group_exprs items main_alias = do
    id ← group_id group_exprs main_alias
    group_accumulators items main_alias (field id_key id end)

-- `project[name]` of a selected or a HAVING aggregate.
abbrev pub projected : AggSpec → Bytes → Value
projected a name = if a.distinct && not a.star then distinct_projection a.func name else int (pos 1)
