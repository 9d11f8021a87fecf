-- ===== src/Sel/Join.antt =====
-- translator/internal/sel/render_aggregate.go: the $lookup stage of a join.
use mongosql.Expr.Columns.{dotted, no_text}
use mongosql.Expr.Convert.{literal_value}
use mongosql.Result.{wrap, ◌>>=◌, ok, fail, Result}
use mongosql.Runtime.{Runtime}
use mongosql.Bytes.{Bytes, str, bytes_eq}
use mongosql.Prelude.{[], ◌++◌, ◌&&◌, ◌∷◌, if◌then◌else◌, not, none, List, some, Option, String}
use mongosql.Ast.{Expr, ColName, CmpOp, BinaryOp}
use mongosql.Ast
use mongosql.Bson.{Value, Fields, bool, text, arr, obj, field, end, m, pair, put, of_list}
use mongosql.Sel.Plan.{JoinPlan, unqualified_path}

-- The binary nodes of an ON expression that collectLeftCols walks.
unfoldable pub collect_left_cols : Expr → Bytes → Bytes → Fields → Fields
unfolding put bytes_eq str
collect_left_cols (Ast.col c) main_alias right_alias vars =
    if bytes_eq c.qualifier right_alias
    then vars
    else put (str "left_" ++ c.name)
        (text (
          b'$'
          ∷ (if not (no_text c.qualifier) && not (bytes_eq c.qualifier main_alias)
              then dotted c.qualifier c.name
              else c.name)))
        vars
collect_left_cols (Ast.comparison op l r) main_alias right_alias vars =
    collect_left_cols r main_alias right_alias (collect_left_cols l main_alias right_alias vars)
collect_left_cols (Ast.and_expr l r) main_alias right_alias vars =
    collect_left_cols r main_alias right_alias (collect_left_cols l main_alias right_alias vars)
collect_left_cols (Ast.or_expr l r) main_alias right_alias vars =
    collect_left_cols r main_alias right_alias (collect_left_cols l main_alias right_alias vars)
collect_left_cols (Ast.binary op l r) main_alias right_alias vars =
    collect_left_cols r main_alias right_alias (collect_left_cols l main_alias right_alias vars)
collect_left_cols _ main_alias right_alias vars = vars

unfoldable pub join_operator : CmpOp → Option String
join_operator Ast.equal_op = some "$eq"
join_operator Ast.not_equal_op = some "$ne"
join_operator Ast.less_than_op = some "$lt"
join_operator Ast.less_equal_op = some "$lte"
join_operator Ast.greater_than_op = some "$gt"
join_operator Ast.greater_equal_op = some "$gte"
join_operator _ = none

unfoldable pub join_arith : BinaryOp → Option String
join_arith Ast.plus_op = some "$add"
join_arith Ast.minus_op = some "$subtract"
join_arith Ast.mult_op = some "$multiply"
join_arith Ast.div_op = some "$divide"
join_arith _ = none

abbrev operate : String → Option String → Value → Value → Result Value
operate why none l r = fail why
operate why (some op) l r = ok (m op (pair l r))

module _ (rt : Runtime) where
  -- A column of the joined source is a field, any other one a `let` variable.
  unfoldable pub translate_join_on_expr : Expr → Bytes → Result Value
  unfolding join_operator join_arith literal_value bytes_eq str
  translate_join_on_expr (Ast.col c) right_alias =
      ok
        (text (if bytes_eq c.qualifier right_alias then b'$' ∷ c.name else str "$$left_" ++ c.name))
  translate_join_on_expr (Ast.comparison op l r) right_alias = do
    left ← translate_join_on_expr l right_alias
    right ← translate_join_on_expr r right_alias
    operate "unsupported ON operator: %s" (join_operator op) left right
  translate_join_on_expr (Ast.and_expr l r) right_alias = do
    left ← translate_join_on_expr l right_alias
    right ← translate_join_on_expr r right_alias
    ok (m "$and" (pair left right))
  translate_join_on_expr (Ast.or_expr l r) right_alias = do
    left ← translate_join_on_expr l right_alias
    right ← translate_join_on_expr r right_alias
    ok (m "$or" (pair left right))
  translate_join_on_expr (Ast.literal type val) right_alias = ok (literal_value rt type val)
  translate_join_on_expr (Ast.binary op l r) right_alias = do
    left ← translate_join_on_expr l right_alias
    right ← translate_join_on_expr r right_alias
    operate "unsupported binary op in ON: %s" (join_arith op) left right
  translate_join_on_expr _ right_alias = fail "unsupported expression in JOIN ON: %T"

  unfoldable pub build_lookup_stage : JoinPlan → Bytes → Result Fields
  unfolding collect_left_cols translate_join_on_expr unqualified_path str
  build_lookup_stage j main_alias = elim j.on_expr [
    | none ↦ ok (
        field (str "$lookup")
          (obj (
            field (str "from") (text j.right.collection) (
              field (str "localField") (text (unqualified_path j.left_field)) (
                field (str "foreignField") (text (unqualified_path j.right_field))
                  (field (str "as") (text j.right.alias) end)))))
          end)
    | some on ↦ (do
      match_expr ← wrap "non-equi JOIN ON: %w" (translate_join_on_expr on j.right.alias)
      ok (
          field (str "$lookup")
            (obj (
              field (str "from") (text j.right.collection) (
                field (str "let") (obj (collect_left_cols on main_alias j.right.alias end)) (
                  field (str "pipeline") (arr (of_list (m "$match" (m "$expr" match_expr) ∷ [])))
                    (field (str "as") (text j.right.alias) end)))))
            end))
  ]

  -- $lookup and $unwind of every join.
  unfoldable pub join_stages : List JoinPlan → Bytes → Result (List Fields)
  unfolding build_lookup_stage str
  join_stages [] main_alias = ok []
  join_stages (j ∷ js) main_alias = do
    lookup_stage ← build_lookup_stage j main_alias
    rest ← join_stages js main_alias
    ok (
        lookup_stage
        ∷ field (str "$unwind")
            (obj (
              field (str "path") (text (b'$' ∷ j.right.alias))
                (field (str "preserveNullAndEmptyArrays") (bool j.outer) end)))
            end
        ∷ rest)
