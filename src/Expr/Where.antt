-- ===== src/Expr/Where.antt =====
-- translator/internal/expr/expr.go: TranslateWhere, negateWhere and translateComparison.
mod Leaf
pub mod Sound
pub mod Gaps
use mongosql.Expr.Eval.{value}
use mongosql.Expr.Like.{like_to_regex}
use mongosql.Expr.Agg.{string_literal, to_agg_expr}
use mongosql.Result.{wrap, ok, fail, map_ok, ◌>>=◌, Result}
use mongosql.Expr.Columns.{col_name}
use mathlib.Core.Bool.{not, false, true}
use mongosql.Bytes.{str, Bytes}
use Prim.Native.String.{[], String}
use mongosql.Runtime.{Runtime}
use mongosql.Prelude.{
  not, [], false, ◌&&◌, ◌∷◌, none, if◌then◌else◌, true, some, Bool, String, Option,
}
use mongosql.Ast.{Expr, ColName, CmpOp, IsOp}
use mongosql.Ast
use mongosql.Bson.{
  is_nil, Value, Fields, null, bool, text, regex, arr, obj, m, pair, of_list, end, field,
}

-- exprOpToMongo: `none` is the empty string.
unfoldable pub expr_op_to_mongo : CmpOp → Option String
expr_op_to_mongo Ast.equal_op = some "$eq"
expr_op_to_mongo Ast.null_safe_equal_op = some "$eq"
expr_op_to_mongo Ast.not_equal_op = some "$ne"
expr_op_to_mongo Ast.less_than_op = some "$lt"
expr_op_to_mongo Ast.less_equal_op = some "$lte"
expr_op_to_mongo Ast.greater_than_op = some "$gt"
expr_op_to_mongo Ast.greater_equal_op = some "$gte"
expr_op_to_mongo _ = none

unfoldable pub negate_comparison_op : CmpOp → Option CmpOp
negate_comparison_op Ast.equal_op = some Ast.not_equal_op
negate_comparison_op Ast.not_equal_op = some Ast.equal_op
negate_comparison_op Ast.less_than_op = some Ast.greater_equal_op
negate_comparison_op Ast.less_equal_op = some Ast.greater_than_op
negate_comparison_op Ast.greater_than_op = some Ast.less_equal_op
negate_comparison_op Ast.greater_equal_op = some Ast.less_than_op
negate_comparison_op Ast.in_op = some Ast.not_in_op
negate_comparison_op Ast.not_in_op = some Ast.in_op
negate_comparison_op Ast.like_op = some Ast.not_like_op
negate_comparison_op Ast.not_like_op = some Ast.like_op
negate_comparison_op Ast.regexp_op = some Ast.not_regexp_op
negate_comparison_op Ast.not_regexp_op = some Ast.regexp_op
negate_comparison_op Ast.null_safe_equal_op = none

unfoldable pub negate_is_op : IsOp → IsOp
negate_is_op Ast.is_null_op = Ast.is_not_null_op
negate_is_op Ast.is_not_null_op = Ast.is_null_op
negate_is_op Ast.is_true_op = Ast.is_not_true_op
negate_is_op Ast.is_not_true_op = Ast.is_true_op
negate_is_op Ast.is_false_op = Ast.is_not_false_op
negate_is_op Ast.is_not_false_op = Ast.is_false_op

abbrev pub as_col : Expr → Option ColName
as_col (Ast.col c) = some c
as_col _ = none

-- A literal, TRUE, FALSE or NULL.
abbrev pub is_const : Expr → Bool
is_const (Ast.literal type val) = true
is_const (Ast.bool_val b) = true
is_const Ast.null_val = true
is_const _ = false

abbrev pub is_col : Expr → Bool
is_col e = elim (as_col e) [ some c ↦ true | none ↦ false ]

-- `{field: {op: v}}`
abbrev pub condition : Bytes → String → Value → Fields
condition path op v = field path (m op v) end

-- `{op: [a, b]}`
abbrev pub junction : String → Fields → Fields → Fields
junction op a b = field (str op) (pair (obj a) (obj b)) end

abbrev pub not_equal_filter : Bytes → Value → Fields
not_equal_filter path v =
    if is_nil v
    then condition path "$ne" null
    else junction "$and" (condition path "$ne" v) (condition path "$ne" null)

abbrev like_regex : Bytes → Value
like_regex pattern' = regex (like_to_regex pattern') (str "i")

-- The switch of translateComparison, where the left side is the column at `path`.
unfoldable pub column_comparison : CmpOp → Bytes → Result Value → Expr → Result Fields
unfolding str like_to_regex
column_comparison Ast.equal_op path right e = map_ok (condition path "$eq") right
column_comparison Ast.null_safe_equal_op path right e = map_ok (condition path "$eq") right
column_comparison Ast.not_equal_op path right e = map_ok (not_equal_filter path) right
column_comparison Ast.less_than_op path right e = map_ok (condition path "$lt") right
column_comparison Ast.less_equal_op path right e = map_ok (condition path "$lte") right
column_comparison Ast.greater_than_op path right e = map_ok (condition path "$gt") right
column_comparison Ast.greater_equal_op path right e = map_ok (condition path "$gte") right
column_comparison Ast.in_op path right e = map_ok (condition path "$in") right
column_comparison Ast.not_in_op path right e = map_ok (condition path "$nin") right
column_comparison Ast.like_op path right e = elim (string_literal e) [
  | some p ↦ ok (field path (like_regex p) end)
  | none ↦ fail "LIKE right side must be a string literal"
]
column_comparison Ast.not_like_op path right e = elim (string_literal e) [
  | some p ↦ ok (condition path "$not" (like_regex p))
  | none ↦ fail "NOT LIKE right side must be a string literal"
]
column_comparison Ast.regexp_op path right e = elim (string_literal e) [
  | some p ↦ ok (condition path "$regex" (text p))
  | none ↦ fail "REGEXP right side must be a string literal"
]
column_comparison Ast.not_regexp_op path right e = elim (string_literal e) [
  | some p ↦ ok (condition path "$not" (m "$regex" (text p)))
  | none ↦ fail "NOT REGEXP right side must be a string literal"
]

abbrev pub between_filter : Bytes → Bool → Value → Value → Fields
between_filter path true from to =
    field path (obj (field (str "$gte") from (field (str "$lte") to end))) end
between_filter path false from to =
    junction "$or" (condition path "$lt" from) (condition path "$gt" to)

unfoldable pub is_filter : Bytes → IsOp → Fields
is_filter path Ast.is_null_op = condition path "$eq" null
is_filter path Ast.is_not_null_op = condition path "$ne" null
is_filter path Ast.is_true_op = condition path "$eq" (bool true)
is_filter path Ast.is_not_true_op = condition path "$ne" (bool true)
is_filter path Ast.is_false_op = condition path "$eq" (bool false)
is_filter path Ast.is_not_false_op = condition path "$ne" (bool false)

abbrev pub nor_filter : Fields → Fields
nor_filter inner = field (str "$nor") (arr (of_list (obj inner ∷ []))) end

module _ (rt : Runtime) where
  -- The `$expr` form of a comparison, for sides that are not a column and a constant.
  unfoldable pub expr_comparison : String → Expr → Expr → Result Fields
  unfolding to_agg_expr
  expr_comparison op l r = do
    left ← wrap "comparison left: %w" (to_agg_expr rt [] l)
    right ← wrap "comparison right: %w" (to_agg_expr rt [] r)
    ok (field (str "$expr") (m op (pair left right)) end)

  unfoldable pub translate_comparison : CmpOp → Expr → Expr → Result Fields
  unfolding expr_op_to_mongo expr_comparison column_comparison col_name value
  translate_comparison op l r =
      let plain : Result Fields = elim (as_col l) [
        | some c ↦ column_comparison op (col_name c) (value rt r) r
        | none ↦ fail "comparison left side must be a column, got %T"
      ] in
      elim (expr_op_to_mongo op) [
        | none ↦ plain
        | some mongo_op ↦ if is_col l && is_const r then plain else expr_comparison mongo_op l r
      ]

  unfoldable pub translate_between : Bool → Expr → Expr → Expr → Result Fields
  unfolding col_name value
  translate_between is_between e from to = elim (as_col e) [
    | none ↦ fail "BETWEEN left side must be a column"
    | some c ↦ (do
      low ← value rt from
      high ← value rt to
      ok (between_filter (col_name c) is_between low high))
  ]

  unfoldable pub translate_is : IsOp → Expr → Result Fields
  unfolding col_name is_filter
  translate_is op e = elim (as_col e) [
    | none ↦ fail "IS expression left side must be a column"
    | some c ↦ ok (is_filter (col_name c) op)
  ]

  unfoldable mutual
    unfolding translate_comparison translate_between translate_is negate_comparison_op negate_is_op

    pub translate_where : Expr → Result Fields
    translate_where (Ast.and_expr l r) = do
      a ← translate_where l
      b ← translate_where r
      ok (junction "$and" a b)
    translate_where (Ast.or_expr l r) = do
      a ← translate_where l
      b ← translate_where r
      ok (junction "$or" a b)
    translate_where (Ast.not_expr e) = negate_where e
    translate_where (Ast.comparison op l r) = translate_comparison op l r
    translate_where (Ast.between is_between e from to) = translate_between is_between e from to
    translate_where (Ast.is_expr op e) = translate_is op e
    translate_where _ = fail "unsupported WHERE expression: %T"

    -- What has no clean negation is translated as it stands, under $nor.
    pub negate_where : Expr → Result Fields
    negate_where (Ast.not_expr e) = translate_where e
    negate_where (Ast.and_expr l r) = do
      a ← negate_where l
      b ← negate_where r
      ok (junction "$or" a b)
    negate_where (Ast.or_expr l r) = do
      a ← negate_where l
      b ← negate_where r
      ok (junction "$and" a b)
    negate_where (Ast.comparison op l r) = elim (negate_comparison_op op) [
      | some negated_op ↦ translate_comparison negated_op l r
      | none ↦ map_ok nor_filter (translate_comparison op l r)
    ]
    negate_where (Ast.is_expr op e) = translate_is (negate_is_op op) e
    negate_where (Ast.between is_between e from to) = translate_between (not is_between) e from to
    negate_where _ = fail "unsupported WHERE expression: %T"
