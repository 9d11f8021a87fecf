-- ===== src/Expr/Agg.antt =====
-- translator/internal/expr/agg_expr.go: ToAggExpr, ToAggExprWithMain and ValueOrAggExpr.
use mongosql.Expr.Func.Others.{eval_cur_time_func}
use mongosql.Expr.Convert.{literal_value}
use mathlib.Core.Bool.{false, true}
use mathlib.Core.List.{[]}
use mongosql.Result.{wrap, ◌>>=◌, fail, ok, Result}
use mathlib.Core.Option.{none}
use mongosql.Expr.Eval.{value, eval_const_expr}
use mongosql.Expr.Columns.{any_column_ref, col_name_with_main, has_column_ref}
use mongosql.Expr.AggFunc.{far, agg_func}
use mongosql.Expr.Like.{like_to_regex}
use mongosql.Prelude.Int.{negsuc, pos}
use mongosql.Prelude.{if◌then◌else◌, true, none, [], ◌∷◌, some, Bool, Option, List}
use mongosql.Runtime.{Runtime}
use mongosql.Bytes.{Bytes, str}
use mongosql.Ast.{CmpOp, UnaryOp, IsOp, BinaryOp, Expr, Exprs, MaybeExpr, Whens, ColName}
use mongosql.Ast
use mongosql.Bson.{Value, null, bool, int64, text, arr, obj, m, pair, triple, of_list, end, field}

abbrev dollar : Bytes → Value
dollar path = text (b'$' ∷ path)

unfoldable pub agg_unary : UnaryOp → Value → Result Value
unfolding str
agg_unary Ast.u_plus_op inner = ok inner
agg_unary Ast.u_minus_op inner = ok (m "$multiply" (pair (int64 (negsuc 0)) inner))
agg_unary Ast.other_unary_op inner = fail "unsupported unary operator: %s"

unfoldable pub agg_binary : BinaryOp → Value → Value → Result Value
unfolding str
agg_binary Ast.plus_op l r = ok (m "$add" (pair l r))
agg_binary Ast.minus_op l r = ok (m "$subtract" (pair l r))
agg_binary Ast.mult_op l r = ok (m "$multiply" (pair l r))
agg_binary Ast.div_op l r = ok (m "$divide" (pair l r))
agg_binary Ast.mod_op l r = ok (m "$mod" (pair l r))
agg_binary Ast.int_div_op l r = ok (m "$toLong" (m "$divide" (pair l r)))
agg_binary Ast.other_binary_op l r = fail "unsupported binary operator: %s"

unfoldable pub agg_is : IsOp → Value → Value
unfolding str
agg_is Ast.is_null_op v = m "$eq" (pair v null)
agg_is Ast.is_not_null_op v = m "$ne" (pair v null)
agg_is Ast.is_true_op v = m "$eq" (pair v (bool true))
agg_is Ast.is_not_true_op v = m "$ne" (pair v (bool true))
agg_is Ast.is_false_op v = m "$eq" (pair v (bool false))
agg_is Ast.is_not_false_op v = m "$ne" (pair v (bool false))

unfoldable pub agg_between : Bool → Value → Value → Value → Value
unfolding str
agg_between true v from to = m "$and" (pair (m "$gte" (pair v from)) (m "$lte" (pair v to)))
agg_between false v from to = m "$or" (pair (m "$lt" (pair v from)) (m "$gt" (pair v to)))

-- The pattern of a LIKE, where it is a string literal.
abbrev pub string_literal : Expr → Option Bytes
string_literal (Ast.literal Ast.str_val val) = some val
string_literal _ = none

abbrev regex_match : Value → Bytes → Value
regex_match input pattern' = m "$regexMatch" (
    obj (
      field (str "input") input (
        field (str "regex") (text (like_to_regex pattern'))
          (field (str "options") (text (str "i")) end))))

abbrev negated : Value → Value
negated v = m "$not" (arr (of_list (v ∷ [])))

-- translateComparisonAgg behind the translation of both sides; `right` is the untranslated side.
unfoldable pub agg_comparison : CmpOp → Expr → Value → Value → Result Value
unfolding str like_to_regex
agg_comparison Ast.equal_op right l r = ok (m "$eq" (pair l r))
agg_comparison Ast.null_safe_equal_op right l r = ok (m "$eq" (pair l r))
agg_comparison Ast.not_equal_op right l r = ok (m "$ne" (pair l r))
agg_comparison Ast.less_than_op right l r = ok (m "$lt" (pair l r))
agg_comparison Ast.less_equal_op right l r = ok (m "$lte" (pair l r))
agg_comparison Ast.greater_than_op right l r = ok (m "$gt" (pair l r))
agg_comparison Ast.greater_equal_op right l r = ok (m "$gte" (pair l r))
agg_comparison Ast.in_op right l r = ok (m "$in" (pair l r))
agg_comparison Ast.not_in_op right l r = ok (negated (m "$in" (pair l r)))
agg_comparison Ast.like_op right l r = elim (string_literal right) [
  | some p ↦ ok (regex_match l p)
  | none ↦ fail "LIKE in expression requires string literal"
]
agg_comparison Ast.not_like_op right l r = elim (string_literal right) [
  | some p ↦ ok (negated (regex_match l p))
  | none ↦ fail "NOT LIKE in expression requires string literal"
]
agg_comparison _ right l r = fail "unsupported comparison operator in agg expr: %s"

-- A WHEN branch: its condition and its result.
abbrev pub Branch : Type 0
Branch = Value × Value

abbrev or_null : Option Value → Value
or_null none = null
or_null (some v) = v

abbrev branch_docs : (Value → Value) → List Branch → List Value
branch_docs f [] = []
branch_docs f ((cond, then') ∷ bs) =
    obj (field (str "case") (f cond) (field (str "then") then' end)) ∷ branch_docs f bs

abbrev switch_doc : List Value → Option Value → Value
switch_doc branches otherwise = m "$switch" (
    obj (
      field (str "branches") (arr (of_list branches))
        (field (str "default") (or_null otherwise) end)))

-- translateCaseExpr behind the translation of its parts: a simple CASE compares with its base, and
-- a searched CASE of one branch and an ELSE is a $cond.
unfoldable pub case_doc : Option Value → List Branch → Option Value → Value
unfolding str
case_doc (some base) branches otherwise =
    switch_doc (branch_docs (λ c. m "$eq" (pair base c)) branches) otherwise
case_doc none ((cond, then') ∷ []) (some e) = m "$cond" (triple cond then' e)
case_doc none branches otherwise = switch_doc (branch_docs (λ c. c) branches) otherwise

-- translateSubstrExpr behind the translation of its parts.
unfoldable pub substr_doc : Value → Value → Option Value → Value
unfolding str
substr_doc s from len =
    m "$substrCP"
      (triple s (m "$subtract" (pair from (int64 (pos 1)))) (elim len [ none ↦ far | some n ↦ n ]))

module _ (rt : Runtime) where
  unfoldable mutual
    unfolding agg_unary agg_binary agg_is agg_between agg_comparison case_doc substr_doc agg_func
        literal_value value eval_cur_time_func col_name_with_main has_column_ref str

    pub to_agg_expr : Bytes → Expr → Result Value
    to_agg_expr main (Ast.col c) = ok (dollar (col_name_with_main c main))
    to_agg_expr main (Ast.literal type val) = ok (literal_value rt type val)
    to_agg_expr main (Ast.bool_val b) = ok (bool b)
    to_agg_expr main Ast.null_val = ok null
    to_agg_expr main (Ast.unary op e) = do inner ← to_agg_expr main e; agg_unary op inner
    to_agg_expr main (Ast.binary op l r) = do
      left ← to_agg_expr main l
      right ← to_agg_expr main r
      agg_binary op left right
    to_agg_expr main (Ast.case_expr e whens otherwise) = do
      base ← to_agg_maybe main e
      branches ← to_agg_whens main whens
      default ← to_agg_maybe main otherwise
      ok (case_doc base branches default)
    to_agg_expr main (Ast.func_expr name es) =
        let constant = value rt (Ast.func_expr name es) in
        let translated : Result Value = (do
          args ← wrap "function %s: %w" (to_agg_exprs main es)
          agg_func (rt.to_upper name) args) in
        if any_column_ref es then translated else constant
    to_agg_expr main (Ast.substr_expr name from to) = do
      s ← to_agg_expr main name
      start ← to_agg_expr main from
      len ← to_agg_maybe main to
      ok (substr_doc s start len)
    to_agg_expr main (Ast.convert_expr e) = to_agg_expr main e
    to_agg_expr main (Ast.cur_time_func name) = ok (eval_cur_time_func rt (rt.to_upper name))
    to_agg_expr main (Ast.comparison op l r) = do
      left ← to_agg_expr main l
      right ← to_agg_expr main r
      agg_comparison op r left right
    to_agg_expr main (Ast.and_expr l r) = do
      left ← to_agg_expr main l
      right ← to_agg_expr main r
      ok (m "$and" (pair left right))
    to_agg_expr main (Ast.or_expr l r) = do
      left ← to_agg_expr main l
      right ← to_agg_expr main r
      ok (m "$or" (pair left right))
    to_agg_expr main (Ast.not_expr e) = do inner ← to_agg_expr main e; ok (negated inner)
    to_agg_expr main (Ast.is_expr op e) = do left ← to_agg_expr main e; ok (agg_is op left)
    to_agg_expr main (Ast.between is_between e from to) = do
      left ← to_agg_expr main e
      low ← to_agg_expr main from
      high ← to_agg_expr main to
      ok (agg_between is_between left low high)
    to_agg_expr main (Ast.val_tuple es) = do vs ← to_agg_exprs main es; ok (arr (of_list vs))
    to_agg_expr main _ = fail "unsupported expression in aggregation context: %T"

    pub to_agg_exprs : Bytes → Exprs → Result (List Value)
    to_agg_exprs main Ast.nil = ok []
    to_agg_exprs main (Ast.cons e es) = do
      v ← to_agg_expr main e
      vs ← to_agg_exprs main es
      ok (v ∷ vs)

    pub to_agg_maybe : Bytes → MaybeExpr → Result (Option Value)
    to_agg_maybe main Ast.absent = ok none
    to_agg_maybe main (Ast.present e) = do v ← to_agg_expr main e; ok (some v)

    pub to_agg_whens : Bytes → Whens → Result (List Branch)
    to_agg_whens main Ast.no_whens = ok []
    to_agg_whens main (Ast.when c v ws) = do
      cond ← to_agg_expr main c
      then' ← to_agg_expr main v
      rest ← to_agg_whens main ws
      ok ((cond, then') ∷ rest)

  -- The value, and whether it is an aggregation expression.
  unfoldable pub value_or_agg_expr : Expr → Result (Value × Bool)
  unfolding has_column_ref to_agg_expr eval_const_expr
  value_or_agg_expr e =
      if has_column_ref e
      then (do v ← to_agg_expr [] e; ok (v, true))
      else do v ← eval_const_expr rt e; ok (v, false)
