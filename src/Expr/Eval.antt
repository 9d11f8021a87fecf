-- ===== src/Expr/Eval.antt =====
-- translator/internal/expr: the static evaluation of an expression (Value in expr.go, and
-- evalConstExpr and applyArith in agg_expr.go).
use mongosql.Expr.Func.Others.{eval_cur_time_func}
use mongosql.Expr.Slice.{substring_start, eval_substring}
use mongosql.Expr.Func.{eval_func}
use mongosql.Bytes.{str}
use mongosql.Result.{map_ok, wrap, fail, ◌>>=◌, ok, Result}
use mongosql.Prelude.{
  ◌∷◌, [], List, some, not, Option, ◌||◌, ◌++◌, false, if◌then◌else◌, true, none, ℕ, length, Bool,
}
use mongosql.Prelude.Int.{leb_ℤ, is_zero, ℤ, rem64, quot64, pos, negsuc, mul64, sub64, add64}
use Prim.Native.Nat.{Ordering}
use mongosql.Expr.Convert.{
  compare_any, sign_eq, Sign, to_int64, literal_value, to_string, bool_to_int, to_float64,
}
use mongosql.Runtime.{Runtime}
use mongosql.Ast.{CmpOp, BinaryOp, Expr, Exprs, MaybeExpr}
use mongosql.Ast
use mongosql.Bson.{of_list, Value, null, bool, int64, float64, text, arr}

module _ (rt : Runtime) where
  -- `-x` of a UnaryExpr.
  unfoldable pub negate_value : Value → Result Value
  unfolding sub64 str
  negate_value (int64 n) = ok (int64 (sub64 (pos 0) n))
  negate_value (float64 f) = ok (float64 (rt.float_neg f))
  negate_value (text s) = ok (text (str "-" ++ s))
  negate_value _ = fail "unsupported value expression: %T"

  -- A comparison of two values gives 1 or 0; an operator that is not listed gives 0.
  unfoldable pub compare_result : CmpOp → Sign → ℤ
  unfolding bool_to_int
  compare_result Ast.equal_op s = bool_to_int (sign_eq s Ordering.eq)
  compare_result Ast.null_safe_equal_op s = bool_to_int (sign_eq s Ordering.eq)
  compare_result Ast.not_equal_op s = bool_to_int (not (sign_eq s Ordering.eq))
  compare_result Ast.less_than_op s = bool_to_int (sign_eq s Ordering.lt)
  compare_result Ast.less_equal_op s = bool_to_int (not (sign_eq s Ordering.gt))
  compare_result Ast.greater_than_op s = bool_to_int (sign_eq s Ordering.gt)
  compare_result Ast.greater_equal_op s = bool_to_int (not (sign_eq s Ordering.lt))
  compare_result _ s = pos 0

  -- evalSubstring on the evaluated arguments.
  unfoldable pub substring_value : Value → Value → Option Value → Result Value
  unfolding to_string to_int64 eval_substring substring_start
  substring_value s from none = do
    start ← wrap "SUBSTRING start: %w" (to_int64 rt from)
    map_ok text (eval_substring (to_string rt s) start none)
  substring_value s from (some v) = do
    start ← wrap "SUBSTRING start: %w" (to_int64 rt from)
    if leb_ℤ (pos (length (to_string rt s))) (substring_start (to_string rt s) start)
        then ok (text [])
        else do
          len ← wrap "SUBSTRING length: %w" (to_int64 rt v)
          map_ok text (eval_substring (to_string rt s) start (some len))

  unfoldable mutual
    unfolding literal_value negate_value compare_result substring_value eval_func eval_cur_time_func

    pub value : Expr → Result Value
    value (Ast.literal type val) = ok (literal_value rt type val)
    value (Ast.bool_val b) = ok (bool b)
    value Ast.null_val = ok null
    value (Ast.val_tuple items) = do vs ← values items; ok (arr (of_list vs))
    value (Ast.unary op e) = elim op [
      | Ast.u_minus_op ↦ (do inner ← value e; negate_value inner)
      | _ ↦ fail "unsupported value expression: %T"
    ]
    value (Ast.cur_time_func name) = ok (eval_cur_time_func rt (rt.to_upper name))
    value (Ast.func_expr name args) = do
      vs ← wrap "function %s: %w" (values args)
      eval_func rt (rt.to_upper name) vs
    value (Ast.substr_expr name from to) = do
      s ← wrap "SUBSTRING: %w" (value name)
      start ← wrap "SUBSTRING: %w" (value from)
      stop ← wrap "SUBSTRING: %w" (maybe_value to)
      substring_value s start stop
    value (Ast.convert_expr e) = value e
    value (Ast.comparison op l r) = do
      a ← value l
      b ← value r
      ok (int64 (compare_result op (compare_any rt a b)))
    value _ = fail "unsupported value expression: %T"

    pub values : Exprs → Result (List Value)
    values Ast.nil = ok []
    values (Ast.cons e es) = do v ← value e; vs ← values es; ok (v ∷ vs)

    pub maybe_value : MaybeExpr → Result (Option Value)
    maybe_value Ast.absent = ok none
    maybe_value (Ast.present e) = do v ← value e; ok (some v)

  -- `q := int64(af / bf)`, `af - float64(q) * bf`.
  abbrev float_rem : ℕ → ℕ → ℕ
  float_rem a b =
      rt.float_sub a (rt.float_mul (rt.float_of_int (rt.int_of_float (rt.float_div a b))) b)

  unfoldable pub arith_float : BinaryOp → ℕ → ℕ → Result Value
  arith_float Ast.plus_op a b = ok (float64 (rt.float_add a b))
  arith_float Ast.minus_op a b = ok (float64 (rt.float_sub a b))
  arith_float Ast.mult_op a b = ok (float64 (rt.float_mul a b))
  arith_float Ast.div_op a b = ok (if rt.float_is_zero b then null else float64 (rt.float_div a b))
  arith_float Ast.mod_op a b = ok (if rt.float_is_zero b then null else float64 (float_rem a b))
  arith_float _ a b = fail "unsupported arith operator: %s"

  unfoldable pub arith_int : BinaryOp → ℤ → ℤ → Result Value
  unfolding add64 sub64 mul64 quot64 rem64
  arith_int Ast.plus_op a b = ok (int64 (add64 a b))
  arith_int Ast.minus_op a b = ok (int64 (sub64 a b))
  arith_int Ast.mult_op a b = ok (int64 (mul64 a b))
  arith_int Ast.int_div_op a b = ok (if is_zero b then null else int64 (quot64 a b))
  arith_int Ast.mod_op a b = ok (if is_zero b then null else int64 (rem64 a b))
  arith_int _ a b = fail "unsupported arith operator: %s"

  abbrev is_float : Value → Bool
  is_float (float64 _) = true
  is_float _ = false

  abbrev is_div : BinaryOp → Bool
  is_div Ast.div_op = true
  is_div _ = false

  unfoldable pub apply_arith : BinaryOp → Value → Value → Result Value
  unfolding arith_float arith_int to_float64 to_int64
  apply_arith op a b =
      if is_float a || is_float b || is_div op
      then (do
        af ← wrap "arith: %w" (to_float64 rt a)
        bf ← wrap "arith: %w" (to_float64 rt b)
        arith_float op af bf)
      else do
        ai ← wrap "arith: %w" (to_int64 rt a)
        bi ← wrap "arith: %w" (to_int64 rt b)
        arith_int op ai bi

  unfoldable pub eval_const_expr : Expr → Result Value
  unfolding apply_arith value
  eval_const_expr (Ast.binary op l r) = do
    a ← eval_const_expr l
    b ← eval_const_expr r
    apply_arith op a b
  eval_const_expr (Ast.unary op e) = do
    inner ← eval_const_expr e
    elim op [
      | Ast.u_plus_op ↦ ok inner
      | Ast.u_minus_op ↦ apply_arith Ast.mult_op (int64 (negsuc 0)) inner
      | Ast.other_unary_op ↦ fail "unsupported unary operator: %s"
    ]
  eval_const_expr e = value e
