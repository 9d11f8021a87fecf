-- ===== src/Expr/Func.antt =====
-- translator/internal/expr/expr.go: evalFunc, over the argument values.
pub mod Arguments
mod Texts
mod Numbers
pub mod Others
use Arguments.{Args}
use Texts.{case_func, cut_func}
use Numbers.{numeric_func}
use Others.{time_func, conditional_func, misc_func}
use mongosql.Expr.Slice.{pad_string, strings_repeat, right, substring_start, func_substring, left}
use mathlib.Core.List.{[]}
use Prim.Native.Nat.{zero, suc, ℕ}
use mongosql.Prelude.Int.{leb_ℤ, pos, ltb_ℤ, rem64, pos_part, sub64, ℤ}
use mongosql.Prelude.{
  some, length, none, ◌&&◌, ◌++◌, [], if◌then◌else◌, ltb, ◌∷◌, String, Option, ℕ, Bool, List,
}
use mongosql.Expr.Convert.{
  int_of, is_truthy, float_of, sign_eq, Sign, to_float64, to_int64, is_integer_value, compare_any,
  to_string,
}
use mongosql.Bytes.{join, trim_right, str, trim_left, Bytes, one_of}
use mongosql.Runtime.{Runtime}
use mongosql.Result.{map_ok, panic, Result, ok, err, fail}
use mongosql.Bson.{is_nil, Value, null, int64, float64, text, time}

module _ (rt : Runtime) where
  -- evalFunc behind the evaluation of the arguments; `name` is in upper case.
  unfoldable pub eval_func : Bytes → Args → Result Value
  unfolding time_func case_func cut_func numeric_func conditional_func misc_func
  eval_func name args = time_func rt name args (
      case_func rt name args (
        cut_func rt name args (
          numeric_func rt name args (
            conditional_func rt name args
              (misc_func rt name args (fail "unsupported function: %s"))))))
