-- ===== src/Sql.antt =====
-- What a WHERE condition means in MySQL: three-valued logic over a row, with the values of the row
-- and the order of two values that are not NULL taken from the store.
use Prim.Native.Nat.{Ordering}
use mongosql.Expr.Where.{is_const}
use mongosql.Expr.Columns.{col_name}
use mathlib.Core.Bool.{true}
use mongosql.Expr.Convert.{sign_eq, literal_value, Sign}
use mongosql.Bson.{is_nil, null, bool, Value}
use mongosql.Prelude.{not, false, if◌then◌else◌, true, ◌≡◌, Bool}
use mongosql.Runtime.{Runtime}
use mongosql.Ast.{ColName, Expr, CmpOp, IsOp}
use mongosql.Ast
use mongosql.Mongo.{is_plain, Mongo, same, is_lt, is_le, is_gt, is_ge}

pub data Truth : Type 0 where
  holds fails unknown : Truth

abbrev pub is_holds : Truth → Bool
is_holds holds = true
is_holds _ = false

abbrev pub is_fails : Truth → Bool
is_fails fails = true
is_fails _ = false

abbrev pub of_bool : Bool → Truth
of_bool true = holds
of_bool false = fails

unfoldable pub and_truth : Truth → Truth → Truth
and_truth fails b = fails
and_truth holds b = b
and_truth unknown fails = fails
and_truth unknown _ = unknown

unfoldable pub or_truth : Truth → Truth → Truth
or_truth holds b = holds
or_truth fails b = b
or_truth unknown holds = holds
or_truth unknown _ = unknown

unfoldable pub not_truth : Truth → Truth
not_truth holds = fails
not_truth fails = holds
not_truth unknown = unknown

-- An operator on two values that are not NULL; other operators are not in the fragment.
abbrev pub order_test : CmpOp → Sign → Bool
order_test Ast.equal_op s = sign_eq s Ordering.eq
order_test Ast.not_equal_op s = not (sign_eq s Ordering.eq)
order_test Ast.less_than_op s = is_lt s
order_test Ast.less_equal_op s = is_le s
order_test Ast.greater_than_op s = is_gt s
order_test Ast.greater_equal_op s = is_ge s
order_test _ s = false

module _ (order : Value → Value → Sign) where
  unfoldable pub sql_compare : CmpOp → Value → Value → Truth
  sql_compare Ast.null_safe_equal_op a b = of_bool (same order a b)
  sql_compare op a b =
      if is_nil a
      then unknown
      else if is_nil b
      then unknown
      else of_bool (order_test op (order a b))

  unfoldable pub sql_is : IsOp → Value → Truth
  sql_is Ast.is_null_op a = of_bool (is_nil a)
  sql_is Ast.is_not_null_op a = of_bool (not (is_nil a))
  sql_is Ast.is_true_op a = of_bool (same order a (bool true))
  sql_is Ast.is_not_true_op a = of_bool (not (same order a (bool true)))
  sql_is Ast.is_false_op a = of_bool (same order a (bool false))
  sql_is Ast.is_not_false_op a = of_bool (not (same order a (bool false)))

  unfoldable pub sql_between : Bool → Value → Value → Value → Truth
  unfolding sql_compare and_truth not_truth
  sql_between is_between a from to =
      let inside =
        and_truth (sql_compare Ast.greater_equal_op a from) (sql_compare Ast.less_equal_op a to) in
      if is_between then inside else not_truth inside

-- The fragment of conditions: AND, OR and NOT over comparisons of a column with a constant,
-- BETWEEN two constants, and IS. A NULL constant is only compared by <=>.
abbrev pub is_value : Expr → Bool
is_value (Ast.literal type val) = true
is_value (Ast.bool_val b) = true
is_value _ = false

abbrev pub admits : CmpOp → Expr → Bool
admits Ast.equal_op r = is_value r
admits Ast.not_equal_op r = is_value r
admits Ast.less_than_op r = is_value r
admits Ast.less_equal_op r = is_value r
admits Ast.greater_than_op r = is_value r
admits Ast.greater_equal_op r = is_value r
admits Ast.null_safe_equal_op r = is_const r
admits _ r = false

module _ (rt : Runtime) (mongo : Mongo) where
  -- The value of a constant.
  abbrev pub constant : Expr → Value
  constant (Ast.literal type val) = literal_value rt type val
  constant (Ast.bool_val b) = bool b
  constant _ = null

  abbrev pub column : mongo.Doc → Expr → Value
  column d (Ast.col c) = mongo.look_up d (col_name c)
  column d _ = null

  unfoldable pub sql_where : Expr → mongo.Doc → Truth
  unfolding and_truth or_truth not_truth sql_compare sql_is sql_between
  sql_where (Ast.and_expr l r) d = and_truth (sql_where l d) (sql_where r d)
  sql_where (Ast.or_expr l r) d = or_truth (sql_where l d) (sql_where r d)
  sql_where (Ast.not_expr e) d = not_truth (sql_where e d)
  sql_where (Ast.comparison op l r) d = sql_compare mongo.order op (column d l) (constant r)
  sql_where (Ast.between b e from to) d =
      sql_between mongo.order b (column d e) (constant from) (constant to)
  sql_where (Ast.is_expr op e) d = sql_is mongo.order op (column d e)
  sql_where _ d = unknown

  abbrev pub IsColumn : Expr → Type 0
  IsColumn (Ast.col c) = is_plain (col_name c) ≡ true
  IsColumn _ = ⊥

  abbrev pub InFragment : Expr → Type 0
  InFragment (Ast.and_expr l r) = InFragment l × InFragment r
  InFragment (Ast.or_expr l r) = InFragment l × InFragment r
  InFragment (Ast.not_expr e) = InFragment e
  InFragment (Ast.comparison op l r) = IsColumn l × (admits op r ≡ true)
  InFragment (Ast.between b e from to) = IsColumn e × (is_value from ≡ true) × (is_value to ≡ true)
  InFragment (Ast.is_expr op e) = IsColumn e
  InFragment _ = ⊥

  abbrev pub FitsColumn : mongo.Doc → Expr → Value → Type 0
  FitsColumn d (Ast.col c) v = mongo.Comparable d (col_name c) v
  FitsColumn d _ v = ⊥

  abbrev pub FitsIs : mongo.Doc → IsOp → Expr → Type 0
  FitsIs d Ast.is_true_op e = FitsColumn d e (bool true)
  FitsIs d Ast.is_not_true_op e = FitsColumn d e (bool true)
  FitsIs d Ast.is_false_op e = FitsColumn d e (bool false)
  FitsIs d Ast.is_not_false_op e = FitsColumn d e (bool false)
  FitsIs d _ e = FitsColumn d e null

  -- Each column of the row holds NULL or a scalar of the type of the constants that the condition
  -- compares it with.
  abbrev pub Fits : mongo.Doc → Expr → Type 0
  Fits d (Ast.and_expr l r) = Fits d l × Fits d r
  Fits d (Ast.or_expr l r) = Fits d l × Fits d r
  Fits d (Ast.not_expr e) = Fits d e
  Fits d (Ast.comparison op l r) = FitsColumn d l (constant r) × FitsColumn d l null
  Fits d (Ast.between b e from to) = FitsColumn d e (constant from) × FitsColumn d e (constant to)
  Fits d (Ast.is_expr op e) = FitsIs d op e
  Fits d _ = ⊥
