-- ===== src/Ast.antt =====
-- The part of the vitess syntax tree (package sqlparser) that the translator reads. A node that it
-- only reports as unsupported is `other`. An identifier is the text that its `String()` gives.
use mongosql.Prelude.{Bool}
use mongosql.Bytes.{Bytes}

-- `Qualifier.IsEmpty()` holds exactly for the empty text.
pub record ColName : Type 0 where
  pub qualifier : Bytes
  pub name : Bytes

pub data LitType : Type 0 where
  str_val int_val float_val decimal_val hex_num hex_val bit_num date_val time_val : LitType
  timestamp_val : LitType

pub data CmpOp : Type 0 where
  equal_op null_safe_equal_op not_equal_op less_than_op less_equal_op greater_than_op : CmpOp
  greater_equal_op in_op not_in_op like_op not_like_op regexp_op not_regexp_op : CmpOp

pub data UnaryOp : Type 0 where
  u_plus_op u_minus_op other_unary_op : UnaryOp

pub data BinaryOp : Type 0 where
  plus_op minus_op mult_op div_op mod_op int_div_op other_binary_op : BinaryOp

pub data IsOp : Type 0 where
  is_null_op is_not_null_op is_true_op is_not_true_op is_false_op is_not_false_op : IsOp

-- The aggregate calls that vitess has nodes for.
pub data AggNode : Type 0 where
  sum_node avg_node min_node max_node : AggNode

-- The expressions: a field of type Expr that may be nil is a `MaybeExpr`.
mutual
  pub data Expr : Type 0 where
    col : ColName → Expr
    literal : LitType → Bytes → Expr
    bool_val : Bool → Expr
    null_val : Expr
    val_tuple : Exprs → Expr
    unary : UnaryOp → Expr → Expr
    binary : BinaryOp → Expr → Expr → Expr
    comparison : CmpOp → Expr → Expr → Expr
    and_expr : Expr → Expr → Expr
    or_expr : Expr → Expr → Expr
    not_expr : Expr → Expr
    is_expr : IsOp → Expr → Expr
    between : Bool → Expr → Expr → Expr → Expr
    func_expr : Bytes → Exprs → Expr
    substr_expr : Expr → Expr → MaybeExpr → Expr
    case_expr : MaybeExpr → Whens → MaybeExpr → Expr
    convert_expr : Expr → Expr
    cur_time_func : Bytes → Expr
    count_star : Expr
    count : Bool → Exprs → Expr
    agg_call : AggNode → Bool → Expr → Expr
    other : Bytes → Expr

  pub data Exprs : Type 0 where
    nil : Exprs
    cons : Expr → Exprs → Exprs

  pub data MaybeExpr : Type 0 where
    absent : MaybeExpr
    present : Expr → MaybeExpr

  -- WHEN cond THEN val
  pub data Whens : Type 0 where
    no_whens : Whens
    when : Expr → Expr → Whens → Whens
