-- ===== src/Sel/Plan.antt =====
-- translator/plan/plan.go and translator/stmt/stmt.go: the plan of a SELECT, and the executable
-- statements.
use mongosql.Prelude.{List, Option, Bool, if◌then◌else◌, [], ◌∷◌}
use mongosql.Prelude.Int.{ℤ}
use mongosql.Bytes.{Bytes, join}
use mongosql.Bson.{Fields}
use mongosql.Ast.{Expr}
use mongosql.Expr.Columns.{no_text, dotted}

pub record SourceRef : Type 0 where
  pub database : Bytes
  pub collection : Bytes
  pub alias : Bytes
  pub explicit_as : Bool

pub record FieldRef : Type 0 where
  pub source_alias : Bytes
  pub parts : List Bytes

-- FieldRef.UnqualifiedPath
unfoldable pub unqualified_path : FieldRef → Bytes
unfolding join
unqualified_path f = join (b'.' ∷ []) f.parts

-- FieldRef.Path
unfoldable pub field_path : FieldRef → Bytes
unfolding join
field_path f =
    let path = join (b'.' ∷ []) f.parts in
    if no_text f.source_alias
    then path
    else if no_text path
    then f.source_alias
    else dotted f.source_alias path

pub data AggFunc : Type 0 where
  count sum avg min max : AggFunc

-- One of the three forms of argument: `arg` is set, `arg_expr` is set, or neither is.
pub record AggSpec : Type 0 where
  pub func : AggFunc
  pub arg : Option FieldRef
  pub arg_expr : Option Expr
  pub star : Bool
  pub distinct : Bool

pub data ItemKind : Type 0 where
  field_item aggregate_item expr_item : ItemKind

pub record SelectItem : Type 0 where
  pub kind : ItemKind
  pub field : Option FieldRef
  pub agg : Option AggSpec
  pub alias : Bytes
  pub raw_expr : Expr

pub record JoinPlan : Type 0 where
  pub right : SourceRef
  pub left_field : FieldRef
  pub right_field : FieldRef
  pub on_expr : Option Expr
  pub outer : Bool

pub data JoinType : Type 0 where
  normal_join left_join right_join natural_join natural_left_join natural_right_join : JoinType

-- The ON expression; `none` where the condition or its ON is nil.
abbrev pub JoinCondition : Type 0
JoinCondition = Option Expr

pub data TableExpr : Type 0 where
  -- db.name AS alias
  table : Bytes → Bytes → Bytes → TableExpr
  -- a subquery in FROM, with its alias
  derived : Bytes → TableExpr
  join_table : JoinType → TableExpr → TableExpr → JoinCondition → TableExpr
  other_table : TableExpr

pub data SelectExpr : Type 0 where
  star_expr : SelectExpr
  aliased_expr : Expr → Bytes → SelectExpr
  other_select_expr : SelectExpr

pub record Limit : Type 0 where
  pub rowcount : Option Expr
  pub offset : Option Expr

-- The clauses of sqlparser.Select. An ORDER BY item is an expression and whether it is DESC.
pub record Select : Type 0 where
  pub from : List TableExpr
  pub select_exprs : Option (List SelectExpr)
  pub where_expr : Option Expr
  pub group_by : Option (List Expr)
  pub having : Option Expr
  pub order_by : List (Expr × Bool)
  pub limit : Option Limit
  pub distinct : Bool

pub record SelectPlan : Type 0 where
  pub raw : Select
  pub main_source : SourceRef
  pub joins : List JoinPlan
  pub items : List SelectItem
  pub filter : Fields
  -- nil is `none`
  pub sort : Option Fields
  pub limit : ℤ
  pub offset : ℤ
  pub has_limit : Bool
  pub distinct : Bool
  pub has_star : Bool
  pub has_agg : Bool
  pub use_aggregation : Bool

pub record FindStmt : Type 0 where
  pub collection : Bytes
  pub filter : Fields
  pub projection : Option Fields
  pub sort : Option Fields
  pub limit : ℤ
  pub skip : ℤ
  pub distinct : Bytes
  pub empty : Bool

pub record AggregateStmt : Type 0 where
  pub collection : Bytes
  pub pipeline : List Fields
  pub empty : Bool

pub record InsertStmt : Type 0 where
  pub collection : Bytes
  pub docs : List Fields

pub record UpdateStmt : Type 0 where
  pub collection : Bytes
  pub filter : Fields
  pub update : Fields

pub record DeleteStmt : Type 0 where
  pub collection : Bytes
  pub filter : Fields

pub record InsertSelectStmt : Type 0 where
  pub source_collection : Bytes
  pub source_database : Bytes
  pub target_collection : Bytes
  pub target_database : Bytes
  pub pipeline : List Fields
  pub columns : List Bytes

pub data Statement : Type 0 where
  find_stmt : FindStmt → Statement
  aggregate_stmt : AggregateStmt → Statement
  insert_stmt : InsertStmt → Statement
  update_stmt : UpdateStmt → Statement
  delete_stmt : DeleteStmt → Statement
  insert_select_stmt : InsertSelectStmt → Statement
