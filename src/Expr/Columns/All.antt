-- ===== src/Expr/Columns/All.antt =====
-- translator/internal/expr/agg_expr.go: HasColumnRef and the columns of an expression.
use mongosql.Ast
use mongosql.Ast.{Expr, Exprs, MaybeExpr, Whens, ColName}
use mongosql.Expr.Columns.{has_column_ref, any_column_ref, maybe_column_ref, whens_column_ref}
use mongosql.Prelude.{◌≡◌, refl, arith, Bool, true, false, ◌||◌, List, [], ◌∷◌, ◌++◌}

-- The columns that an expression names, from left to right, but for those within the aggregate
-- calls that vitess has nodes for (SUM, AVG, MIN, MAX and COUNT).
unfoldable mutual
  pub columns : Expr → List ColName
  columns (Ast.col c) = c ∷ []
  columns (Ast.literal type text) = []
  columns (Ast.bool_val b) = []
  columns Ast.null_val = []
  columns (Ast.val_tuple es) = columns_of_all es
  columns (Ast.unary op e) = columns e
  columns (Ast.binary op l r) = columns l ++ columns r
  columns (Ast.comparison op l r) = columns l ++ columns r
  columns (Ast.and_expr l r) = columns l ++ columns r
  columns (Ast.or_expr l r) = columns l ++ columns r
  columns (Ast.not_expr e) = columns e
  columns (Ast.is_expr op e) = columns e
  columns (Ast.between b e from to) = columns e ++ (columns from ++ columns to)
  columns (Ast.func_expr name es) = columns_of_all es
  columns (Ast.substr_expr e from to) = columns e ++ (columns from ++ columns_of_maybe to)
  columns (Ast.case_expr e whens otherwise) =
      columns_of_maybe e ++ (columns_of_whens whens ++ columns_of_maybe otherwise)
  columns (Ast.convert_expr e) = columns e
  columns (Ast.cur_time_func name) = []
  columns Ast.count_star = []
  columns (Ast.count distinct es) = []
  columns (Ast.agg_call node distinct e) = []
  columns (Ast.other name) = []

  pub columns_of_all : Exprs → List ColName
  columns_of_all Ast.nil = []
  columns_of_all (Ast.cons e es) = columns e ++ columns_of_all es

  pub columns_of_maybe : MaybeExpr → List ColName
  columns_of_maybe Ast.absent = []
  columns_of_maybe (Ast.present e) = columns e

  pub columns_of_whens : Whens → List ColName
  columns_of_whens Ast.no_whens = []
  columns_of_whens (Ast.when c v ws) = columns c ++ (columns v ++ columns_of_whens ws)

abbrev pub some_column : List ColName → Bool
some_column [] = false
some_column (c ∷ cs) = true

pub some_column-append :
    (a b : List ColName) → some_column (a ++ b) ≡ (some_column a || some_column b)
some_column-append [] b = refl
some_column-append (c ∷ a) b = refl

some_column-append_3 :
    (a b c : List ColName)
    → some_column (a ++ (b ++ c)) ≡ (some_column a || some_column b || some_column c)
some_column-append_3 a b c = ground (arith, some_column-append a (b ++ c), some_column-append b c)

either :
    (l r : Expr)
    → has_column_ref l ≡ some_column (columns l)
    → has_column_ref r ≡ some_column (columns r)
    → (has_column_ref l || has_column_ref r) ≡ some_column (columns l ++ columns r)
either l r x y = ground (arith, x, y, some_column-append (columns l) (columns r))

mutual
  unfolding has_column_ref columns

  pub has_column_ref-columns : (e : Expr) → has_column_ref e ≡ some_column (columns e)
  has_column_ref-columns (Ast.col c) = refl
  has_column_ref-columns (Ast.literal type text) = refl
  has_column_ref-columns (Ast.bool_val b) = refl
  has_column_ref-columns Ast.null_val = refl
  has_column_ref-columns (Ast.val_tuple es) = any_column_ref-columns es
  has_column_ref-columns (Ast.unary op e) = has_column_ref-columns e
  has_column_ref-columns (Ast.binary op l r) =
      either l r (has_column_ref-columns l) (has_column_ref-columns r)
  has_column_ref-columns (Ast.comparison op l r) =
      either l r (has_column_ref-columns l) (has_column_ref-columns r)
  has_column_ref-columns (Ast.and_expr l r) =
      either l r (has_column_ref-columns l) (has_column_ref-columns r)
  has_column_ref-columns (Ast.or_expr l r) =
      either l r (has_column_ref-columns l) (has_column_ref-columns r)
  has_column_ref-columns (Ast.not_expr e) = has_column_ref-columns e
  has_column_ref-columns (Ast.is_expr op e) = has_column_ref-columns e
  has_column_ref-columns (Ast.between b e from to) = ground (
    arith,
    has_column_ref-columns e,
    has_column_ref-columns from,
    has_column_ref-columns to,
    some_column-append_3 (columns e) (columns from) (columns to),
  )
  has_column_ref-columns (Ast.func_expr name es) = any_column_ref-columns es
  has_column_ref-columns (Ast.substr_expr e from to) = ground (
    arith,
    has_column_ref-columns e,
    has_column_ref-columns from,
    maybe_column_ref-columns to,
    some_column-append_3 (columns e) (columns from) (columns_of_maybe to),
  )
  has_column_ref-columns (Ast.case_expr e whens otherwise) = ground (
    arith,
    maybe_column_ref-columns e,
    whens_column_ref-columns whens,
    maybe_column_ref-columns otherwise,
    some_column-append_3 (columns_of_maybe e) (columns_of_whens whens) (columns_of_maybe otherwise),
  )
  has_column_ref-columns (Ast.convert_expr e) = has_column_ref-columns e
  has_column_ref-columns (Ast.cur_time_func name) = refl
  has_column_ref-columns Ast.count_star = refl
  has_column_ref-columns (Ast.count distinct es) = refl
  has_column_ref-columns (Ast.agg_call node distinct e) = refl
  has_column_ref-columns (Ast.other name) = refl

  any_column_ref-columns : (es : Exprs) → any_column_ref es ≡ some_column (columns_of_all es)
  any_column_ref-columns Ast.nil = refl
  any_column_ref-columns (Ast.cons e es) = ground (
    arith,
    has_column_ref-columns e,
    any_column_ref-columns es,
    some_column-append (columns e) (columns_of_all es),
  )

  maybe_column_ref-columns : (m : MaybeExpr) → maybe_column_ref m ≡ some_column (columns_of_maybe m)
  maybe_column_ref-columns Ast.absent = refl
  maybe_column_ref-columns (Ast.present e) = has_column_ref-columns e

  whens_column_ref-columns : (ws : Whens) → whens_column_ref ws ≡ some_column (columns_of_whens ws)
  whens_column_ref-columns Ast.no_whens = refl
  whens_column_ref-columns (Ast.when c v ws) = ground (
    arith,
    has_column_ref-columns c,
    has_column_ref-columns v,
    whens_column_ref-columns ws,
    some_column-append_3 (columns c) (columns v) (columns_of_whens ws),
  )
