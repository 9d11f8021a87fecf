-- ===== src/Expr/Columns.antt =====
-- translator/internal/expr: HasColumnRef of agg_expr.go, and the rendering of a column name
-- (ColName of expr.go, colNameWithMain of agg_expr.go).
pub mod All
use mathlib.Core.List.{[]}
use mongosql.Bytes.{bytes_eq, Bytes}
use mongosql.Prelude.{not, false, ◌||◌, ◌∷◌, ◌&&◌, true, if◌then◌else◌, ◌++◌, Bool}
use mongosql.Ast.{Expr, Exprs, MaybeExpr, Whens, ColName}
use mongosql.Ast

unfoldable mutual
  pub has_column_ref : Expr → Bool
  has_column_ref (Ast.col c) = true
  has_column_ref (Ast.binary op l r) = has_column_ref l || has_column_ref r
  has_column_ref (Ast.unary op e) = has_column_ref e
  has_column_ref (Ast.comparison op l r) = has_column_ref l || has_column_ref r
  has_column_ref (Ast.and_expr l r) = has_column_ref l || has_column_ref r
  has_column_ref (Ast.or_expr l r) = has_column_ref l || has_column_ref r
  has_column_ref (Ast.not_expr e) = has_column_ref e
  has_column_ref (Ast.is_expr op e) = has_column_ref e
  has_column_ref (Ast.between is_between e from to) =
      has_column_ref e || has_column_ref from || has_column_ref to
  has_column_ref (Ast.val_tuple es) = any_column_ref es
  has_column_ref (Ast.func_expr name es) = any_column_ref es
  has_column_ref (Ast.substr_expr name from to) =
      has_column_ref name || has_column_ref from || maybe_column_ref to
  has_column_ref (Ast.case_expr e whens otherwise) =
      maybe_column_ref e || whens_column_ref whens || maybe_column_ref otherwise
  has_column_ref (Ast.convert_expr e) = has_column_ref e
  has_column_ref _ = false

  pub any_column_ref : Exprs → Bool
  any_column_ref Ast.nil = false
  any_column_ref (Ast.cons e es) = has_column_ref e || any_column_ref es

  pub maybe_column_ref : MaybeExpr → Bool
  maybe_column_ref Ast.absent = false
  maybe_column_ref (Ast.present e) = has_column_ref e

  pub whens_column_ref : Whens → Bool
  whens_column_ref Ast.no_whens = false
  whens_column_ref (Ast.when c v ws) = has_column_ref c || has_column_ref v || whens_column_ref ws

abbrev pub no_text : Bytes → Bool
no_text [] = true
no_text (_ ∷ _) = false

-- `a.b`
abbrev pub dotted : Bytes → Bytes → Bytes
dotted a b = a ++ (b'.' ∷ b)

-- A column as a field path: `name`, or `qualifier.name`.
unfoldable pub col_name : ColName → Bytes
col_name c = if no_text c.qualifier then c.name else dotted c.qualifier c.name

-- The same, where the alias of the main source is dropped.
unfoldable pub col_name_with_main : ColName → Bytes → Bytes
unfolding bytes_eq
col_name_with_main c main_alias =
    if no_text c.qualifier
    then c.name
    else if bytes_eq c.qualifier main_alias && not (no_text main_alias)
    then c.name
    else dotted c.qualifier c.name
