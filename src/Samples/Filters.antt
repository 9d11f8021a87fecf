-- ===== src/Samples/Filters.antt =====
-- Conditions, a row and LIKE patterns for translator/internal/expr/expr.go, and the theorems at them.
use mongosql.Samples.Go.{go}
use mongosql.Samples.Store.{store}
use mongosql.Expr.Where.Sound.{translate_where_sound}
use mongosql.Expr.Where.Gaps.{not_in-null}
use mongosql.Expr.Like.Plain.{like_to_regex-plain}
use mongosql.Expr.Like.{like_to_regex, quote_meta}
use mongosql.Expr.Where.{translate_where}
use mongosql.Expr.Number.{parse_int}
use mongosql.Sql.{sql_where, is_holds}
use mongosql.Prelude.{[], ◌∷◌, ◌++◌, ◌≡◌, refl, true}
use mongosql.Prelude.Int.{pos}
use mongosql.Result.{ok}
use mongosql.Expr.Eval.{value, values}
use mongosql.Expr.Convert.{literal_value}
use mongosql.Expr.Columns.{col_name}
use mongosql.Samples.Store.{row_value}
use mongosql.Bson.{get, Fields, Values, field, end, int64}
use mongosql.Bson
use mongosql.Ast.{Expr, ColName}
use mongosql.Ast

-- The columns a and b.
abbrev col_a : Expr
col_a = Ast.col (record { qualifier = []; name = b'a' ∷ [] })

abbrev b_name : ColName
b_name = record { qualifier = []; name = b'b' ∷ [] }

abbrev seven : Expr
seven = Ast.literal Ast.int_val (b'7' ∷ [])

-- a = 7 AND NOT (b < 7)
abbrev both : Expr
both =
    Ast.and_expr (Ast.comparison Ast.equal_op col_a seven)
      (Ast.not_expr (Ast.comparison Ast.less_than_op (Ast.col b_name) seven))

-- The row where a is 7 and b is missing.
unfoldable row : store.Doc
unfolding store
row = field (b'a' ∷ []) (int64 (pos 7)) end

translate_where_sound_example :
    (f : Fields) × (translate_where go both ≡ ok f)
    × (store.matches f row ≡ is_holds (sql_where go store both row))
unfolding store row col_name
translate_where_sound_example =
    translate_where_sound go store both row ((refl, refl), (refl, refl)) ((tt, tt), (tt, tt))

-- b IN (7)
not_in-null_example :
    (f : Fields) × (translate_where go (
        Ast.not_expr
          (Ast.comparison Ast.in_op (Ast.col b_name) (Ast.val_tuple (Ast.cons seven Ast.nil))))
      ≡ ok f)
    × (store.matches f row ≡ true)
unfolding store row value values literal_value parse_int col_name row_value get
not_in-null_example =
    not_in-null go store b_name (Ast.cons seven Ast.nil) (Bson.cons (int64 (pos 7)) Bson.nil) row
      refl refl refl refl

like_to_regex-plain_example :
    like_to_regex (b'a' ∷ b'.' ∷ []) ≡ b'^' ∷ (quote_meta (b'a' ∷ b'.' ∷ []) ++ b'$' ∷ [])
like_to_regex-plain_example = like_to_regex-plain (b'a' ∷ b'.' ∷ []) refl
