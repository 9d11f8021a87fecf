-- ===== src/Samples/Texts.antt =====
-- The theorems on texts (translator/internal/expr/expr.go, mysql/meta.go, mysql/handler.go) at
-- concrete texts.
use mongosql.Mysql.Scan.Dot.{split_db_table-names}
use mongosql.Mysql.Scan.{split_db_table}
use mongosql.Bytes.{elem}
use mongosql.Expr.Slice.{eval_substring, func_substring, left, right, pad_string}
use mongosql.Expr.Slice.Bounds.{
  pad_string-negative, eval_substring-take, substring-negative_length, left-right,
  length-pad_string,
}
use mongosql.Mysql.Scan.{split_top_level}
use mongosql.Mysql.Scan.RoundTrip.{terminated, terminated-split_top_level}
use mongosql.Mysql.Comments.{strip_sql_comments}
use mongosql.Mysql.Comments.Literal.{strip_sql_comments-comment_free}
use mongosql.Prelude.{[], ◌∷◌, ◌++◌, ◌≡◌, refl, arith, some, length, false}
use mongosql.Prelude.Int.{pos, negsuc}
use mongosql.Result.{ok, err, panic}
use mongosql.Bytes.{Bytes}

abbrev abc : Bytes
abc = b'a' ∷ b'b' ∷ b'c' ∷ []

eval_substring-take_example : eval_substring abc (pos 2) (some (pos 5)) ≡ ok (b'b' ∷ b'c' ∷ [])
eval_substring-take_example = eval_substring-take abc 1 5 (omega arith)

substring-negative_length_example :
    (eval_substring abc (pos 3) (some (negsuc 0)) ≡ ok [])
    × (func_substring abc (pos 3) (some (negsuc 0)) ≡ err panic)
substring-negative_length_example =
    substring-negative_length abc 2 0 (omega arith) (omega arith) (omega arith)

left-right_example :
    (a b : Bytes) × (left abc (pos 1) ≡ ok a) × (right abc (pos 2) ≡ ok b) × (a ++ b ≡ abc)
left-right_example = left-right abc 1 (omega arith) (omega arith)

length-pad_string_example :
    (out : Bytes) × (pad_string abc (pos 8) (b'x' ∷ b'y' ∷ []) false ≡ ok out) × (length out ≡ 8)
length-pad_string_example = length-pad_string abc 8 b'x' (b'y' ∷ []) false

-- a,(b,c)
abbrev parts : Bytes
parts = b'a' ∷ b',' ∷ b'(' ∷ b'b' ∷ b',' ∷ b'c' ∷ b')' ∷ []

terminated-split_top_level_example :
    terminated b',' (split_top_level parts b',') ≡ parts ++ b',' ∷ []
terminated-split_top_level_example = terminated-split_top_level parts b','

-- a'--'
abbrev dashes_in_literal : Bytes
dashes_in_literal = b'a' ∷ 39 ∷ b'-' ∷ b'-' ∷ 39 ∷ []

strip_sql_comments-comment_free_example : strip_sql_comments dashes_in_literal ≡ dashes_in_literal
strip_sql_comments-comment_free_example = strip_sql_comments-comment_free dashes_in_literal refl

abbrev backquote : Bytes
backquote = 96 ∷ []

-- `a`.`b`, and `b`
split_db_table-names_example :
    (split_db_table (96 ∷ b'a' ∷ 96 ∷ b'.' ∷ 96 ∷ b'b' ∷ 96 ∷ []) ≡ (b'a' ∷ [], b'b' ∷ []))
    × (split_db_table (96 ∷ b'b' ∷ 96 ∷ []) ≡ ([], b'b' ∷ []))
unfolding elem
split_db_table-names_example =
    split_db_table-names backquote (b'a' ∷ []) backquote backquote (b'b' ∷ []) backquote refl refl
      refl refl refl refl refl

pad_string-negative_example : pad_string abc (negsuc 0) [] false ≡ err panic
pad_string-negative_example = pad_string-negative abc [] 0 false
