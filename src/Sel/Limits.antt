-- ===== src/Sel/Limits.antt =====
-- translator/internal/sel/limits.go: ORDER BY and LIMIT.
use mongosql.Prelude.Int.{pos, ℤ, negsuc}
use mongosql.Result.{fail, ◌>>=◌, ok, Result}
use mongosql.Expr.Number.{parse_int}
use mongosql.Expr.Eval.{value}
use mongosql.Expr.Columns.{col_name}
use mongosql.Runtime.{Runtime}
use mongosql.Prelude.{if◌then◌else◌, true, none, [], false, ◌∷◌, some, Option, List, Bool}
use mongosql.Ast.{Expr}
use mongosql.Ast
use mongosql.Bson.{Value, Fields, int, int64, float64, text, field, end}
use mongosql.Sel.Plan.{Limit}

-- 1, or -1 for DESC.
abbrev pub direction : Bool → Value
direction desc = int (if desc then negsuc 0 else pos 1)

unfoldable pub sort_fields : List (Expr × Bool) → Result Fields
unfolding col_name
sort_fields [] = ok end
sort_fields ((Ast.col c, desc) ∷ r) = do
  rest ← sort_fields r
  ok (field (col_name c) (direction desc) rest)
sort_fields ((e, desc) ∷ r) = fail "ORDER BY only supports column references"

-- buildSort: nil where there is no ORDER BY.
unfoldable pub build_sort : List (Expr × Bool) → Result (Option Fields)
unfolding sort_fields
build_sort [] = ok none
build_sort (o ∷ os) = do fs ← sort_fields (o ∷ os); ok (some fs)

abbrev pub given {ℓ} : {A : Type ℓ} → Option A → Bool
given none = false
given (some _) = true

module _ (rt : Runtime) where
  -- toInt64: what is no number is 0; a text out of range is the nearest int64.
  unfoldable pub limit_int64 : Value → ℤ
  unfolding parse_int
  limit_int64 (int64 n) = n
  limit_int64 (int n) = n
  limit_int64 (float64 f) = rt.int_of_float f
  limit_int64 (text s) = (parse_int s).0
  limit_int64 _ = pos 0

  abbrev number_or_zero : Option Expr → Result ℤ
  number_or_zero none = ok (pos 0)
  number_or_zero (some e) = do v ← value rt e; ok (limit_int64 v)

  -- buildLimit: the limit, the offset, and whether there is a row count.
  unfoldable pub build_limit : Option Limit → Result (ℤ × ℤ × Bool)
  unfolding value limit_int64
  build_limit none = ok (pos 0, pos 0, false)
  build_limit (some l) = do
    limit ← number_or_zero l.rowcount
    skip ← number_or_zero l.offset
    ok (limit, skip, given l.rowcount)
