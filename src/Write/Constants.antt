-- ===== src/Write/Constants.antt =====
-- translator/internal/write/write.go: the values of INSERT ... VALUES, and column references.
use mongosql.Write.{row_doc, value_docs}
use mongosql.Expr.Agg.{value_or_agg_expr, to_agg_expr}
use mongosql.Expr.Eval.{eval_const_expr}
use mongosql.Expr.Columns.{has_column_ref}
use mongosql.Expr.Columns.All.{columns, has_column_ref-columns}
use mongosql.Ast.{ColName}
use mongosql.Prelude.{
  ◌++◌, ◌≡◌, refl, arith, Bool, true, false, if◌then◌else◌, List, [], ◌∷◌, inl, inr, length,
}
use mongosql.Ast.{Expr}
use mongosql.Bytes.{Bytes}
use mongosql.Result.{Result, ok, err, ◌>>=◌, Result-cases}
use mongosql.Runtime.{Runtime}
use mongosql.Bson.{Value, Fields, put, end}

abbrev pub row_columns : List Expr → List ColName
row_columns [] = []
row_columns (e ∷ es) = columns e ++ row_columns es

-- The columns that the values of the rows read, outside of aggregate calls.
abbrev pub rows_columns : List (List Expr) → List ColName
rows_columns [] = []
rows_columns (row ∷ rows) = row_columns row ++ rows_columns rows

no_columns : (e : Expr) → has_column_ref e ≡ false → columns e ≡ []
no_columns e h = ground (arith, has_column_ref-columns e)

tag_of :
    (b : Bool) (x y : Result Value) (r : Value × Bool)
    → (if b then (do v ← x; ok (v, true)) else do v ← y; ok (v, false)) ≡ ok r
    → r.1 ≡ b
tag_of true (ok v) y r h = ground arith
tag_of true (err f) y r h = absurd (ground arith)
tag_of false x (ok v) r h = ground arith
tag_of false x (err f) r h = absurd (ground arith)

module _ (rt : Runtime) where
  needs_agg-has_column_ref :
      (e : Expr) (r : Value × Bool) → value_or_agg_expr rt e ≡ ok r → r.1 ≡ has_column_ref e
  unfolding value_or_agg_expr
  needs_agg-has_column_ref e r q =
      tag_of (has_column_ref e) (to_agg_expr rt [] e) (eval_const_expr rt e) r q

  row_doc-constant :
      (cols : List Bytes) (row : List Expr) (d r : Fields)
      → row_doc rt cols row d ≡ ok r
      → length row ≡ length cols
      → row_columns row ≡ []
  unfolding row_doc
  row_doc-constant [] [] d r e h = refl
  row_doc-constant [] (x ∷ row) d r e h = absurd (omega arith)
  row_doc-constant (c ∷ cs) [] d r e h = refl
  row_doc-constant (c ∷ cs) (x ∷ row) d r e h = elim (Result-cases (value_or_agg_expr rt x)) [
    | inr (y, failed) ↦ absurd (ground arith)
    | inl ((v, needs_agg), given') ↦ ground (
      arith,
      row_doc-constant cs row (put c v d) r,
      needs_agg-has_column_ref x (v, needs_agg) given',
      no_columns x,
    )
  ]

-- INSERT ... VALUES is accepted only where no value of any row names a column, however deep in the
-- value, outside of aggregate calls.
pub value_docs-constant :
    (rt : Runtime) (cols : List Bytes) (rows : List (List Expr)) (docs : List Fields)
    → value_docs rt cols rows ≡ ok docs
    → rows_columns rows ≡ []
unfolding value_docs
value_docs-constant rt cols [] docs e = refl
value_docs-constant rt cols (row ∷ rows) docs e = elim (Result-cases (row_doc rt cols row end)) [
  | inr (x, failed) ↦ absurd (ground arith)
  | inl (d, first) ↦ elim (Result-cases (value_docs rt cols rows)) [
    | inr (x, failed) ↦ absurd (ground arith)
    | inl (ds, others) ↦
        ground (arith, value_docs-constant rt cols rows ds, row_doc-constant rt cols row end d)
  ]
]
