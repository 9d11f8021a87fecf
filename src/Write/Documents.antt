-- ===== src/Write/Documents.antt =====
-- translator/internal/write/write.go: the documents of INSERT, and the copies of INSERT ... SELECT.
use mongosql.Ast
use mongosql.Expr.Agg.{value_or_agg_expr, to_agg_expr}
use mongosql.Expr.Eval.{value}
use mongosql.Expr.Convert.{literal_value}
use mongosql.Expr.Columns.{has_column_ref, col_name_with_main}
use mongosql.Bson.{put, get-put}
use mongosql.Bytes.{bytes_eq_refl}
use mongosql.Write.{
  row_doc, value_docs, update_doc, set_doc, find_pipeline, insert_select_of, any_set_column,
}
use mongosql.Expr.Columns.All.{columns, some_column, some_column-append, has_column_ref-columns}
use mongosql.Ast.{ColName}
use mongosql.Prelude.{
  ◌++◌, ◌&&◌, [], ◌∷◌, ◌≡◌, refl, List, arith, true, false, inl, inr, Bool, length, ◌==◌,
}
use mongosql.Bytes.{Bytes, bytes_eq, str}
use mongosql.Ast.{Expr}
use mongosql.Result.{Result-cases, ok}
use mongosql.Runtime.{Runtime}
use mongosql.Bson.{Fields}
use mongosql.Sel.Plan.{FindStmt, find_stmt}
use mongosql.Bson.{end, get, has}

-- Does every row have as many values as there are columns?
abbrev pub rows_fit : List Bytes → List (List Expr) → Bool
rows_fit cols [] = true
rows_fit cols (row ∷ rows) = (length row == length cols) && rows_fit cols rows

-- INSERT ... VALUES gives a document for each row, and does so only where every row has as many
-- values as there are columns.
pub value_docs-length :
    (rt : Runtime) (cols : List Bytes) (rows : List (List Expr)) (docs : List Fields)
    → value_docs rt cols rows ≡ ok docs
    → (length docs ≡ length rows) × (rows_fit cols rows ≡ true)
unfolding value_docs
value_docs-length rt cols [] docs e = ground arith
value_docs-length rt cols (row ∷ rows) docs e = elim (Result-cases (row_doc rt cols row end)) [
  | inr (x, failed) ↦ absurd (ground arith)
  | inl (d, first) ↦ elim (Result-cases (value_docs rt cols rows)) [
    | inr (x, failed) ↦ absurd (ground arith)
    | inl (ds, others) ↦ ground (arith, value_docs-length rt cols rows ds)
  ]
]

-- The pipeline that INSERT ... SELECT copies from does not tell a SELECT with LIMIT 0 from the
-- same one with no limit: the statement marked as empty, which selects no row, is copied in full.
pub insert_select_of-empty :
    (coll db : Bytes) (cols : List Bytes) (s : FindStmt)
    → insert_select_of coll db cols (find_stmt (record s { empty = true }))
      ≡ insert_select_of coll db cols (find_stmt (record s { empty = false }))
unfolding insert_select_of find_pipeline
insert_select_of-empty coll db cols s = refl

-- The columns that the values of the SET clauses read, outside of aggregate calls.
abbrev pub set_columns : List (Bytes × Expr) → List ColName
set_columns [] = []
set_columns ((c, e) ∷ sets) = columns e ++ set_columns sets

any_set_column-columns :
    (rt : Runtime) (sets : List (Bytes × Expr))
    → any_set_column rt sets ≡ some_column (set_columns sets)
any_set_column-columns rt [] = refl
any_set_column-columns rt ((c, e) ∷ sets) = ground (
  arith,
  has_column_ref-columns e,
  any_set_column-columns rt sets,
  some_column-append (columns e) (set_columns sets),
)

-- The update document has the mark of a pipeline update exactly where the values of the SETs,
-- taken together and with all that is nested in them outside of aggregate calls, name a column.
pub update_doc-pipeline :
    (rt : Runtime) (sets : List (Bytes × Expr)) (u : Fields)
    → update_doc rt sets ≡ ok u
    → has (str "$pipeline") u ≡ some_column (set_columns sets)
unfolding update_doc get bytes_eq str
update_doc-pipeline rt sets u e = elim (Result-cases (set_doc rt sets end)) [
  | inr (x, failed) ↦ absurd (ground arith)
  | inl (d, done) ↦ ground (arith, any_set_column-columns rt sets)
]

abbrev pub column_of : Bytes → Expr
column_of name' = Ast.col (record { qualifier = []; name = name' })

abbrev pub text_of : Bytes → Expr
text_of s = Ast.literal Ast.str_val s

-- In an UPDATE that reads a column, a text that begins with a dollar is taken for a column: SET
-- a = b, c = '$x' becomes the same update as SET a = b, c = x.
pub update_doc-dollar :
    (rt : Runtime) (a b c x : Bytes)
    → update_doc rt ((a, column_of b) ∷ (c, text_of (b'$' ∷ x)) ∷ [])
      ≡ update_doc rt ((a, column_of b) ∷ (c, column_of x) ∷ [])
unfolding update_doc set_doc value_or_agg_expr has_column_ref to_agg_expr col_name_with_main value
    literal_value
update_doc-dollar rt a b c x = refl

-- Does the document have a value for each of the columns?
abbrev pub has_all : List Bytes → Fields → Bool
has_all [] d = true
has_all (c ∷ cs) d = has c d && has_all cs d

abbrev pub each_has_all : List Bytes → List Fields → Bool
each_has_all cols [] = true
each_has_all cols (d ∷ ds) = has_all cols d && each_has_all cols ds

row_doc-keeps :
    (rt : Runtime) (cols : List Bytes) (row : List Expr) (d r : Fields) (k : Bytes)
    → row_doc rt cols row d ≡ ok r
    → has k d ≡ true
    → has k r ≡ true
unfolding row_doc
row_doc-keeps rt [] row d r k e h = ground arith
row_doc-keeps rt (c ∷ cs) [] d r k e h = ground arith
row_doc-keeps rt (c ∷ cs) (x ∷ row) d r k e h = elim (Result-cases (value_or_agg_expr rt x)) [
  | inr (y, failed) ↦ absurd (ground arith)
  | inl ((v, needs_agg), given') ↦
      ground (arith, row_doc-keeps rt cs row (put c v d) r k, get-put c k v d)
]

row_doc-has_all :
    (rt : Runtime) (cols : List Bytes) (row : List Expr) (d r : Fields)
    → row_doc rt cols row d ≡ ok r
    → length row ≡ length cols
    → has_all cols r ≡ true
unfolding row_doc
row_doc-has_all rt [] row d r e h = refl
row_doc-has_all rt (c ∷ cs) [] d r e h = absurd (omega arith)
row_doc-has_all rt (c ∷ cs) (x ∷ row) d r e h = elim (Result-cases (value_or_agg_expr rt x)) [
  | inr (y, failed) ↦ absurd (ground arith)
  | inl ((v, needs_agg), given') ↦ ground (
    arith,
    row_doc-has_all rt cs row (put c v d) r,
    row_doc-keeps rt cs row (put c v d) r c,
    get-put c c v d,
    bytes_eq_refl c,
  )
]

-- Each document of INSERT ... VALUES has a value for each column of the statement.
pub value_docs-has_all :
    (rt : Runtime) (cols : List Bytes) (rows : List (List Expr)) (docs : List Fields)
    → value_docs rt cols rows ≡ ok docs
    → each_has_all cols docs ≡ true
unfolding value_docs
value_docs-has_all rt cols [] docs e = ground arith
value_docs-has_all rt cols (row ∷ rows) docs e = elim (Result-cases (row_doc rt cols row end)) [
  | inr (x, failed) ↦ absurd (ground arith)
  | inl (d, first) ↦ elim (Result-cases (value_docs rt cols rows)) [
    | inr (x, failed) ↦ absurd (ground arith)
    | inl (ds, others) ↦
        ground (arith, value_docs-has_all rt cols rows ds, row_doc-has_all rt cols row end d)
  ]
]
