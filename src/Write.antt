-- ===== src/Write.antt =====
-- translator/internal/write/write.go: INSERT, UPDATE and DELETE; and translator/translator.go.
pub mod Documents
pub mod Constants
use mongosql.Expr.Columns.{has_column_ref}
use mongosql.Expr.Agg.{value_or_agg_expr}
use mongosql.Result.{wrap, fail, ◌>>=◌, ok, Result}
use mongosql.Expr.Where.{translate_where}
use mongosql.Prelude.Int.{pos, ltb_ℤ, ℤ}
use mongosql.Bytes.{Bytes, str}
use mongosql.Prelude.{
  length, if◌then◌else◌, ◌∷◌, [], Bool, true, ◌++◌, ◌||◌, none, false, ◌==◌, some, List, String,
  Option,
}
use mongosql.Runtime.{Runtime}
use mongosql.Ast.{Expr}
use mongosql.Bson.{Fields, bool, obj, field, end, put, int64}
use mongosql.Sel.Plan.{
  SourceRef, TableExpr, Select, Statement, FindStmt, find_stmt, aggregate_stmt, insert_stmt,
  update_stmt, delete_stmt, insert_select_stmt, table,
}
use mongosql.Sel.Source.{is_aliased, source_ref_from_aliased_table}
use mongosql.Sel.Translate.{translate}
use mongosql.Sel.Group.{doc}
use mongosql.Vitess.{Vitess}

-- The source of the rows of an INSERT.
pub data Rows : Type 0 where
  select_rows : Select → Rows
  values_rows : List (List Expr) → Rows
  other_rows : Rows

pub record Insert : Type 0 where
  -- nil is `none`
  pub table_expr : Option TableExpr
  pub columns : List Bytes
  pub rows : Rows

-- A SET clause: the column and the expression.
pub record Update : Type 0 where
  pub table_exprs : List TableExpr
  pub exprs : List (Bytes × Expr)
  pub where_expr : Option Expr

pub record Delete : Type 0 where
  pub table_exprs : List TableExpr
  pub where_expr : Option Expr

pub data Parsed : Type 0 where
  select_statement : Select → Parsed
  insert_statement : Insert → Parsed
  update_statement : Update → Parsed
  delete_statement : Delete → Parsed
  other_statement : Parsed

module _ (rt : Runtime) where
  -- One row: the values in the order of the columns.
  unfoldable pub row_doc : List Bytes → List Expr → Fields → Result Fields
  unfolding value_or_agg_expr put
  row_doc (c ∷ cs) (e ∷ es) d = do
    (v, needs_agg) ← value_or_agg_expr rt e
    if needs_agg then fail "INSERT VALUES cannot reference columns" else row_doc cs es (put c v d)
  row_doc _ _ d = ok d

  unfoldable pub value_docs : List Bytes → List (List Expr) → Result (List Fields)
  unfolding row_doc
  value_docs cols [] = ok []
  value_docs cols (row ∷ rows) =
      if length row == length cols
      then (do d ← row_doc cols row end; ds ← value_docs cols rows; ok (d ∷ ds))
      else fail "column/value count mismatch"

  abbrev pub any_set_column : List (Bytes × Expr) → Bool
  any_set_column [] = false
  any_set_column ((c, e) ∷ sets) = has_column_ref e || any_set_column sets

  unfoldable pub set_doc : List (Bytes × Expr) → Fields → Result Fields
  unfolding value_or_agg_expr put
  set_doc [] d = ok d
  set_doc ((c, e) ∷ sets) d = do (v, needs_agg) ← value_or_agg_expr rt e; set_doc sets (put c v d)

  abbrev where_or_all : Option Expr → Result Fields
  where_or_all none = ok end
  where_or_all (some e) = translate_where rt e

  abbrev single_table : String → String → List TableExpr → Result SourceRef
  single_table many unsupported [] = fail many
  single_table many unsupported (t ∷ []) =
      if is_aliased t then source_ref_from_aliased_table t else fail unsupported
  single_table many unsupported (t ∷ u ∷ ts) = fail many

  -- A SET that reads a column becomes a pipeline update, marked by `$pipeline`.
  unfoldable pub update_doc : List (Bytes × Expr) → Result Fields
  unfolding set_doc has_column_ref str
  update_doc sets = do
    set ←
        (if any_set_column sets
          then wrap "UPDATE SET %s: %w" (set_doc sets end)
          else set_doc sets end)
    ok (
        field (str "$set") (obj set)
          (if any_set_column sets then field (str "$pipeline") (bool true) end else end))

  unfoldable pub update : Update → Result Statement
  unfolding update_doc translate_where source_ref_from_aliased_table
  update s = do
    src ←
        single_table "only single-table UPDATE is supported"
          "UPDATE: unsupported table expression: %T" s.table_exprs
    change ← update_doc s.exprs
    filter ← where_or_all s.where_expr
    ok (update_stmt (record { collection = src.collection; filter = filter; update = change }))

  unfoldable pub delete : Delete → Result Statement
  unfolding translate_where source_ref_from_aliased_table
  delete s = do
    src ←
        single_table "only single-table DELETE is supported"
          "DELETE: unsupported table expression: %T" s.table_exprs
    filter ← where_or_all s.where_expr
    ok (delete_stmt (record { collection = src.collection; filter = filter }))

abbrev filter_stage : Fields → List Fields
filter_stage end = []
filter_stage (field k v fs) = doc "$match" (obj (field k v fs)) ∷ []

abbrev optional_stage : String → Option Fields → List Fields
optional_stage op none = []
optional_stage op (some d) = doc op (obj d) ∷ []

-- The sort document is a map: a later key replaces an earlier one.
unfoldable pub as_map : Fields → Fields → Fields
unfolding put
as_map end d = d
as_map (field k v fs) d = as_map fs (put k v d)

abbrev sort_stage : Option Fields → List Fields
sort_stage none = []
sort_stage (some fs) = doc "$sort" (obj (as_map fs end)) ∷ []

abbrev positive_stage : String → ℤ → List Fields
positive_stage op n = if ltb_ℤ (pos 0) n then doc op (int64 n) ∷ [] else []

-- A find statement as a pipeline: its Empty and its Distinct are not looked at.
unfoldable pub find_pipeline : FindStmt → List Fields
unfolding as_map str
find_pipeline s =
    filter_stage s.filter
    ++ (optional_stage "$project" s.projection
        ++ (sort_stage s.sort
            ++ (positive_stage "$skip" s.skip ++ positive_stage "$limit" s.limit)))

abbrev copy_into : Bytes → Bytes → List Bytes → Bytes → List Fields → Statement
copy_into target_coll target_db cols source pipeline = insert_select_stmt (record {
  source_collection = source;
  source_database = [];
  target_collection = target_coll;
  target_database = target_db;
  pipeline = pipeline;
  columns = cols;
})

unfoldable pub insert_select_of : Bytes → Bytes → List Bytes → Statement → Result Statement
unfolding find_pipeline
insert_select_of coll db cols (aggregate_stmt s) =
    ok (copy_into coll db cols s.collection s.pipeline)
insert_select_of coll db cols (find_stmt s) =
    ok (copy_into coll db cols s.collection (find_pipeline s))
insert_select_of coll db cols _ = fail "INSERT ... SELECT produced unexpected statement type: %T"

module _ (rt : Runtime) (vt : Vitess) where
  unfoldable pub insert_select : Bytes → Bytes → List Bytes → Select → Result Statement
  unfolding translate insert_select_of
  insert_select coll db cols s = do
    result ← wrap "INSERT ... SELECT: %w" (translate rt vt s)
    insert_select_of coll db cols result

  unfoldable pub insert_rows : Bytes → Bytes → List Bytes → Rows → Result Statement
  unfolding insert_select value_docs
  insert_rows coll db [] rows = fail "INSERT requires explicit column list"
  insert_rows coll db (c ∷ cols) (select_rows s) = insert_select coll db (c ∷ cols) s
  insert_rows coll db (c ∷ cols) (values_rows rows) = do
    docs ← value_docs rt (c ∷ cols) rows
    ok (insert_stmt (record { collection = coll; docs = docs }))
  insert_rows coll db (c ∷ cols) other_rows =
      fail "only INSERT ... VALUES or INSERT ... SELECT is supported, got %T"

  unfoldable pub insert : Insert → Result Statement
  unfolding insert_rows
  insert s = elim s.table_expr [
    | none ↦ fail "INSERT requires a target table"
    | some t ↦ elim t [
      | table db name as' ↦ insert_rows name db s.columns s.rows
      | _ ↦ fail "INSERT target must be a table name"
    ]
  ]

  -- Translate, once the parser has given its tree.
  unfoldable pub dispatch : Parsed → Result Statement
  unfolding insert update delete translate
  dispatch (select_statement s) = translate rt vt s
  dispatch (insert_statement s) = insert s
  dispatch (update_statement s) = update rt s
  dispatch (delete_statement s) = delete rt s
  dispatch other_statement = fail "unsupported statement type: %T"
