-- ===== src/Driver/Exec.antt =====
-- driver/driver.go: Exec and the functions that run a statement.
pub mod Database
use mongosql.Client.{Client, document, set_stage}
use mongosql.Driver.Schema.{TableSchema, SchemaStore, get_schema, apply_defaults, apply_on_update}
use mongosql.Expr.Columns.{no_text}
use mongosql.Prelude.{not, Option, none, some, List, [], ◌∷◌, ℕ, suc, ltb, if◌then◌else◌}
use mongosql.Prelude.Int.{ℤ, pos, ltb_ℤ}
use mongosql.Bytes.{Bytes, str, bytes_eq, trim}
use mongosql.Result.{fail, Result, ok, err, wrap, ◌>>=◌}
use mongosql.Runtime.{Runtime}
use mongosql.Vitess.{Vitess}
use mongosql.Bson.{Value, Fields, obj, field, end, single, get, has, put, delete}
use mongosql.Sel.Find.{id_key}
use mongosql.Sel.Plan.{
  Statement, FindStmt, AggregateStmt, InsertStmt, UpdateStmt, DeleteStmt, InsertSelectStmt,
  find_stmt, aggregate_stmt, insert_stmt, update_stmt, delete_stmt, insert_select_stmt,
}
use mongosql.Write.{Parsed, dispatch}

-- Result: its Kind with the fields that the kind fills.
pub data Outcome : Type 0 where
  selected : List Fields → Outcome
  inserted : List Value → Outcome
  updated : ℕ → ℕ → Outcome
  deleted : ℕ → Outcome

-- What a Driver works on: the name of its database, the schema store, and the server.
pub record State (World : Type 0) : Type 0 where
  pub db : Bytes
  pub schemas : SchemaStore
  pub world : World

-- UseDB.
abbrev pub use_db : {World : Type 0} → Bytes → State World → State World
use_db name d = record d { db = name }

-- DBNameFromURI: `path` is the path of the URI, where url.Parse reads it.
unfoldable pub db_name_from_uri : Result Bytes → Result Bytes
unfolding trim
db_name_from_uri path = do
  p ← wrap "mongosql: parse uri: %w" path
  let db = trim (b'/' ∷ []) p
  (if no_text db
      then fail "mongosql: no database in uri path (expected mongodb://host/<db>)"
      else ok db)

abbrev positive : ℤ → Option ℤ
positive n = if ltb_ℤ (pos 0) n then some n else none

abbrev pub field_count : Fields → ℕ
field_count end = 0
field_count (field k v fs) = suc (field_count fs)

-- The first field, in the order of the iteration, that is not _id.
unfoldable pub first_other : Fields → Option (Bytes × Value)
unfolding bytes_eq
first_other end = none
first_other (field k v fs) = if not (bytes_eq k id_key) then some (k, v) else first_other fs

-- The loop over the columns of INSERT ... SELECT; `order` is the order in which Go iterates over a
-- map, which may be any.
unfoldable pub remap_columns : (Fields → Fields) → List Bytes → ℕ → Fields → Fields → Fields
unfolding first_other get put delete
remap_columns order [] i raw doc = doc
remap_columns order (c ∷ cs) i raw doc = elim (get c raw) [
  | some v ↦ remap_columns order cs (suc i) raw (put c v doc)
  | none ↦ elim (if ltb i (field_count raw) then first_other (order raw) else none) [
    | none ↦ remap_columns order cs (suc i) raw doc
    | some (k, v) ↦ remap_columns order cs (suc i) (delete k raw) (put c v doc)
  ]
]

unfoldable pub remap_rows : (Fields → Fields) → List Bytes → List Fields → List Fields
unfolding remap_columns
remap_rows order cols [] = []
remap_rows order cols (raw ∷ rows) = remap_columns order cols 0 raw end ∷ remap_rows order cols rows

abbrev distinct_rows : Bytes → List Value → List Fields
distinct_rows name [] = []
distinct_rows name (v ∷ vs) = single name v ∷ distinct_rows name vs

abbrev set_of : Fields → Fields
set_of update = elim (get (str "$set") update) [
  | none ↦ end
  | some v ↦ elim v [ obj d ↦ d | _ ↦ end ]
]

module _ (client : Client) where
  -- Schemas.Get in the database of the driver.
  unfoldable pub table_schema : Bytes → State client.World → State client.World × Option TableSchema
  unfolding get_schema
  table_schema table d =
      let (ss, schema) = get_schema (client.reads_schema d.db table d.world) d.db table d.schemas in
      (record d { schemas = ss }, schema)

module _ (rt : Runtime) (client : Client) where
  abbrev Driver : Type 0
  Driver = State client.World

  unfoldable pub exec_find : FindStmt → Driver → Result Outcome
  exec_find s d =
      if s.empty
      then ok (selected [])
      else if not (no_text s.distinct)
      then (do
        values ← client.distinct d.db s.collection s.distinct s.filter d.world
        ok (selected (distinct_rows s.distinct values)))
      else do
        rows ←
            client.find d.db s.collection s.filter
              (record {
                projection = s.projection;
                sort = s.sort;
                limit = positive s.limit;
                skip = positive s.skip;
              })
              d.world
        ok (selected rows)

  unfoldable pub exec_aggregate : AggregateStmt → Driver → Result Outcome
  exec_aggregate s d =
      if s.empty
      then ok (selected [])
      else do rows ← client.aggregate d.db s.collection s.pipeline d.world; ok (selected rows)

  -- The documents with their defaults, and the world after the counters were read.
  unfoldable pub defaulted :
      Option TableSchema → List Fields → Driver → Result (List Fields × client.World)
  unfolding apply_defaults
  defaulted none docs d = ok (docs, d.world)
  defaulted (some schema) docs d = wrap "apply defaults: %w" (
      apply_defaults rt client.World (client.next_auto_increment d.db schema.table_name) schema docs
        d.world)

  abbrev run_insert : Bytes → Bytes → List Fields → Driver → Driver × Result Outcome
  run_insert db coll docs d =
      let (ids, world') = client.insert_many db coll docs d.world in
      (record d { world = world' }, (do found ← ids; ok (inserted found)))

  -- Where ApplyDefaults fails, the counters that it had moved on are not followed.
  unfoldable pub exec_insert : InsertStmt → Driver → Driver × Result Outcome
  unfolding table_schema defaulted
  exec_insert s d =
      let (d', schema) = table_schema client s.collection d in
      elim (defaulted schema s.docs d') [
        | err e ↦ (d', err e)
        | ok (docs, world') ↦ run_insert d'.db s.collection docs (record d' { world = world' })
      ]

  unfoldable pub update_with : Option TableSchema → Fields → Fields
  unfolding apply_on_update
  update_with none update = update
  update_with (some schema) update = apply_on_update rt schema update

  unfoldable pub exec_update : UpdateStmt → Driver → Driver × Result Outcome
  unfolding table_schema update_with get str
  exec_update s d =
      let (d', schema) = table_schema client s.collection d in
      let update = update_with schema s.update in
      let change =
        if has (str "$pipeline") update then set_stage (set_of update) else document update in
      let (counts, world') = client.update_many d'.db s.collection s.filter change d'.world in
      (record d' { world = world' }, (do (m, n) ← counts; ok (updated m n)))

  unfoldable pub exec_delete : DeleteStmt → Driver → Driver × Result Outcome
  exec_delete s d =
      let (count, world') = client.delete_many d.db s.collection s.filter d.world in
      (record d { world = world' }, (do n ← count; ok (deleted n)))

  unfoldable pub exec_insert_select :
      (Fields → Fields) → InsertSelectStmt → Driver → Driver × Result Outcome
  unfolding remap_rows
  exec_insert_select order s d =
      elim (client.aggregate d.db s.source_collection s.pipeline d.world) [
        | err e ↦ (d, wrap "INSERT ... SELECT aggregate: %w" (err e))
        | ok rows ↦ elim (remap_rows order s.columns rows) [
          | [] ↦ (d, ok (inserted []))
          | doc ∷ docs ↦
              run_insert (if no_text s.target_database then d.db else s.target_database)
                s.target_collection (doc ∷ docs) d
        ]
      ]

  unfoldable pub exec_statement : (Fields → Fields) → Statement → Driver → Driver × Result Outcome
  unfolding exec_find exec_aggregate exec_insert exec_update exec_delete exec_insert_select
  exec_statement order (find_stmt s) d = (d, exec_find s d)
  exec_statement order (aggregate_stmt s) d = (d, exec_aggregate s d)
  exec_statement order (insert_stmt s) d = exec_insert s d
  exec_statement order (update_stmt s) d = exec_update s d
  exec_statement order (delete_stmt s) d = exec_delete s d
  exec_statement order (insert_select_stmt s) d = exec_insert_select order s d

  -- Exec: `parse` is the parser's Parse.
  unfoldable pub exec :
      Vitess
      → (Bytes → Result Parsed)
      → (Fields → Fields)
      → Bytes
      → Driver
      → Driver × Result Outcome
  unfolding dispatch exec_statement
  exec vt parse order sql d =
      elim (do tree ← wrap "parse SQL: %w" (parse sql); dispatch rt vt tree) [
        | err e ↦ (d, err e)
        | ok s ↦ exec_statement order s d
      ]
