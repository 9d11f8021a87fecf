-- ===== src/Mysql/Alter/Rename.antt =====
-- mysql/alter.go: renameCollection, RENAME TABLE, CREATE DATABASE and the table administration.
pub mod Frame
use mongosql.Prelude.Int.{pos}
use mongosql.Expr.Slice.{slice}
use mongosql.Expr.Columns.{no_text, dotted}
use mongosql.Driver.Schema.{TableSchema, cache_key, delete_schema}
use mongosql.Mysql.Scan.{clean_ident, split_top_level}
use mongosql.Bson.{int64, text, Value}
use mongosql.Mysql.Result.{rows_result, Reply, Wire}
use mongosql.Driver.Exec.{table_schema}
use mongosql.Result.{message, ◌>>=◌, wrapped, ok, err, Result}
use mongosql.Prelude.{
  length, [], Bool, if◌then◌else◌, some, false, ◌&&◌, not, ◌∷◌, none, String, List,
}
use mongosql.Client.{Client}
use mongosql.Runtime.{Runtime}
use mongosql.Bytes.{bytes_eq, str, has_prefix, Bytes}
use mongosql.Mysql.Syntax.{rename_table, create_database}
use mongosql.Mysql.Ddl.{after, Driver, Parser, empty_ok, refused, save_schema}

-- The word of `handleTableAdmin`, and what stands behind the leading words of the statement.
abbrev admin_word : Bytes → String
admin_word upper =
    if has_prefix upper (str "ANALYZE")
    then "analyze"
    else if has_prefix upper (str "OPTIMIZE")
    then "optimize"
    else if has_prefix upper (str "REPAIR")
    then "repair"
    else if has_prefix upper (str "CHECKSUM")
    then "checksum"
    else "check"

abbrev admin_prefixes : List String
admin_prefixes =
    "ANALYZE TABLE" ∷ "OPTIMIZE TABLE" ∷ "REPAIR TABLE" ∷ "CHECKSUM TABLE" ∷ "CHECK TABLE" ∷ []

-- The pairs of names of a RENAME TABLE.
unfoldable pub parse_rename : Parser → Bytes → Result (List (Bytes × Bytes))
parse_rename parser q = elim parser [
  | err e ↦ refused "ER_PARSE_ERROR" (wrapped "RENAME TABLE: parser init: %w" e)
  | ok parse ↦ elim (parse q) [
    | err e ↦ refused "ER_PARSE_ERROR" (wrapped "RENAME TABLE: %w" e)
    | ok tree ↦ elim tree [
      | rename_table pairs ↦ ok pairs
      | _ ↦ refused "ER_PARSE_ERROR" (message "RENAME TABLE: unexpected AST")
    ]
  ]
]

module _ (client : Client) where
  -- Get, the new name in the schema, Save and Delete. The schema of the cache is changed in place;
  -- the flag tells whether the store holds it under the new name afterwards.
  unfoldable pub migrate_schema : Bytes → Bytes → Driver client → Driver client × Bool
  unfolding table_schema save_schema delete_schema cache_key bytes_eq
  migrate_schema from to d =
      let (d1, found) = table_schema client from d in
      elim found [
        | none ↦ (d1, false)
        | some schema ↦
            let renamed : TableSchema = record schema { table_name = to } in
            let (d2, written) = save_schema client renamed (record d1 {
              schemas = record (d1.schemas) {
                cache = (cache_key d1.db from, renamed) ∷ d1.schemas.cache;
              };
            }) in
            (
              record d2 {
                schemas =
                    delete_schema (client.deletes_schema d2.db from d2.world) d2.db from d2.schemas;
              },
              written && not (bytes_eq from to),
            )
      ]

  unfoldable pub rename_collection : Bytes → Bytes → Driver client → Driver client × Result Bool
  unfolding migrate_schema
  rename_collection from to d =
      let (renamed, world') = client.rename_collection d.db from to d.world in
      let (d', held) = migrate_schema from to (record d { world = world' }) in
      elim renamed [
        | err e ↦ (record d { world = world' }, err e)
        | ok u ↦ (record d' { world = client.move_counter d'.db from to d'.world }, ok held)
      ]

  unfoldable pub rename_pairs : List (Bytes × Bytes) → Driver client → Driver client × Result Reply
  unfolding rename_collection
  rename_pairs [] d = (d, ok empty_ok)
  rename_pairs ((from, to) ∷ pairs) d =
      let (d', renamed) = rename_collection from to d in
      elim renamed [
        | err e ↦ (d', refused "ER_UNKNOWN_ERROR" (wrapped "RENAME TABLE: %w" e))
        | ok held ↦ rename_pairs pairs d'
      ]

  unfoldable pub handle_rename_table : Parser → Bytes → Driver client → Driver client × Result Reply
  unfolding rename_pairs parse_rename
  handle_rename_table parser q d = after d (parse_rename parser q) (λ pairs. rename_pairs pairs d)

-- CREATE DATABASE does nothing but log.
unfoldable pub handle_create_database : Parser → Bytes → Result Reply
handle_create_database parser q = elim parser [
  | err e ↦ ok empty_ok
  | ok parse ↦ elim (parse q) [
    | err e ↦ ok empty_ok
    | ok tree ↦ elim tree [ create_database name ↦ ok empty_ok | _ ↦ ok empty_ok ]
  ]
]

module _ (rt : Runtime) (wire : Wire) where
  unfoldable pub behind_prefix : List String → Bytes → Result Bytes
  unfolding has_prefix str slice
  behind_prefix [] q = ok q
  behind_prefix (p ∷ ps) q =
      if has_prefix (rt.to_upper q) (str p)
      then slice q (pos (length (str p))) (pos (length q))
      else behind_prefix ps q

  -- The checksum is a uint64.
  checksum_rows : Bytes → List Bytes → List (List Value)
  checksum_rows db [] = []
  checksum_rows db (n ∷ ns) =
      (text (dotted db (clean_ident rt n)) ∷ int64 (pos 0) ∷ []) ∷ checksum_rows db ns

  admin_rows : Bytes → Bytes → List Bytes → List (List Value)
  admin_rows op db [] = []
  admin_rows op db (n ∷ ns) =
      (text (dotted db (clean_ident rt n)) ∷ text op ∷ text (str "status") ∷ text (str "OK") ∷ [])
      ∷ admin_rows op db ns

  -- The status rows; `driver_db` names the database of the driver.
  unfoldable pub handle_table_admin : Bytes → Bytes → Bytes → Bytes → Result Reply
  unfolding behind_prefix split_top_level clean_ident rows_result checksum_rows admin_rows
  handle_table_admin current_db driver_db q upper = do
    rest ← behind_prefix admin_prefixes q
    let names = split_top_level rest b','
    let db = if no_text current_db then driver_db else current_db
    (if has_prefix upper (str "CHECKSUM")
        then ok (rows_result wire (str "Table" ∷ str "Checksum" ∷ []) (checksum_rows db names))
        else ok (
            rows_result wire (str "Table" ∷ str "Op" ∷ str "Msg_type" ∷ str "Msg_text" ∷ [])
              (admin_rows (str (admin_word upper)) db names)))
