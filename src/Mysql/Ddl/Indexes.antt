-- ===== src/Mysql/Ddl/Indexes.antt =====
-- mysql/ddl.go: CREATE INDEX and DROP INDEX.
use mongosql.Mysql.Result.{Reply}
use mongosql.Result.{wrapped, ok, err, Result}
use mongosql.Driver.Exec.{table_schema}
use mongosql.Driver.Schema.{TableSchema, cache_key, IndexDef}
use mongosql.Client.{Client}
use mongosql.Bytes.{Bytes, bytes_eq}
use mongosql.Runtime.{Runtime}
use mongosql.Prelude.{if◌then◌else◌, some, ◌∷◌, ◌++◌, none, [], List, String}
use mongosql.Mysql.Ddl.{after, message, Driver, Parser, empty_ok, refused, save_schema}
use mongosql.Mysql.Define.{create_indexes, index_def_from_vitess}
use mongosql.Mysql.Syntax.{AlterOption, add_index_definition, drop_key, alter_table}

-- The first index of this name is removed.
unfoldable pub remove_first_index : List IndexDef → Bytes → List IndexDef
unfolding bytes_eq
remove_first_index [] name = []
remove_first_index (i ∷ idxs) name =
    let rest = remove_first_index idxs name in if bytes_eq i.name name then idxs else i ∷ rest

-- The table and the options of an ALTER TABLE with one at least.
unfoldable pub parse_alter :
    Parser → String → String → String → Bytes → Result (Bytes × List AlterOption)
parse_alter parser init failed unexpected q = elim parser [
  | err e ↦ refused "ER_PARSE_ERROR" (wrapped init e)
  | ok parse ↦ elim (parse q) [
    | err e ↦ refused "ER_PARSE_ERROR" (wrapped failed e)
    | ok tree ↦ elim tree [
      | alter_table table options ↦ elim options [
        | [] ↦ refused "ER_PARSE_ERROR" (message unexpected)
        | o ∷ os ↦ ok (table, o ∷ os)
      ]
      | _ ↦ refused "ER_PARSE_ERROR" (message unexpected)
    ]
  ]
]

module _ (rt : Runtime) (client : Client) where
  -- Get, a change of the indexes of the schema in place, and Save. The schema is the one in the
  -- cache, which has the change also where Save fails.
  unfoldable pub update_indexes :
      (List IndexDef → List IndexDef) → Bytes → Driver client → Driver client
  unfolding table_schema save_schema cache_key
  update_indexes change table d =
      let (d', found) = table_schema client table d in
      elim found [
        | none ↦ d'
        | some schema ↦
            let changed : TableSchema = record schema { indexes = change schema.indexes } in
            (save_schema client changed (record d' {
              schemas = record (d'.schemas) {
                cache = (cache_key d'.db table, changed) ∷ d'.schemas.cache;
              };
            })).0
      ]

  unfoldable pub add_index : Bytes → AlterOption → Driver client → Driver client
  unfolding create_indexes update_indexes index_def_from_vitess
  add_index table (add_index_definition spec) d =
      let idx = index_def_from_vitess spec in
      elim idx.columns [
        | [] ↦ d
        | c ∷ cs ↦
            update_indexes (λ idxs. idxs ++ idx ∷ []) table
              (record d { world = create_indexes rt client d.db table (idx ∷ []) d.world })
      ]
  add_index table o d = d

  unfoldable pub add_indexes : Bytes → List AlterOption → Driver client → Driver client
  unfolding add_index
  add_indexes table [] d = d
  add_indexes table (o ∷ os) d = add_indexes table os (add_index table o d)

  unfoldable pub handle_create_index : Parser → Bytes → Driver client → Driver client × Result Reply
  unfolding parse_alter add_indexes
  handle_create_index parser q d =
      after d
        (parse_alter parser "CREATE INDEX: parser init: %w" "CREATE INDEX: %w"
          "CREATE INDEX: unexpected AST" q)
        (λ parts. let (table, options) = parts in (add_indexes table options d, ok empty_ok))

  -- DROP INDEX of one option.
  unfoldable pub drop_index_named : Bytes → AlterOption → Driver client → Driver client
  unfolding update_indexes remove_first_index
  drop_index_named table (drop_key primary name) d =
      let (dropped, world') = client.drop_index d.db table name d.world in
      update_indexes (λ idxs. remove_first_index idxs name) table (record d { world = world' })
  drop_index_named table o d = d

  unfoldable pub drop_indexes : Bytes → List AlterOption → Driver client → Driver client
  unfolding drop_index_named
  drop_indexes table [] d = d
  drop_indexes table (o ∷ os) d = drop_indexes table os (drop_index_named table o d)

  unfoldable pub handle_drop_index : Parser → Bytes → Driver client → Driver client × Result Reply
  unfolding parse_alter drop_indexes
  handle_drop_index parser q d =
      after d
        (parse_alter parser "DROP INDEX: parser init: %w" "DROP INDEX: %w"
          "DROP INDEX: unexpected AST" q)
        (λ parts. let (table, options) = parts in (drop_indexes table options d, ok empty_ok))
