-- ===== src/Mysql/Alter/Options.antt =====
-- mysql/alter.go: handleAlterTable.
use mongosql.Mysql.Result.{Reply}
use mongosql.Expr.Columns.{no_text}
use mongosql.Result.{wrapped, ok, err, Error, Result}
use mongosql.Driver.Exec.{table_schema, State}
use mongosql.Vitess.{Vitess}
use mongosql.Runtime.{Runtime}
use mongosql.Driver.Schema.{TableSchema, ColumnDef, IndexDef, cache_key}
use mongosql.Prelude.{
  none, [], if◌then◌else◌, false, ◌++◌, ◌&&◌, ◌||◌, true, some, ◌∷◌, Option, Bool, List,
}
use mongosql.Bytes.{one_of, bytes_eq, str, Bytes}
use mongosql.Mysql.Syntax.{
  ColumnSpec, AlterOption, add_columns, drop_column, modify_column, change_column,
  add_index_definition, drop_key, rename_table_name, other_option, alter_table,
}
use mongosql.Bson.{single, Fields, bool, text, obj, end}
use mongosql.Client.{Client, document}
use mongosql.Mysql.Ddl.{after, Driver, Parser, empty_ok, refused, save_schema}
use mongosql.Mysql.Alter.Rename.{rename_collection}
use mongosql.Mysql.Alter.{
  covering, rename_columns, changed_indexes, remove_column, replace_column, remove_index,
}
use mongosql.Mysql.Define.{
  create_indexes, index_def_from_vitess, column_def_from_vitess, eval_default_literal,
}

-- The variables of handleAlterTable. `cached` tells whether `schema` is the one that the cache has
-- under the name of the table: what changes it then changes the cache.
pub record Altering (World : Type 0) : Type 0 where
  pub table : Bytes
  pub schema : Option TableSchema
  pub cached : Bool
  pub changed : Bool
  pub driver : State World

-- The table and the options of an ALTER TABLE. A statement that is not understood, `none`, is
-- answered as if it were done.
unfoldable pub parse_alter_table : Parser → Bytes → Result (Option (Bytes × List AlterOption))
parse_alter_table parser q = elim parser [
  | err e ↦ refused "ER_PARSE_ERROR" (wrapped "ALTER TABLE: parser init: %w" e)
  | ok parse ↦ elim (parse q) [
    | err e ↦ ok none
    | ok tree ↦ elim tree [ alter_table table options ↦ ok (some (table, options)) | _ ↦ ok none ]
  ]
]

module _ (client : Client) where
  abbrev pub Alteration : Type 0
  Alteration = Altering client.World

  unfoldable pub change_schema : (TableSchema → TableSchema) → Alteration → Alteration
  unfolding cache_key
  change_schema change st = elim st.schema [
    | none ↦ st
    | some schema ↦
        let d = st.driver in
        record st {
          schema = some (change schema);
          changed = true;
          driver =
              if st.cached
              then record d {
                schemas = record (d.schemas) {
                  cache = (cache_key d.db st.table, change schema) ∷ d.schemas.cache;
                };
              }
              else d;
        }
  ]

  abbrev change_columns : (List ColumnDef → List ColumnDef) → Alteration → Alteration
  change_columns f = change_schema (λ s. record s { columns = f s.columns })

  unfoldable pub change_indexes : (List IndexDef → List IndexDef) → Alteration → Alteration
  unfolding change_schema
  change_indexes f = change_schema (λ s. record s { indexes = f s.indexes })

  -- A call of the driver on the collection, whose failure is logged only.
  abbrev on_world : (Bytes → Bytes → client.World → client.World) → Alteration → Alteration
  on_world f st =
      let d = st.driver in record st { driver = record d { world = f d.db st.table d.world } }

  abbrev update_all : Fields → Fields → Alteration → Alteration
  update_all filter update =
      on_world (λ db table w. (client.update_many db table filter (document update) w).1)

  abbrev drop_named : Bytes → Alteration → Alteration
  drop_named name = on_world (λ db table w. (client.drop_index db table name w).1)

  unfoldable pub drop_each : List IndexDef → Alteration → Alteration
  drop_each [] st = st
  drop_each (i ∷ idxs) st = drop_each idxs (if no_text i.name then st else drop_named i.name st)

  module _ (rt : Runtime) where
    -- The new column gets its default in the documents that do not have it.
    unfoldable pub backfill : ColumnDef → Alteration → Alteration
    unfolding eval_default_literal str
    backfill cd st = elim (eval_default_literal rt cd) [
      | none ↦ st
      | some v ↦
          update_all (single cd.name (obj (single (str "$exists") (bool false))))
            (single (str "$set") (obj (single cd.name v))) st
    ]

    unfoldable pub create_one : IndexDef → Alteration → Alteration
    unfolding create_indexes
    create_one idx = on_world (λ db table w. create_indexes rt client db table (idx ∷ []) w)

    unfoldable pub create_each : List IndexDef → Alteration → Alteration
    unfolding create_one
    create_each [] st = st
    create_each (i ∷ idxs) st = create_each idxs (create_one i st)

    module _ (vt : Vitess) (fold : Bytes → Bytes → Bool) where
      unfoldable pub add_new_columns : List ColumnSpec → Alteration → Alteration
      unfolding change_schema backfill column_def_from_vitess
      add_new_columns [] st = st
      add_new_columns (c ∷ cs) st =
          let cd = column_def_from_vitess rt vt c in
          add_new_columns cs (backfill cd (change_columns (λ cols. cols ++ cd ∷ []) st))

      -- The indexes that cover the column.
      unfoldable pub dropped_for : Bytes → Alteration → List IndexDef
      unfolding covering
      dropped_for old st = elim st.schema [ none ↦ [] | some s ↦ covering fold old s.indexes ]

      -- $rename in the documents, once these indexes are dropped.
      unfoldable pub rename_values : Bytes → Bytes → Alteration → Alteration
      unfolding dropped_for drop_each str
      rename_values old new st =
          update_all (single old (obj (single (str "$exists") (bool true))))
            (single (str "$rename") (obj (single old (text new))))
            (drop_each (dropped_for old st) st)

      -- The name of a column changes: its indexes are created again for the new name.
      unfoldable pub move_column : Bytes → Bytes → Alteration → Alteration
      unfolding change_indexes create_each rename_columns changed_indexes rename_values dropped_for
      move_column old new st = change_indexes (changed_indexes fold old new) (
          create_each (rename_columns fold old new (dropped_for old st)) (rename_values old new st))

      unfoldable pub alter_column : Bytes → ColumnDef → Alteration → Alteration
      unfolding move_column change_schema replace_column bytes_eq
      alter_column old cd st =
          change_columns (λ cols. replace_column fold cols old cd)
            (if bytes_eq old cd.name then st else move_column old cd.name st)

      unfoldable pub drop_key_named : Bytes → Alteration → Alteration
      unfolding change_indexes remove_index one_of
      drop_key_named name st =
          change_indexes (λ idxs. remove_index fold idxs name)
            (if no_text name || one_of name ("PRIMARY" ∷ []) then st else drop_named name st)

      unfoldable pub rename_to : Bytes → Alteration → Alteration × Option Error
      unfolding rename_collection change_schema
      rename_to name st =
          let (d, renamed) = rename_collection client st.table name st.driver in
          elim renamed [
            | err e ↦ (record st { driver = d }, some (wrapped "ALTER TABLE RENAME: %w" e))
            | ok held ↦ (
              change_schema (λ s. record s { table_name = name })
                  (record st { table = name; cached = st.cached && held; driver = d }),
              none,
            )
          ]

      -- One option of the statement.
      unfoldable pub alter_option : AlterOption → Alteration → Alteration × Option Error
      unfolding add_new_columns alter_column drop_key_named rename_to change_schema change_indexes
          remove_column replace_column create_one index_def_from_vitess column_def_from_vitess str
      alter_option (add_columns cols) st = (add_new_columns cols st, none)
      alter_option (drop_column name) st = (
        change_columns (λ cols. remove_column fold cols name)
            (update_all end (single (str "$unset") (obj (single name (text [])))) st),
        none,
      )
      alter_option (modify_column c) st =
          let cd = column_def_from_vitess rt vt c in
          (change_columns (λ cols. replace_column fold cols cd.name cd) st, none)
      alter_option (change_column old c) st =
          (alter_column old (column_def_from_vitess rt vt c) st, none)
      alter_option (add_index_definition spec) st =
          let idx = index_def_from_vitess spec in
          (change_indexes (λ idxs. idxs ++ idx ∷ []) (create_one idx st), none)
      alter_option (drop_key primary name) st =
          (drop_key_named (if primary then str "PRIMARY" else name) st, none)
      alter_option (rename_table_name name) st = rename_to name st
      alter_option other_option st = (st, none)

      unfoldable pub alter_options : List AlterOption → Alteration → Alteration × Option Error
      unfolding alter_option
      alter_options [] st = (st, none)
      alter_options (o ∷ os) st =
          let (st', failed) = alter_option o st in
          elim failed [ some e ↦ (st', some e) | none ↦ alter_options os st' ]

      -- The schema is saved at the end, where it changed.
      unfoldable pub save_changes : Alteration → Driver client
      unfolding save_schema
      save_changes st = elim st.schema [
        | none ↦ st.driver
        | some schema ↦ if st.changed then (save_schema client schema st.driver).0 else st.driver
      ]

      unfoldable pub alter_table_named :
          Bytes → List AlterOption → Driver client → Driver client × Result Reply
      unfolding table_schema alter_options save_changes
      alter_table_named table options d =
          let (d', found) = table_schema client table d in
          let (st, failed) = alter_options options (record {
            table = table;
            schema = found;
            cached = true;
            changed = false;
            driver = d';
          }) in
          elim failed [
            | some e ↦ (st.driver, refused "ER_UNKNOWN_ERROR" e)
            | none ↦ (save_changes st, ok empty_ok)
          ]

      unfoldable pub handle_alter_table :
          Parser → Bytes → Driver client → Driver client × Result Reply
      unfolding alter_table_named parse_alter_table
      handle_alter_table parser q d = after d (parse_alter_table parser q) (λ found. elim found [
        | none ↦ (d, ok empty_ok)
        | some (table, options) ↦ alter_table_named table options d
      ])
