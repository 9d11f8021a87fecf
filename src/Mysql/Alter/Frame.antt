-- ===== src/Mysql/Alter/Frame.antt =====
-- mysql/alter.go: ALTER TABLE and the database of the driver.
use mongosql.Mysql.Result.{Reply}
use mongosql.Mysql.Alter.{changed_indexes, rename_columns, remove_index, replace_column}
use mongosql.Mysql.Syntax.{
  other_option, rename_table_name, drop_key, add_index_definition, change_column, modify_column,
  drop_column, add_columns, AlterOption, ColumnSpec,
}
use mongosql.Mysql.Define.{column_def_from_vitess, eval_default_literal}
use mongosql.Expr.Columns.{no_text}
use mongosql.Vitess.{Vitess}
use mongosql.Mysql.Ddl.Frame.{after-db}
use mongosql.Runtime.{Runtime}
use mongosql.Result.{Result, ok, Result-cases}
use mongosql.Prelude.{
  ◌∙◌, Bool, Bool-cases, inr, inl, Option-cases, arith, ◌||◌, none, some, [], if◌then◌else◌, refl,
  ◌∷◌, false, ◌≡◌, ◌++◌, ◌&&◌, true, List,
}
use mongosql.Driver.Exec.{table_schema}
use mongosql.Driver.Schema.{ColumnDef, IndexDef, TableSchema}
use mongosql.Bytes.{one_of, str, bytes_eq, Bytes}
use mongosql.Client.{Client}
use mongosql.Mysql.Ddl.{empty_ok, Driver, save_schema, Parser}
use mongosql.Mysql.Alter.Rename.{rename_collection}
use mongosql.Mysql.Alter.Options.{
  dropped_for, rename_values, change_indexes, Alteration, change_schema, drop_each, backfill,
  create_one, create_each, add_new_columns, move_column, alter_column, drop_key_named, rename_to,
  alter_option, alter_options, save_changes, alter_table_named, handle_alter_table,
}
use mongosql.Mysql.Alter.Rename.Frame.{rename_collection-db}

module _ (client : Client) where
  change_schema-db :
      (f : TableSchema → TableSchema) (st : Alteration client)
      → (change_schema client f st).driver.db ≡ st.driver.db
  unfolding change_schema
  change_schema-db f st = elim (Option-cases st.schema) [
    | inl e ↦ ground (arith, e)
    | inr (s, e) ↦ ground (arith, e)
  ]

  change_indexes-db :
      (f : List IndexDef → List IndexDef) (st : Alteration client)
      → (change_indexes client f st).driver.db ≡ st.driver.db
  unfolding change_indexes
  change_indexes-db f st = change_schema-db (λ s. record s { indexes = f s.indexes }) st

  drop_each-db :
      (idxs : List IndexDef) (st : Alteration client)
      → (drop_each client idxs st).driver.db ≡ st.driver.db
  unfolding drop_each
  drop_each-db [] st = refl
  drop_each-db (i ∷ idxs) st = elim (Bool-cases (no_text i.name)) [
    | inl e ↦ ground (arith, e, drop_each-db idxs st)
    | inr e ↦ ground (
      arith,
      e,
      drop_each-db idxs (record st {
        driver = record (st.driver) {
          world = (client.drop_index st.driver.db st.table i.name st.driver.world).1;
        };
      }),
    )
  ]

  save_changes-db :
      (rt : Runtime) (vt : Vitess) (fold : Bytes → Bytes → Bool) (st : Alteration client)
      → (save_changes client rt vt fold st).db ≡ st.driver.db
  unfolding save_changes save_schema
  save_changes-db rt vt fold st = elim (Option-cases st.schema) [
    | inl e ↦ ground (arith, e)
    | inr (s, e) ↦ ground (arith, e)
  ]

  module _ (rt : Runtime) where
    backfill-db :
        (cd : ColumnDef) (st : Alteration client)
        → (backfill client rt cd st).driver.db ≡ st.driver.db
    unfolding backfill
    backfill-db cd st = elim (Option-cases (eval_default_literal rt cd)) [
      | inl e ↦ ground (arith, e)
      | inr (v, e) ↦ ground (arith, e)
    ]

    create_each-db :
        (idxs : List IndexDef) (st : Alteration client)
        → (create_each client rt idxs st).driver.db ≡ st.driver.db
    unfolding create_each create_one
    create_each-db [] st = refl
    create_each-db (i ∷ idxs) st = create_each-db idxs (create_one client rt i st)

    module _ (vt : Vitess) (fold : Bytes → Bytes → Bool) where
      add_new_columns-db :
          (cols : List ColumnSpec) (st : Alteration client)
          → (add_new_columns client rt vt fold cols st).driver.db ≡ st.driver.db
      unfolding add_new_columns
      add_new_columns-db [] st = refl
      add_new_columns-db (c ∷ cs) st =
          let cd = column_def_from_vitess rt vt c in
          let with_column : Alteration client =
            change_schema client (λ s. record s { columns = s.columns ++ cd ∷ [] }) st in
          add_new_columns-db cs (backfill client rt cd with_column)
          ∙ (backfill-db cd with_column
              ∙ change_schema-db (λ s. record s { columns = s.columns ++ cd ∷ [] }) st)

      rename_values-db :
          (old new : Bytes) (st : Alteration client)
          → (rename_values client rt vt fold old new st).driver.db ≡ st.driver.db
      unfolding rename_values
      rename_values-db old new st = drop_each-db (dropped_for client rt vt fold old st) st

      move_column-db :
          (old new : Bytes) (st : Alteration client)
          → (move_column client rt vt fold old new st).driver.db ≡ st.driver.db
      unfolding move_column
      move_column-db old new st =
          let dropped = rename_columns fold old new (dropped_for client rt vt fold old st) in
          let moved = rename_values client rt vt fold old new st in
          change_indexes-db (changed_indexes fold old new) (create_each client rt dropped moved)
          ∙ (create_each-db dropped moved ∙ rename_values-db old new st)

      alter_column-db :
          (old : Bytes) (cd : ColumnDef) (st : Alteration client)
          → (alter_column client rt vt fold old cd st).driver.db ≡ st.driver.db
      unfolding alter_column
      alter_column-db old cd st =
          change_schema-db (λ s. record s { columns = replace_column fold s.columns old cd })
            (if bytes_eq old cd.name then st else move_column client rt vt fold old cd.name st)
          ∙ ground (arith, move_column-db old cd.name st)

      drop_key_named-db :
          (name : Bytes) (st : Alteration client)
          → (drop_key_named client rt vt fold name st).driver.db ≡ st.driver.db
      unfolding drop_key_named
      drop_key_named-db name st = elim (Bool-cases (no_text name || one_of name ("PRIMARY" ∷ []))) [
        | inl e ↦ ground (arith, e, change_indexes-db (λ idxs. remove_index fold idxs name) st)
        | inr e ↦ ground (
          arith,
          e,
          change_indexes-db (λ idxs. remove_index fold idxs name)
              (record st {
                driver = record (st.driver) {
                  world = (client.drop_index st.driver.db st.table name st.driver.world).1;
                };
              }),
        )
      ]

      rename_to-db :
          (name : Bytes) (st : Alteration client)
          → (rename_to client rt vt fold name st).0.driver.db ≡ st.driver.db
      unfolding rename_to
      rename_to-db name st =
          elim (Result-cases (rename_collection client st.table name st.driver).1) [
            | inl (held, e) ↦
                (let d = (rename_collection client st.table name st.driver).0 in
                  ground (
                    arith,
                    e,
                    rename_collection-db client st.table name st.driver,
                    change_schema-db (λ s. record s { table_name = name })
                        (record st { table = name; cached = st.cached && held; driver = d }),
                  ))
            | inr (f, e) ↦ ground (arith, e, rename_collection-db client st.table name st.driver)
          ]

      alter_option-db :
          (o : AlterOption) (st : Alteration client)
          → (alter_option client rt vt fold o st).0.driver.db ≡ st.driver.db
      unfolding alter_option create_one
      alter_option-db (add_columns cols) st = add_new_columns-db cols st
      alter_option-db (drop_column name) st = change_schema-db _ _
      alter_option-db (modify_column c) st = change_schema-db _ _
      alter_option-db (change_column old c) st =
          alter_column-db old (column_def_from_vitess rt vt c) st
      alter_option-db (add_index_definition spec) st = change_indexes-db _ _
      alter_option-db (drop_key primary name) st =
          drop_key_named-db (if primary then str "PRIMARY" else name) st
      alter_option-db (rename_table_name name) st = rename_to-db name st
      alter_option-db other_option st = refl

      alter_options-db :
          (os : List AlterOption) (st : Alteration client)
          → (alter_options client rt vt fold os st).0.driver.db ≡ st.driver.db
      unfolding alter_options
      alter_options-db [] st = refl
      alter_options-db (o ∷ os) st = elim (Option-cases (alter_option client rt vt fold o st).1) [
        | inl e ↦ ground (
          arith,
          e,
          alter_option-db o st,
          alter_options-db os (alter_option client rt vt fold o st).0,
        )
        | inr (f, e) ↦ ground (arith, e, alter_option-db o st)
      ]

      alter_table_named-db :
          (table : Bytes) (os : List AlterOption) (d : Driver client)
          → (alter_table_named client rt vt fold table os d).0.db ≡ d.db
      unfolding alter_table_named table_schema
      alter_table_named-db table os d =
          let st : Alteration client = (record {
            table = table;
            schema = (table_schema client table d).1;
            cached = true;
            changed = false;
            driver = (table_schema client table d).0;
          }) in
          elim (Option-cases (alter_options client rt vt fold os st).1) [
            | inl e ↦ ground (
              arith,
              e,
              alter_options-db os st,
              save_changes-db rt vt fold (alter_options client rt vt fold os st).0,
            )
            | inr (f, e) ↦ ground (arith, e, alter_options-db os st)
          ]

      pub handle_alter_table-db :
          (parser : Parser) (q : Bytes) (d : Driver client)
          → (handle_alter_table client rt vt fold parser q d).0.db ≡ d.db
      unfolding handle_alter_table
      handle_alter_table-db parser q d = after-db d _ _ (λ found.
          elim found
            as (λ f.
              (elim f as (λ x. Driver client × Result Reply) [
                | none ↦ (d, ok empty_ok)
                | some x ↦ alter_table_named client rt vt fold x.0 x.1 d
              ]).0.db
              ≡ d.db) [ none ↦ refl | some (table, os) ↦ alter_table_named-db table os d ])
