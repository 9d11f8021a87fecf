-- ===== src/Mysql/Ddl/Sound/Indexes.antt =====
-- mysql/ddl.go: CREATE INDEX and DROP INDEX, and the soundness of the schema store.
use mongosql.Mysql.Define.{create_indexes, index_def_from_vitess}
use mongosql.Mysql.Syntax.{
  other_option, rename_table_name, change_column, modify_column, drop_column, add_columns,
  add_index_definition, drop_key, AlterOption,
}
use mongosql.Runtime.{Runtime}
use mongosql.Driver.Schema.{IndexDef, TableSchema}
use mongosql.Bytes.{Bytes}
use mongosql.Prelude.{List-cases, inr, inl, Option-cases, List, ◌++◌, [], ◌∷◌}
use mongosql.Driver.Exec.{table_schema}
use mongosql.Client.{Client}
use mongosql.Driver.Schema.Named.{get_schema-named, rewritten-IsSound}
use mongosql.Mysql.Ddl.{Driver, save_schema, Parser}
use mongosql.Mysql.Ddl.Indexes.{
  update_indexes, add_index, add_indexes, drop_index_named, drop_indexes, handle_create_index,
  handle_drop_index, remove_first_index,
}
use mongosql.Mysql.Ddl.Sound.{IsReady, Writes, after-IsReady, table_schema-IsReady}

module _ (client : Client) (writes : Writes client) where
  module _ (rt : Runtime) where
    update_indexes-IsReady :
        (f : List IndexDef → List IndexDef) (table : Bytes) (d : Driver client)
        → IsReady d
        → IsReady (update_indexes rt client f table d)
    unfolding update_indexes IsReady table_schema save_schema
    update_indexes-IsReady f table d h = elim (Option-cases (table_schema client table d).1) [
      | inl e ↦ rw (e, update_indexes) (table_schema-IsReady client writes table d h)
      | inr (schema, e) ↦
          let (n, s) = table_schema-IsReady client writes table d h in
          let d' = (table_schema client table d).0 in
          let changed : TableSchema = record schema { indexes = f schema.indexes } in
          rw (e, writes d.db schema.table_name d.world, update_indexes)
            (
              n,
              rewritten-IsSound d.db table changed d'.schemas n
                  (get_schema-named (client.reads_schema d.db table d.world) d.db table d.schemas
                    schema n h.1 e)
                  s,
            )
    ]

    add_index-IsReady :
        (table : Bytes) (o : AlterOption) (d : Driver client)
        → IsReady d
        → IsReady (add_index rt client table o d)
    unfolding add_index IsReady
    add_index-IsReady table (add_index_definition spec) d h =
        elim (List-cases (index_def_from_vitess spec).columns) [
          | inl e ↦ rw (e, add_index) h
          | inr (c, cs, e) ↦
              rw (e, add_index)
                (update_indexes-IsReady (λ idxs. idxs ++ index_def_from_vitess spec ∷ []) table
                  (record d {
                    world =
                        create_indexes rt client d.db table (index_def_from_vitess spec ∷ [])
                          d.world;
                  })
                  h)
        ]
    add_index-IsReady table (add_columns cs) d h = h
    add_index-IsReady table (drop_column n) d h = h
    add_index-IsReady table (modify_column c) d h = h
    add_index-IsReady table (change_column n c) d h = h
    add_index-IsReady table (drop_key p n) d h = h
    add_index-IsReady table (rename_table_name n) d h = h
    add_index-IsReady table other_option d h = h

    add_indexes-IsReady :
        (table : Bytes) (os : List AlterOption) (d : Driver client)
        → IsReady d
        → IsReady (add_indexes rt client table os d)
    unfolding add_indexes
    add_indexes-IsReady table [] d h = h
    add_indexes-IsReady table (o ∷ os) d h =
        add_indexes-IsReady table os (add_index rt client table o d) (add_index-IsReady table o d h)

    drop_index_named-IsReady :
        (table : Bytes) (o : AlterOption) (d : Driver client)
        → IsReady d
        → IsReady (drop_index_named rt client table o d)
    unfolding drop_index_named IsReady
    drop_index_named-IsReady table (drop_key p n) d h =
        update_indexes-IsReady (λ idxs. remove_first_index idxs n) table
          (record d { world = (client.drop_index d.db table n d.world).1 }) h
    drop_index_named-IsReady table (add_index_definition spec) d h = h
    drop_index_named-IsReady table (add_columns cs) d h = h
    drop_index_named-IsReady table (drop_column n) d h = h
    drop_index_named-IsReady table (modify_column c) d h = h
    drop_index_named-IsReady table (change_column n c) d h = h
    drop_index_named-IsReady table (rename_table_name n) d h = h
    drop_index_named-IsReady table other_option d h = h

    drop_indexes-IsReady :
        (table : Bytes) (os : List AlterOption) (d : Driver client)
        → IsReady d
        → IsReady (drop_indexes rt client table os d)
    unfolding drop_indexes
    drop_indexes-IsReady table [] d h = h
    drop_indexes-IsReady table (o ∷ os) d h =
        drop_indexes-IsReady table os (drop_index_named rt client table o d)
          (drop_index_named-IsReady table o d h)

    pub handle_create_index-IsReady :
        (parser : Parser) (q : Bytes) (d : Driver client)
        → IsReady d
        → IsReady (handle_create_index rt client parser q d).0
    unfolding handle_create_index
    handle_create_index-IsReady parser q d h =
        after-IsReady d _ _ h (λ parts. add_indexes-IsReady parts.0 parts.1 d h)

    pub handle_drop_index-IsReady :
        (parser : Parser) (q : Bytes) (d : Driver client)
        → IsReady d
        → IsReady (handle_drop_index rt client parser q d).0
    unfolding handle_drop_index
    handle_drop_index-IsReady parser q d h =
        after-IsReady d _ _ h (λ parts. drop_indexes-IsReady parts.0 parts.1 d h)
