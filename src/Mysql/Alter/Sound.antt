-- ===== src/Mysql/Alter/Sound.antt =====
-- mysql/alter.go: RENAME TABLE and the soundness of the schema store.
pub mod Altering
pub mod Options
use mongosql.Driver.Schema.Except.{
  IsSoundBut, IsSound-IsSoundBut, cached-IsSoundBut, save-IsSoundBut, deleted-IsSound,
  get_schema-IsSoundBut, absent-IsSound,
}
use mongosql.Result.{ok, Result-cases}
use mongosql.Driver.Schema.{
  Table, without, cache_key, save, delete_schema, SchemaStore, TableSchema,
}
use mongosql.Driver.Exec.{table_schema}
use mongosql.Bytes.{bytes_eq_refl, Bytes}
use mongosql.Client.{Client}
use mongosql.Prelude.{subst, [], true, inr, ◌∷◌, ◌≡◌, arith, inl, Option-cases, List, Bool}
use mongosql.Driver.Schema.Named.{IsSound, save-IsSound, delete_schema-IsSound}
use mongosql.Driver.Schema.Cache.{dot_free}
use mongosql.Mysql.Ddl.Sound.{IsReady, Writes, after-IsReady, table_schema-IsReady}
use mongosql.Mysql.Alter.Rename.{
  migrate_schema, rename_collection, rename_pairs, handle_rename_table,
}
use mongosql.Mysql.Ddl.{Driver, save_schema, Parser}

module _ (client : Client) (writes : Writes client) where
  -- Before the migration, the store need not be sound at the old name.
  migrate_schema-moves_IsSound :
      (from to : Bytes) (d : Driver client)
      → dot_free d.db ≡ true
      → IsSoundBut d.db from d.schemas
      → IsReady (migrate_schema client from to d).0
  unfolding migrate_schema IsReady table_schema save_schema
  migrate_schema-moves_IsSound from to d n but =
      let reads = client.reads_schema d.db from d.world in
      elim (Option-cases (table_schema client from d).1) [
        | inl e ↦ rw (e, migrate_schema) (n, absent-IsSound reads d.db from d.schemas n but e)
        | inr (s, e) ↦
            let renamed : TableSchema = record s { table_name = to } in
            let read = (table_schema client from d).0.schemas in
            let renamed_in_cache : SchemaStore = record read {
              cache = (cache_key d.db from, renamed) ∷ read.cache;
            } in
            rw (e, writes d.db to d.world, migrate_schema)
              (
                n,
                deleted-IsSound (client.deletes_schema d.db from d.world) d.db from
                    (save true d.db renamed renamed_in_cache).0 n
                    (save-IsSoundBut d.db from renamed renamed_in_cache n (
                      cached-IsSoundBut d.db from renamed read n
                        (get_schema-IsSoundBut reads d.db from d.schemas n but))),
              )
      ]

  migrate_schema-IsReady :
      (from to : Bytes) (d : Driver client)
      → IsReady d
      → IsReady (migrate_schema client from to d).0
  unfolding IsReady
  migrate_schema-IsReady from to d (n, s) =
      migrate_schema-moves_IsSound from to d n (IsSound-IsSoundBut d.db from d.schemas s)

  pub rename_collection-moves_IsSound :
      (from to : Bytes) (d : Driver client) (held : Bool)
      → dot_free d.db ≡ true
      → IsSoundBut d.db from d.schemas
      → (rename_collection client from to d).1 ≡ ok held
      → IsReady (rename_collection client from to d).0
  unfolding rename_collection IsReady
  rename_collection-moves_IsSound from to d held n but done =
      let d' : Driver client = record d {
        world = (client.rename_collection d.db from to d.world).1;
      } in
      elim (Result-cases (client.rename_collection d.db from to d.world).0) [
        | inl (u, e) ↦ rw (e, rename_collection) (migrate_schema-moves_IsSound from to d' n but)
        | inr (f, e) ↦ absurd (ground (arith, e, done))
      ]

  rename_collection-IsReady :
      (from to : Bytes) (d : Driver client)
      → IsReady d
      → IsReady (rename_collection client from to d).0
  unfolding rename_collection IsReady
  rename_collection-IsReady from to d h =
      let d' : Driver client = record d {
        world = (client.rename_collection d.db from to d.world).1;
      } in
      elim (Result-cases (client.rename_collection d.db from to d.world).0) [
        | inl (u, e) ↦ rw (e, rename_collection) (migrate_schema-IsReady from to d' h)
        | inr (f, e) ↦ rw (e, rename_collection) h
      ]

  rename_pairs-IsReady :
      (pairs : List (Bytes × Bytes)) (d : Driver client)
      → IsReady d
      → IsReady (rename_pairs client pairs d).0
  unfolding rename_pairs
  rename_pairs-IsReady [] d h = h
  rename_pairs-IsReady ((from, to) ∷ pairs) d h =
      let d' = (rename_collection client from to d).0 in
      elim (Result-cases (rename_collection client from to d).1) [
        | inl (held, e) ↦
            rw (e, rename_pairs)
              (rename_pairs-IsReady pairs d' (rename_collection-IsReady from to d h))
        | inr (f, e) ↦ rw (e, rename_pairs) (rename_collection-IsReady from to d h)
      ]

  pub handle_rename_table-IsReady :
      (parser : Parser) (q : Bytes) (d : Driver client)
      → IsReady d
      → IsReady (handle_rename_table client parser q d).0
  unfolding handle_rename_table
  handle_rename_table-IsReady parser q d h =
      after-IsReady d _ _ h (λ pairs. rename_pairs-IsReady pairs d h)
