-- ===== src/Mysql/Alter/Renamed.antt =====
-- mysql/alter.go: the schema of a table that renameCollection has renamed.
use mongosql.Mysql.Alter.Rename.Frame.{migrate_schema-db}
use mongosql.Result.{ok}
use mongosql.Prelude.{arith, true, ◌≡◌, false, some, ◌∷◌}
use mongosql.Bytes.{bytes_eq_refl, bytes_eq, Bytes}
use mongosql.Driver.Exec.{table_schema}
use mongosql.Driver.Schema.{cache_key, find_schema, TableSchema, delete_schema, get_schema, save}
use mongosql.Client.{Client}
use mongosql.Mysql.Alter.Rename.{rename_collection, migrate_schema}
use mongosql.Mysql.Ddl.Created.{IsUnknown, delete_schema-IsUnknown}
use mongosql.Mysql.Ddl.{Driver, save_schema}
use mongosql.Driver.Schema.Cache.{dot_free, bytes_eq-cache_key}

module _ (client : Client) where
  migrate_schema-moves :
      (from to : Bytes) (d : Driver client) (s : TableSchema)
      → dot_free d.db ≡ true
      → bytes_eq to from ≡ false
      → (table_schema client from d).1 ≡ some s
      → client.writes_schema d.db to d.world ≡ true
      → client.deletes_schema d.db from d.world ≡ true
      → (find_schema (cache_key d.db to) (migrate_schema client from to d).0.schemas.cache
          ≡ some (record s { table_name = to }))
        × IsUnknown d.db from (migrate_schema client from to d).0.schemas
  unfolding migrate_schema save_schema save delete_schema
  migrate_schema-moves from to d s plain other found written deleted =
      let ss = (table_schema client from d).0.schemas in
      let renamed : TableSchema = record s { table_name = to } in
      (
        ground (
          arith,
          found,
          written,
          deleted,
          plain,
          other,
          bytes_eq_refl d.db,
          bytes_eq_refl (cache_key d.db to),
          bytes_eq-cache_key d.db d.db to from,
        ),
        rw (found, written, deleted, migrate_schema)
            (delete_schema-IsUnknown d.db from (record {
              cache = (cache_key d.db to, renamed) ∷ (cache_key d.db from, renamed) ∷ ss.cache;
              stored = ((d.db, to), renamed) ∷ ss.stored;
            })),
      )

  -- The driver once the server has renamed the collection.
  abbrev pub renamed_by : Bytes → Bytes → Driver client → Driver client
  renamed_by from to d = record d { world = (client.rename_collection d.db from to d.world).1 }

  -- RENAME TABLE in a database whose name has no dot, where the server renames the collection, has
  -- a schema of it, stores the one with the new name and deletes the old one: a lookup of the new
  -- name gives the schema under its new name, and there is none left under the old name.
  pub rename_collection-table_schema :
      (from to : Bytes) (d : Driver client) (s : TableSchema)
      → dot_free d.db ≡ true
      → bytes_eq to from ≡ false
      → (client.rename_collection d.db from to d.world).0 ≡ ok tt
      → (table_schema client from (renamed_by from to d)).1 ≡ some s
      → client.writes_schema d.db to (renamed_by from to d).world ≡ true
      → client.deletes_schema d.db from (renamed_by from to d).world ≡ true
      → ((table_schema client to (rename_collection client from to d).0).1
          ≡ some (record s { table_name = to }))
        × IsUnknown d.db from (rename_collection client from to d).0.schemas
  unfolding rename_collection table_schema get_schema
  rename_collection-table_schema from to d s plain other renamed found written deleted =
      let (cached, unknown) =
        migrate_schema-moves from to (renamed_by from to d) s plain other found written deleted in
      (
        ground (arith, renamed, cached, migrate_schema-db client from to (renamed_by from to d)),
        rw (renamed, rename_collection) unknown,
      )
