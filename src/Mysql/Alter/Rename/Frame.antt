-- ===== src/Mysql/Alter/Rename/Frame.antt =====
-- mysql/alter.go: RENAME TABLE and the database of the driver.
use mongosql.Mysql.Ddl.Frame.{after-db}
use mongosql.Result.{Result-cases}
use mongosql.Prelude.{inr, inl, Option-cases, arith, [], refl, ◌∷◌, ◌≡◌, List}
use mongosql.Driver.Exec.{table_schema}
use mongosql.Bytes.{Bytes}
use mongosql.Client.{Client}
use mongosql.Mysql.Ddl.{Driver, save_schema, Parser}
use mongosql.Mysql.Alter.Rename.{
  migrate_schema, rename_collection, rename_pairs, handle_rename_table,
}

module _ (client : Client) where
  pub migrate_schema-db :
      (from to : Bytes) (d : Driver client) → (migrate_schema client from to d).0.db ≡ d.db
  unfolding migrate_schema table_schema save_schema
  migrate_schema-db from to d = elim (Option-cases (table_schema client from d).1) [
    | inl e ↦ ground (arith, e)
    | inr (s, e) ↦ ground (arith, e)
  ]

  pub rename_collection-db :
      (from to : Bytes) (d : Driver client) → (rename_collection client from to d).0.db ≡ d.db
  unfolding rename_collection
  rename_collection-db from to d =
      elim (Result-cases (client.rename_collection d.db from to d.world).0) [
        | inl (u, e) ↦ ground (
          arith,
          e,
          migrate_schema-db from to
              (record d { world = (client.rename_collection d.db from to d.world).1 }),
        )
        | inr (f, e) ↦ ground (arith, e)
      ]

  rename_pairs-db :
      (pairs : List (Bytes × Bytes)) (d : Driver client) → (rename_pairs client pairs d).0.db ≡ d.db
  unfolding rename_pairs
  rename_pairs-db [] d = refl
  rename_pairs-db ((from, to) ∷ pairs) d =
      elim (Result-cases (rename_collection client from to d).1) [
        | inl (held, e) ↦ ground (
          arith,
          e,
          rename_collection-db from to d,
          rename_pairs-db pairs (rename_collection client from to d).0,
        )
        | inr (f, e) ↦ ground (arith, e, rename_collection-db from to d)
      ]

  pub handle_rename_table-db :
      (parser : Parser) (q : Bytes) (d : Driver client)
      → (handle_rename_table client parser q d).0.db ≡ d.db
  unfolding handle_rename_table
  handle_rename_table-db parser q d = after-db d _ _ (λ pairs. rename_pairs-db pairs d)
