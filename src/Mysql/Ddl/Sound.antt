-- ===== src/Mysql/Ddl/Sound.antt =====
-- mysql/ddl.go: what the handlers share and the soundness of the schema store.
pub mod Indexes
pub mod Tables
use mongosql.Mysql.Define.{create_indexes, extract_schema, index_def_from_vitess}
use mongosql.Expr.Columns.{no_text}
use mongosql.Vitess.{Vitess}
use mongosql.Mysql.Syntax.{
  other_option, other_ddl, rename_table_name, create_database, change_column, modify_column,
  rename_table, alter_table, drop_column, TableSpec, add_columns, create_table, Ddl,
  add_index_definition, drop_key, AlterOption,
}
use mongosql.Mysql.Scan.{first_ident, split_db_table, split_top_level}
use mongosql.Mysql.Result.{Reply}
use mongosql.Runtime.{Runtime}
use mongosql.Driver.Schema.{IndexDef, TableSchema}
use mongosql.Result.{err, Result-cases, ok, Result}
use mongosql.Bytes.{str, contains, Bytes}
use mongosql.Prelude.{
  List-cases, Option, sym, subst, Bool-cases, inr, inl, Option-cases, List, Bool, ◌++◌, none, [],
  ◌≡◌, ◌∷◌, some, true, arith,
}
use mongosql.Driver.Exec.{table_schema, State}
use mongosql.Client.{Client}
use mongosql.Driver.Schema.Named.{
  IsSound, save-IsSound, get_schema-IsSound, delete_schema-IsSound, get_schema-named,
  rewritten-IsSound,
}
use mongosql.Driver.Schema.Cache.{dot_free}
use mongosql.Mysql.Ddl.{
  has_columns, table_in, Driver, after, make_collection, create_table_fallback, register_schema,
  create_parsed, create_from, handle_create_table, drop_one, drop_tables, handle_drop_table,
  save_schema, Parser, forget_table, missing_name,
}
use mongosql.Mysql.Ddl.Databases.{recreate, handle_truncate}
use mongosql.Mysql.Ddl.Indexes.{
  update_indexes, add_index, add_indexes, drop_index_named, drop_indexes, handle_create_index,
  handle_drop_index, remove_first_index,
}
use mongosql.Mysql.Ddl.Frame.{recreate-db, make_collection-db}

-- The driver works in a database whose name has no dot, over a sound schema store.
unfoldable pub IsReady : {World : Type 0} → State World → Type 0
IsReady d = (dot_free d.db ≡ true) × IsSound d.schemas

pub after-IsReady {ℓ} :
    {World : Type 0} {A : Type ℓ} (d : State World) (r : Result A)
    (f : A → State World × Result Reply)
    → IsReady d
    → ((a : A) → IsReady (f a).0)
    → IsReady (after d r f).0
unfolding after
after-IsReady d (ok a) f h k = k a
after-IsReady d (err e) f h k = h

pub same-IsReady :
    {World : Type 0} (d e : State World)
    → e.db ≡ d.db
    → e.schemas ≡ d.schemas
    → IsReady d
    → IsReady e
unfolding IsReady
same-IsReady d e x y (n, s) = (subst (λ db. dot_free db ≡ true) (sym x) n, subst IsSound (sym y) s)

-- Every schema that the server is asked to write is written.
abbrev pub Writes : Client → Type 0
Writes client = (db table : Bytes) (w : client.World) → client.writes_schema db table w ≡ true

module _ (client : Client) (writes : Writes client) where
  pub table_schema-IsReady :
      (table : Bytes) (d : Driver client) → IsReady d → IsReady (table_schema client table d).0
  unfolding table_schema IsReady
  table_schema-IsReady table d (n, s) =
      (n, get_schema-IsSound (client.reads_schema d.db table d.world) d.db table d.schemas n s)

  pub save_schema-IsReady :
      (schema : TableSchema) (d : Driver client)
      → IsReady d
      → IsReady (save_schema client schema d).0
  unfolding save_schema IsReady
  save_schema-IsReady schema d (n, s) = (
    n,
    save-IsSound (client.writes_schema d.db schema.table_name d.world) d.db schema d.schemas n s,
  )

  make_collection-schemas :
      (b : Bool) (table : Bytes) (d : Driver client)
      → (make_collection client b table d).0.schemas ≡ d.schemas
  unfolding make_collection
  make_collection-schemas b table d =
      elim (Result-cases (client.create_collection d.db table d.world).0) [
        | inl (u, e) ↦ ground (arith, e)
        | inr (u, e) ↦ ground (arith, e)
      ]

  pub make_collection-IsReady :
      (b : Bool) (table : Bytes) (d : Driver client)
      → IsReady d
      → IsReady (make_collection client b table d).0
  make_collection-IsReady b table d h =
      same-IsReady d (make_collection client b table d).0 (make_collection-db client b table d)
        (make_collection-schemas b table d) h

  pub forget_table-IsReady :
      (db table : Bytes) (d : Driver client) → IsReady d → IsReady (forget_table client db table d)
  unfolding forget_table IsReady
  forget_table-IsReady db table d (n, s) =
      (n, delete_schema-IsSound (client.deletes_schema db table d.world) db table d.schemas s)
