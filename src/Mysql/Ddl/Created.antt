-- ===== src/Mysql/Ddl/Created.antt =====
-- mysql/ddl.go: CREATE TABLE and DROP TABLE, and the schemas that are looked up after them.
use mongosql.Mysql.Ddl.Frame.{make_collection-db, drop_one-db}
use mongosql.Expr.Columns.{no_text}
use mongosql.Mysql.Syntax.{ColumnSpec, TableSpec}
use mongosql.Result.{ok, Result-cases}
use mongosql.Vitess.{Vitess}
use mongosql.Client.{Client}
use mongosql.Runtime.{Runtime}
use mongosql.Bytes.{bytes_eq_refl, Bytes}
use mongosql.Prelude.{
  subst, ◌∙◌, Bool-cases, inr, inl, List, none, ◌++◌, true, [], arith, false, ◌≡◌, some, ◌∷◌, refl,
  Bool,
}
use mongosql.Mysql.Ddl.{
  has_columns, drop_one, Driver, make_collection, create_parsed, register_schema, save_schema,
  drop_tables, forget_table, table_in,
}
use mongosql.Mysql.Define.{index_defs, column_defs, extract_schema}
use mongosql.Driver.Exec.{table_schema}
use mongosql.Driver.Schema.Cache.{find_stored-without_same, find_schema-without_same}
use mongosql.Driver.Schema.{
  get_schema, TableSchema, save, Table, Stored, find_stored, find_schema, stored_without, without,
  cache_key, delete_schema, SchemaStore,
}

-- The store knows no schema of the table.
pub IsUnknown : Bytes → Bytes → SchemaStore → Type 0
IsUnknown db table ss =
    (find_schema (cache_key db table) ss.cache ≡ none) × (find_stored db table ss.stored ≡ none)

find_schema-keeps_none :
    (key other : Bytes) (t : Table)
    → find_schema other t ≡ none
    → find_schema other (without key t) ≡ none
unfolding find_schema without
find_schema-keeps_none key other [] h = refl
find_schema-keeps_none key other ((k, s) ∷ t) h = ground (arith, find_schema-keeps_none key other t)

find_stored-keeps_none :
    (d x e y : Bytes) (r : Stored)
    → find_stored e y r ≡ none
    → find_stored e y (stored_without d x r) ≡ none
unfolding find_stored stored_without
find_stored-keeps_none d x e y [] h = refl
find_stored-keeps_none d x e y (((a, t), s) ∷ r) h =
    ground (arith, find_stored-keeps_none d x e y r)

pub delete_schema-IsUnknown :
    (db table : Bytes) (ss : SchemaStore) → IsUnknown db table (delete_schema true db table ss)
unfolding IsUnknown delete_schema
delete_schema-IsUnknown db table ss = (
  find_schema-without_same (cache_key db table) ss.cache,
  find_stored-without_same db table ss.stored,
)

delete_schema-keeps_IsUnknown :
    (deleted : Bool) (db table e y : Bytes) (ss : SchemaStore)
    → IsUnknown e y ss
    → IsUnknown e y (delete_schema deleted db table ss)
unfolding IsUnknown delete_schema
delete_schema-keeps_IsUnknown true db table e y ss (h, k) = (
  find_schema-keeps_none (cache_key db table) (cache_key e y) ss.cache h,
  find_stored-keeps_none db table e y ss.stored k,
)
delete_schema-keeps_IsUnknown false db table e y ss (h, k) =
    (find_schema-keeps_none (cache_key db table) (cache_key e y) ss.cache h, k)

module _ (rt : Runtime) (client : Client) where
  drop_one-keeps_IsUnknown :
      (b : Bool) (n : Bytes) (d : Driver client) (e y : Bytes)
      → IsUnknown e y d.schemas
      → IsUnknown e y (drop_one rt client b n d).0.schemas
  unfolding drop_one forget_table
  drop_one-keeps_IsUnknown b n d e y h =
      let (db, table) = table_in rt d.db n in
      let w = (client.drop_collection db table d.world).1 in
      elim (Bool-cases (no_text table)) [
        | inl missing ↦ rw (missing, drop_one) h
        | inr named ↦ elim (Result-cases (client.drop_collection db table d.world).0) [
          | inl (u, f) ↦
              rw (named, f, drop_one)
                (delete_schema-keeps_IsUnknown (client.deletes_schema db table w) db table e y
                  d.schemas h)
          | inr (x, f) ↦ rw (named, f, drop_one) h
        ]
      ]

  drop_tables-keeps_IsUnknown :
      (b : Bool) (names : List Bytes) (d : Driver client) (e y : Bytes)
      → IsUnknown e y d.schemas
      → IsUnknown e y (drop_tables rt client b names d).0.schemas
  unfolding drop_tables
  drop_tables-keeps_IsUnknown b [] d e y h = h
  drop_tables-keeps_IsUnknown b (n ∷ ns) d e y h =
      let d' = (drop_one rt client b n d).0 in
      elim (Result-cases (drop_one rt client b n d).1) [
        | inl (u, f) ↦
            rw (f, drop_tables)
              (drop_tables-keeps_IsUnknown b ns d' e y (drop_one-keeps_IsUnknown b n d e y h))
        | inr (x, f) ↦ rw (f, drop_tables) (drop_one-keeps_IsUnknown b n d e y h)
      ]

  drop_one-IsUnknown :
      (b : Bool) (n : Bytes) (d : Driver client)
      → ((db table : Bytes) (w : client.World) → (client.drop_collection db table w).0 ≡ ok tt)
      → ((db table : Bytes) (w : client.World) → client.deletes_schema db table w ≡ true)
      → no_text (table_in rt d.db n).1 ≡ false
      → IsUnknown (table_in rt d.db n).0 (table_in rt d.db n).1 (drop_one rt client b n d).0.schemas
  unfolding drop_one forget_table
  drop_one-IsUnknown b n d drops deletes named =
      let (db, table) = table_in rt d.db n in
      let w = (client.drop_collection db table d.world).1 in
      rw (named, drops db table d.world, deletes db table w, drop_one)
        (delete_schema-IsUnknown db table d.schemas)

  drop_one-ok :
      (b : Bool) (n : Bytes) (d : Driver client)
      → ((db table : Bytes) (w : client.World) → (client.drop_collection db table w).0 ≡ ok tt)
      → (drop_one rt client b n d).1 ≡ ok tt
  unfolding drop_one
  drop_one-ok b n d drops =
      let (db, table) = table_in rt d.db n in ground (arith, drops db table d.world)

  drop_tables-IsUnknown_in :
      (db : Bytes) (b : Bool) (before : List Bytes) (n : Bytes) (after : List Bytes)
      (d : Driver client)
      → ((db table : Bytes) (w : client.World) → (client.drop_collection db table w).0 ≡ ok tt)
      → ((db table : Bytes) (w : client.World) → client.deletes_schema db table w ≡ true)
      → d.db ≡ db
      → no_text (table_in rt db n).1 ≡ false
      → IsUnknown
          (table_in rt db n).0
          (table_in rt db n).1
          (drop_tables rt client b (before ++ n ∷ after) d).0.schemas
  unfolding drop_tables
  drop_tables-IsUnknown_in db b [] n after d drops deletes same named =
      rw (drop_one-ok b n d drops, drop_tables)
        (drop_tables-keeps_IsUnknown b after (drop_one rt client b n d).0 (table_in rt db n).0
          (table_in rt db n).1
          (subst
            (λ x.
              no_text (table_in rt x n).1 ≡ false
              → IsUnknown (table_in rt x n).0 (table_in rt x n).1
                  (drop_one rt client b n d).0.schemas)
            same (drop_one-IsUnknown b n d drops deletes) named))
  drop_tables-IsUnknown_in db b (m ∷ before) n after d drops deletes same named =
      rw (drop_one-ok b m d drops, drop_tables)
        (drop_tables-IsUnknown_in db b before n after (drop_one rt client b m d).0 drops deletes
          (drop_one-db client rt b m d ∙ same) named)

  -- Where the server drops what it is told to drop, and deletes the schemas, DROP TABLE leaves no
  -- schema of a table of its list, neither in the cache nor in the collection: a later table of
  -- the same name starts without.
  pub drop_tables-IsUnknown :
      (b : Bool) (before : List Bytes) (n : Bytes) (after : List Bytes) (d : Driver client)
      → ((db table : Bytes) (w : client.World) → (client.drop_collection db table w).0 ≡ ok tt)
      → ((db table : Bytes) (w : client.World) → client.deletes_schema db table w ≡ true)
      → no_text (table_in rt d.db n).1 ≡ false
      → IsUnknown
          (table_in rt d.db n).0
          (table_in rt d.db n).1
          (drop_tables rt client b (before ++ n ∷ after) d).0.schemas
  drop_tables-IsUnknown b before n after d drops deletes named =
      drop_tables-IsUnknown_in d.db b before n after d drops deletes refl named

  module _ (vt : Vitess) where
    register_schema-stored :
        (s : TableSchema) (d : Driver client)
        → has_columns rt client vt s ≡ true
        → client.writes_schema d.db s.table_name d.world ≡ true
        → ((table_schema client s.table_name
              (register_schema rt client vt (some s) s.table_name d)).1
            ≡ some s)
          × (find_stored d.db s.table_name
                (register_schema rt client vt (some s) s.table_name d).schemas.stored
              ≡ some s)
    unfolding register_schema save_schema table_schema save get_schema find_schema find_stored
    register_schema-stored s d h w = (
      ground (arith, h, w, bytes_eq_refl (cache_key d.db s.table_name)),
      ground (arith, h, w, bytes_eq_refl d.db, bytes_eq_refl s.table_name),
    )

    -- CREATE TABLE of a new collection, with a column at least, where the server stores the schema:
    -- what is looked up for the table, and what is stored, is the schema of the statement.
    pub create_parsed-table_schema :
        (b : Bool) (table : Bytes) (spec : TableSpec) (c : ColumnSpec) (cs : List ColumnSpec)
        (d : Driver client)
        → no_text table ≡ false
        → spec.columns ≡ c ∷ cs
        → (make_collection client b table d).1 ≡ ok true
        → client.writes_schema d.db table (make_collection client b table d).0.world ≡ true
        → ((table_schema client table (create_parsed rt client vt b table (some spec) d).0).1
            ≡ extract_schema rt vt table (some spec))
          × (find_stored d.db table
                (create_parsed rt client vt b table (some spec) d).0.schemas.stored
              ≡ extract_schema rt vt table (some spec))
    unfolding create_parsed register_schema save_schema extract_schema table_schema
    create_parsed-table_schema b table spec c cs d named columns made written =
        let d' = (make_collection client b table d).0 in
        let schema : TableSchema = record {
          table_name = table;
          columns = column_defs rt vt spec.columns;
          indexes = index_defs spec.indexes;
        } in
        rw (named, made, create_parsed)
          (subst
            (λ x.
              client.writes_schema x table d'.world ≡ true
              → ((table_schema client table (register_schema rt client vt (some schema) table d')).1
                  ≡ some schema)
                × (find_stored x table
                      (register_schema rt client vt (some schema) table d').schemas.stored
                    ≡ some schema))
            (make_collection-db client b table d)
            (register_schema-stored schema d' (rw columns refl)) written)
