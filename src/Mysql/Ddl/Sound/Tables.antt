-- ===== src/Mysql/Ddl/Sound/Tables.antt =====
-- mysql/ddl.go: CREATE TABLE, DROP TABLE and TRUNCATE, and the soundness of the schema store.
use mongosql.Mysql.Define.{extract_schema}
use mongosql.Expr.Columns.{no_text}
use mongosql.Vitess.{Vitess}
use mongosql.Mysql.Syntax.{
  other_ddl, create_database, rename_table, alter_table, TableSpec, create_table, Ddl,
}
use mongosql.Mysql.Scan.{first_ident, split_db_table, split_top_level}
use mongosql.Runtime.{Runtime}
use mongosql.Driver.Schema.{TableSchema}
use mongosql.Result.{err, Result-cases, ok}
use mongosql.Bytes.{str, contains, Bytes}
use mongosql.Prelude.{Option, Bool-cases, inr, inl, List, Bool, none, [], ◌≡◌, ◌∷◌, some, arith}
use mongosql.Client.{Client}
use mongosql.Mysql.Ddl.{
  has_columns, table_in, Driver, make_collection, create_table_fallback, register_schema,
  create_parsed, create_from, handle_create_table, drop_one, drop_tables, handle_drop_table, Parser,
  missing_name,
}
use mongosql.Mysql.Ddl.Databases.{recreate, handle_truncate}
use mongosql.Mysql.Ddl.Frame.{recreate-db}
use mongosql.Mysql.Ddl.Sound.{
  IsReady, Writes, after-IsReady, same-IsReady, save_schema-IsReady, make_collection-IsReady,
  forget_table-IsReady,
}

module _ (client : Client) (writes : Writes client) where
  module _ (rt : Runtime) where
    create_table_fallback-IsReady :
        (q upper : Bytes) (b : Bool) (d : Driver client)
        → IsReady d
        → IsReady (create_table_fallback rt client q upper b d).0
    unfolding create_table_fallback missing_name
    create_table_fallback-IsReady q upper b d h = after-IsReady d _ _ h (λ parts.
        elim (Bool-cases (no_text (split_db_table (first_ident rt parts.0)).1)) [
          | inl e ↦ rw e h
          | inr e ↦ rw e (
              make_collection-IsReady client writes b (split_db_table (first_ident rt parts.0)).1 d
                h)
        ])

    drop_one-IsReady :
        (b : Bool) (n : Bytes) (d : Driver client)
        → IsReady d
        → IsReady (drop_one rt client b n d).0
    unfolding drop_one IsReady
    drop_one-IsReady b n d h =
        let (db, table) = table_in rt d.db n in
        let w = (client.drop_collection db table d.world).1 in
        elim (Bool-cases (no_text table)) [
          | inl missing ↦ rw (missing, drop_one) h
          | inr named ↦ elim (Result-cases (client.drop_collection db table d.world).0) [
            | inl (u, f) ↦
                rw (named, f, drop_one)
                  (forget_table-IsReady client writes db table (record d { world = w }) h)
            | inr (x, f) ↦ rw (named, f, drop_one) h
          ]
        ]

    drop_tables-IsReady :
        (b : Bool) (names : List Bytes) (d : Driver client)
        → IsReady d
        → IsReady (drop_tables rt client b names d).0
    unfolding drop_tables
    drop_tables-IsReady b [] d h = h
    drop_tables-IsReady b (n ∷ ns) d h =
        let d' = (drop_one rt client b n d).0 in
        elim (Result-cases (drop_one rt client b n d).1) [
          | inl (u, f) ↦
              rw (f, drop_tables) (drop_tables-IsReady b ns d' (drop_one-IsReady b n d h))
          | inr (x, f) ↦ rw (f, drop_tables) (drop_one-IsReady b n d h)
        ]

    pub handle_drop_table-IsReady :
        (q upper : Bytes) (d : Driver client)
        → IsReady d
        → IsReady (handle_drop_table rt client q upper d).0
    unfolding handle_drop_table
    handle_drop_table-IsReady q upper d h =
        after-IsReady d _ _ h
          (λ parts. drop_tables-IsReady parts.1 (split_top_level parts.0 b',') d h)

    recreate-schemas :
        (db table : Bytes) (d : Driver client)
        → (recreate rt client db table d).0.schemas ≡ d.schemas
    unfolding recreate
    recreate-schemas db table d = elim (Result-cases (client.drop_collection db table d.world).0) [
      | inl (u, e) ↦
          elim (Result-cases
            (client.create_collection db table (client.drop_collection db table d.world).1).0) [
              | inl (v, f) ↦ ground (arith, e, f)
              | inr (v, f) ↦ ground (arith, e, f)
            ]
      | inr (u, e) ↦ ground (arith, e)
    ]

    recreate-IsReady :
        (db table : Bytes) (d : Driver client)
        → IsReady d
        → IsReady (recreate rt client db table d).0
    recreate-IsReady db table d h =
        same-IsReady d (recreate rt client db table d).0 (recreate-db client rt db table d)
          (recreate-schemas db table d) h

    pub handle_truncate-IsReady :
        (q upper : Bytes) (d : Driver client)
        → IsReady d
        → IsReady (handle_truncate rt client q upper d).0
    unfolding handle_truncate
    handle_truncate-IsReady q upper d h = after-IsReady d _ _ h (λ rest.
        elim (Bool-cases (no_text (table_in rt d.db rest).1)) [
          | inl e ↦ rw e h
          | inr e ↦ rw e (recreate-IsReady (table_in rt d.db rest).0 (table_in rt d.db rest).1 d h)
        ])

    module _ (vt : Vitess) where
      register_schema-IsReady :
          (s : Option TableSchema) (table : Bytes) (d : Driver client)
          → IsReady d
          → IsReady (register_schema rt client vt s table d)
      unfolding register_schema IsReady
      register_schema-IsReady none table d h = h
      register_schema-IsReady (some s) table d h = elim (Bool-cases (has_columns rt client vt s)) [
        | inl e ↦ rw (e, register_schema) (save_schema-IsReady client writes s d h)
        | inr e ↦ rw (e, register_schema) h
      ]

      create_parsed-IsReady :
          (b : Bool) (table : Bytes) (spec : Option TableSpec) (d : Driver client)
          → IsReady d
          → IsReady (create_parsed rt client vt b table spec d).0
      unfolding create_parsed missing_name
      create_parsed-IsReady b table spec d h =
          let d' = (make_collection client b table d).0 in
          let h' = make_collection-IsReady client writes b table d h in
          elim (Bool-cases (no_text table)) [
            | inl missing ↦ rw (missing, create_parsed) h
            | inr named ↦ elim (Result-cases (make_collection client b table d).1) [
              | inl (new, e) ↦ elim (Bool-cases new) [
                | inl y ↦
                    rw (named, e, y, create_parsed)
                      (register_schema-IsReady (extract_schema rt vt table spec) table d' h')
                | inr y ↦ rw (named, e, y, create_parsed) h'
              ]
              | inr (f, e) ↦ rw (named, e, create_parsed) h'
            ]
          ]

      create_from-IsReady :
          (b : Bool) (q upper : Bytes) (tree : Ddl) (d : Driver client)
          → IsReady d
          → IsReady (create_from rt client vt b q upper tree d).0
      unfolding create_from
      create_from-IsReady b q upper (create_table table spec) d h =
          create_parsed-IsReady b table spec d h
      create_from-IsReady b q upper (alter_table t os) d h =
          create_table_fallback-IsReady q upper b d h
      create_from-IsReady b q upper (rename_table pairs) d h =
          create_table_fallback-IsReady q upper b d h
      create_from-IsReady b q upper (create_database name) d h =
          create_table_fallback-IsReady q upper b d h
      create_from-IsReady b q upper other_ddl d h = create_table_fallback-IsReady q upper b d h

      pub handle_create_table-IsReady :
          (parser : Parser) (q upper : Bytes) (d : Driver client)
          → IsReady d
          → IsReady (handle_create_table rt client vt parser q upper d).0
      unfolding handle_create_table
      handle_create_table-IsReady (err e) q upper d h = h
      handle_create_table-IsReady (ok parse) q upper d h =
          let b = contains upper (str "IF NOT EXISTS") in
          elim (Result-cases (parse q)) [
            | inl (tree, e) ↦ rw (e, handle_create_table) (create_from-IsReady b q upper tree d h)
            | inr (f, e) ↦ rw (e, handle_create_table) (create_table_fallback-IsReady q upper b d h)
          ]
