-- ===== src/Mysql/Ddl/Frame.antt =====
-- mysql/ddl.go: the handlers and the database of the driver.
use mongosql.Mysql.Define.{create_indexes, extract_schema, index_def_from_vitess}
use mongosql.Mysql.Scan.{quotes_and_space, first_ident, split_top_level, split_db_table}
use mongosql.Mysql.Syntax.{
  other_ddl, create_database, rename_table, alter_table, create_table, Ddl, other_option,
  rename_table_name, change_column, modify_column, drop_column, add_columns, add_index_definition,
  drop_key, TableSpec, AlterOption,
}
use mongosql.Driver.Schema.{TableSchema, IndexDef}
use mongosql.Bytes.{str, contains, trim, Bytes}
use mongosql.Mysql.Result.{Reply}
use mongosql.Vitess.{Vitess}
use mongosql.Prelude.{
  inr, inl, List-cases, ◌∙◌, Option-cases, some, arith, Option, none, ◌∷◌, refl, [], ◌≡◌, ◌++◌,
  List, Bool,
}
use mongosql.Runtime.{Runtime}
use mongosql.Result.{err, ok, Result-cases, Result}
use mongosql.Client.{Client}
use mongosql.Driver.Exec.{table_schema, State}
use mongosql.Mysql.Ddl.{
  drop_one, create_from, table_in, Driver, after, make_collection, create_table_fallback,
  register_schema, create_parsed, handle_create_table, drop_tables, handle_drop_table, save_schema,
  Parser, forget_table, missing_name,
}
use mongosql.Mysql.Ddl.Databases.{recreate, handle_truncate, drop_database, handle_drop_database}
use mongosql.Mysql.Ddl.Indexes.{
  remove_first_index, add_index, drop_index_named, update_indexes, add_indexes, drop_indexes,
  handle_create_index, handle_drop_index,
}

pub after-db {ℓ} :
    {World : Type 0} {A : Type ℓ} (d : State World) (r : Result A)
    (f : A → State World × Result Reply)
    → ((a : A) → (f a).0.db ≡ d.db)
    → (after d r f).0.db ≡ d.db
unfolding after
after-db d (ok a) f h = h a
after-db d (err e) f h = refl

module _ (client : Client) where
  pub make_collection-db :
      (b : Bool) (table : Bytes) (d : Driver client)
      → (make_collection client b table d).0.db ≡ d.db
  unfolding make_collection
  make_collection-db b table d =
      elim (Result-cases (client.create_collection d.db table d.world).0) [
        | inl (u, e) ↦ ground (arith, e)
        | inr (u, e) ↦ ground (arith, e)
      ]

  module _ (rt : Runtime) where
    create_table_fallback-db :
        (q upper : Bytes) (b : Bool) (d : Driver client)
        → (create_table_fallback rt client q upper b d).0.db ≡ d.db
    unfolding create_table_fallback missing_name
    create_table_fallback-db q upper b d = after-db d _ _ (λ parts.
        ground (arith, make_collection-db b (split_db_table (first_ident rt parts.0)).1 d))

    pub drop_one-db :
        (b : Bool) (n : Bytes) (d : Driver client) → (drop_one rt client b n d).0.db ≡ d.db
    unfolding drop_one forget_table
    drop_one-db b n d =
        let (db, table) = table_in rt d.db n in
        elim (Result-cases (client.drop_collection db table d.world).0) [
          | inl (u, e) ↦ ground (arith, e)
          | inr (f, e) ↦ ground (arith, e)
        ]

    drop_tables-db :
        (b : Bool) (names : List Bytes) (d : Driver client)
        → (drop_tables rt client b names d).0.db ≡ d.db
    unfolding drop_tables
    drop_tables-db b [] d = refl
    drop_tables-db b (n ∷ ns) d = elim (Result-cases (drop_one rt client b n d).1) [
      | inl (u, e) ↦
          ground (arith, e, drop_one-db b n d, drop_tables-db b ns (drop_one rt client b n d).0)
      | inr (f, e) ↦ ground (arith, e, drop_one-db b n d)
    ]

    pub handle_drop_table-db :
        (q upper : Bytes) (d : Driver client) → (handle_drop_table rt client q upper d).0.db ≡ d.db
    unfolding handle_drop_table
    handle_drop_table-db q upper d =
        after-db d _ _ (λ parts. drop_tables-db parts.1 (split_top_level parts.0 b',') d)

    pub recreate-db :
        (db table : Bytes) (d : Driver client) → (recreate rt client db table d).0.db ≡ d.db
    unfolding recreate
    recreate-db db table d = elim (Result-cases (client.drop_collection db table d.world).0) [
      | inl (u, e) ↦
          elim (Result-cases
            (client.create_collection db table (client.drop_collection db table d.world).1).0) [
              | inl (v, f) ↦ ground (arith, e, f)
              | inr (v, f) ↦ ground (arith, e, f)
            ]
      | inr (u, e) ↦ ground (arith, e)
    ]

    pub handle_truncate-db :
        (q upper : Bytes) (d : Driver client) → (handle_truncate rt client q upper d).0.db ≡ d.db
    unfolding handle_truncate
    handle_truncate-db q upper d =
        after-db d _ _ (λ rest.
          ground (arith, recreate-db (table_in rt d.db rest).0 (table_in rt d.db rest).1 d))

    drop_database-db :
        (b : Bool) (db : Bytes) (d : Driver client) → (drop_database rt client b db d).0.db ≡ d.db
    unfolding drop_database
    drop_database-db b db d = elim (Result-cases (client.drop_database db d.world).0) [
      | inl (u, e) ↦ ground (arith, e)
      | inr (u, e) ↦ ground (arith, e)
    ]

    pub handle_drop_database-db :
        (q upper : Bytes) (d : Driver client)
        → (handle_drop_database rt client q upper d).0.db ≡ d.db
    unfolding handle_drop_database
    handle_drop_database-db q upper d = after-db d _ _ (λ parts. ground (
      arith,
      drop_database-db parts.1
          (trim (quotes_and_space ++ b';' ∷ []) (rt.trim_space (first_ident rt parts.0))) d,
    ))

    update_indexes-db :
        (f : List IndexDef → List IndexDef) (table : Bytes) (d : Driver client)
        → (update_indexes rt client f table d).db ≡ d.db
    unfolding update_indexes table_schema
    update_indexes-db f table d = elim (Option-cases (table_schema client table d).1) [
      | inl e ↦ ground (arith, e)
      | inr (s, e) ↦ ground (arith, e)
    ]

    pub add_index-db :
        (table : Bytes) (o : AlterOption) (d : Driver client)
        → (add_index rt client table o d).db ≡ d.db
    unfolding add_index
    add_index-db table (add_index_definition spec) d =
        elim (List-cases (index_def_from_vitess spec).columns) [
          | inl e ↦ ground (arith, e)
          | inr (c, cs, e) ↦ ground (
            arith,
            e,
            update_indexes-db (λ idxs. idxs ++ index_def_from_vitess spec ∷ []) table
                (record d {
                  world =
                      create_indexes rt client d.db table (index_def_from_vitess spec ∷ []) d.world;
                }),
          )
        ]
    add_index-db table (add_columns cs) d = refl
    add_index-db table (drop_column n) d = refl
    add_index-db table (modify_column c) d = refl
    add_index-db table (change_column n c) d = refl
    add_index-db table (drop_key p n) d = refl
    add_index-db table (rename_table_name n) d = refl
    add_index-db table other_option d = refl

    add_indexes-db :
        (table : Bytes) (os : List AlterOption) (d : Driver client)
        → (add_indexes rt client table os d).db ≡ d.db
    unfolding add_indexes
    add_indexes-db table [] d = refl
    add_indexes-db table (o ∷ os) d =
        add_indexes-db table os (add_index rt client table o d) ∙ add_index-db table o d

    pub drop_index_named-db :
        (table : Bytes) (o : AlterOption) (d : Driver client)
        → (drop_index_named rt client table o d).db ≡ d.db
    unfolding drop_index_named
    drop_index_named-db table (drop_key p n) d =
        update_indexes-db (λ idxs. remove_first_index idxs n) table
          (record d { world = (client.drop_index d.db table n d.world).1 })
    drop_index_named-db table (add_index_definition spec) d = refl
    drop_index_named-db table (add_columns cs) d = refl
    drop_index_named-db table (drop_column n) d = refl
    drop_index_named-db table (modify_column c) d = refl
    drop_index_named-db table (change_column n c) d = refl
    drop_index_named-db table (rename_table_name n) d = refl
    drop_index_named-db table other_option d = refl

    drop_indexes-db :
        (table : Bytes) (os : List AlterOption) (d : Driver client)
        → (drop_indexes rt client table os d).db ≡ d.db
    unfolding drop_indexes
    drop_indexes-db table [] d = refl
    drop_indexes-db table (o ∷ os) d =
        drop_indexes-db table os (drop_index_named rt client table o d)
        ∙ drop_index_named-db table o d

    pub handle_create_index-db :
        (parser : Parser) (q : Bytes) (d : Driver client)
        → (handle_create_index rt client parser q d).0.db ≡ d.db
    unfolding handle_create_index
    handle_create_index-db parser q d = after-db d _ _ (λ parts. add_indexes-db parts.0 parts.1 d)

    pub handle_drop_index-db :
        (parser : Parser) (q : Bytes) (d : Driver client)
        → (handle_drop_index rt client parser q d).0.db ≡ d.db
    unfolding handle_drop_index
    handle_drop_index-db parser q d = after-db d _ _ (λ parts. drop_indexes-db parts.0 parts.1 d)

    module _ (vt : Vitess) where
      register_schema-db :
          (s : Option TableSchema) (table : Bytes) (d : Driver client)
          → (register_schema rt client vt s table d).db ≡ d.db
      unfolding register_schema save_schema
      register_schema-db none table d = refl
      register_schema-db (some s) table d = ground arith

      create_parsed-db :
          (b : Bool) (table : Bytes) (spec : Option TableSpec) (d : Driver client)
          → (create_parsed rt client vt b table spec d).0.db ≡ d.db
      unfolding create_parsed missing_name
      create_parsed-db b table spec d = elim (Result-cases (make_collection client b table d).1) [
        | inl (new, e) ↦ ground (
          arith,
          e,
          make_collection-db b table d,
          register_schema-db (extract_schema rt vt table spec) table
              (make_collection client b table d).0,
        )
        | inr (f, e) ↦ ground (arith, e, make_collection-db b table d)
      ]

      create_from-db :
          (b : Bool) (q upper : Bytes) (tree : Ddl) (d : Driver client)
          → (create_from rt client vt b q upper tree d).0.db ≡ d.db
      unfolding create_from
      create_from-db b q upper (create_table table spec) d = create_parsed-db b table spec d
      create_from-db b q upper (alter_table t os) d = create_table_fallback-db q upper b d
      create_from-db b q upper (rename_table pairs) d = create_table_fallback-db q upper b d
      create_from-db b q upper (create_database name) d = create_table_fallback-db q upper b d
      create_from-db b q upper other_ddl d = create_table_fallback-db q upper b d

      pub handle_create_table-db :
          (parser : Parser) (q upper : Bytes) (d : Driver client)
          → (handle_create_table rt client vt parser q upper d).0.db ≡ d.db
      unfolding handle_create_table
      handle_create_table-db (err e) q upper d = refl
      handle_create_table-db (ok parse) q upper d = elim (Result-cases (parse q)) [
        | inl (tree, e) ↦
            ground (arith, e, create_from-db (contains upper (str "IF NOT EXISTS")) q upper tree d)
        | inr (f, e) ↦
            ground
              (arith, e, create_table_fallback-db q upper (contains upper (str "IF NOT EXISTS")) d)
      ]
