-- ===== src/Mysql/Alter/Sound/Altering.antt =====
-- mysql/alter.go: the options of ALTER TABLE and the soundness of the schema store.
use mongosql.Mysql.Alter.{changed_indexes, rename_columns}
use mongosql.Mysql.Syntax.{ColumnSpec}
use mongosql.Mysql.Define.{column_def_from_vitess, eval_default_literal}
use mongosql.Expr.Columns.{no_text}
use mongosql.Vitess.{Vitess}
use mongosql.Runtime.{Runtime}
use mongosql.Prelude.{
  sym, subst, Option, Bool, Bool-cases, inr, inl, Option-cases, arith, ◌||◌, none, some, [], refl,
  ◌∷◌, false, ◌≡◌, ◌++◌, true, List,
}
use mongosql.Driver.Schema.{ColumnDef, IndexDef, TableSchema}
use mongosql.Bytes.{one_of, bytes_eq, Bytes}
use mongosql.Client.{Client}
use mongosql.Mysql.Alter.Options.{
  dropped_for, rename_values, change_indexes, Alteration, change_schema, drop_each, backfill,
  create_one, create_each, add_new_columns, move_column, alter_column, drop_key_named,
}
use mongosql.Driver.Schema.Cache.{dot_free}
use mongosql.Driver.Schema.Except.{IsSoundBut, cached-IsSoundBut}
use mongosql.Driver.Schema.Named.{IsSound}

-- A schema that is altered has the name of the table. Where there is none, nothing changes.
unfoldable pub Fits : Option TableSchema → Bool → Bytes → Type 0
Fits none changed table = changed ≡ false
Fits (some s) changed table = bytes_eq s.table_name table ≡ true

module _ (client : Client) where
  -- Before the schema is saved, the store is sound but for the table. It is sound where nothing
  -- has changed.
  unfoldable pub IsAltering : Alteration client → Type 0
  IsAltering st =
      (dot_free st.driver.db ≡ true)
      × Fits st.schema st.changed st.table
      × IsSoundBut st.driver.db st.table st.driver.schemas
      × (st.changed ≡ false → IsSound st.driver.schemas)

  pub change_schema-IsAltering :
      (f : TableSchema → TableSchema) (st : Alteration client)
      → ((s : TableSchema) → (f s).table_name ≡ s.table_name)
      → IsAltering st
      → IsAltering (change_schema client f st)
  unfolding change_schema IsAltering Fits
  change_schema-IsAltering f st same (n, fits, but, sound) = elim (Option-cases st.schema) [
    | inl e ↦ rw (e, change_schema) (n, fits, but, sound)
    | inr (s, e) ↦
        let named : bytes_eq (f s).table_name st.table ≡ true =
          subst (λ name. bytes_eq name st.table ≡ true) (sym (same s))
            (subst (λ o. Fits o st.changed st.table) e fits) in
        elim (Bool-cases st.cached) [
          | inl c ↦
              rw (e, c, change_schema)
                (
                  n,
                  named,
                  cached-IsSoundBut st.driver.db st.table (f s) st.driver.schemas n but,
                  λ x. absurd (ground arith),
                )
          | inr c ↦ rw (e, c, change_schema) (n, named, but, λ x. absurd (ground arith))
        ]
  ]

  pub change_indexes-IsAltering :
      (f : List IndexDef → List IndexDef) (st : Alteration client)
      → IsAltering st
      → IsAltering (change_indexes client f st)
  unfolding change_indexes
  change_indexes-IsAltering f st h =
      change_schema-IsAltering (λ s. record s { indexes = f s.indexes }) st (λ s. refl) h

  drop_each-IsAltering :
      (idxs : List IndexDef) (st : Alteration client)
      → IsAltering st
      → IsAltering (drop_each client idxs st)
  unfolding drop_each IsAltering
  drop_each-IsAltering [] st h = h
  drop_each-IsAltering (i ∷ idxs) st h = elim (Bool-cases (no_text i.name)) [
    | inl e ↦ rw (e, drop_each) (drop_each-IsAltering idxs st h)
    | inr e ↦
        rw (e, drop_each)
          (drop_each-IsAltering idxs
            (record st {
              driver = record (st.driver) {
                world = (client.drop_index st.driver.db st.table i.name st.driver.world).1;
              };
            })
            h)
  ]

  module _ (rt : Runtime) where
    backfill-IsAltering :
        (cd : ColumnDef) (st : Alteration client)
        → IsAltering st
        → IsAltering (backfill client rt cd st)
    unfolding backfill IsAltering
    backfill-IsAltering cd st h = elim (Option-cases (eval_default_literal rt cd)) [
      | inl e ↦ rw (e, backfill) h
      | inr (v, e) ↦ rw (e, backfill) h
    ]

    create_each-IsAltering :
        (idxs : List IndexDef) (st : Alteration client)
        → IsAltering st
        → IsAltering (create_each client rt idxs st)
    unfolding create_each create_one IsAltering
    create_each-IsAltering [] st h = h
    create_each-IsAltering (i ∷ idxs) st h =
        create_each-IsAltering idxs (create_one client rt i st) h

    module _ (vt : Vitess) (fold : Bytes → Bytes → Bool) where
      pub add_new_columns-IsAltering :
          (cols : List ColumnSpec) (st : Alteration client)
          → IsAltering st
          → IsAltering (add_new_columns client rt vt fold cols st)
      unfolding add_new_columns
      add_new_columns-IsAltering [] st h = h
      add_new_columns-IsAltering (c ∷ cs) st h =
          let cd = column_def_from_vitess rt vt c in
          let with_column : Alteration client =
            change_schema client (λ s. record s { columns = s.columns ++ cd ∷ [] }) st in
          add_new_columns-IsAltering cs (backfill client rt cd with_column) (
            backfill-IsAltering cd with_column (
              change_schema-IsAltering (λ s. record s { columns = s.columns ++ cd ∷ [] }) st
                (λ s. refl) h))

      move_column-IsAltering :
          (old new : Bytes) (st : Alteration client)
          → IsAltering st
          → IsAltering (move_column client rt vt fold old new st)
      unfolding move_column rename_values IsAltering
      move_column-IsAltering old new st h =
          let dropped = dropped_for client rt vt fold old st in
          let recreated = rename_columns fold old new dropped in
          let moved = rename_values client rt vt fold old new st in
          change_indexes-IsAltering (changed_indexes fold old new)
            (create_each client rt recreated moved)
            (create_each-IsAltering recreated moved (drop_each-IsAltering dropped st h))

      pub alter_column-IsAltering :
          (old : Bytes) (cd : ColumnDef) (st : Alteration client)
          → IsAltering st
          → IsAltering (alter_column client rt vt fold old cd st)
      unfolding alter_column
      alter_column-IsAltering old cd st h = elim (Bool-cases (bytes_eq old cd.name)) [
        | inl e ↦ rw (e, alter_column) (change_schema-IsAltering _ st (λ s. refl) h)
        | inr e ↦
            rw (e, alter_column)
              (change_schema-IsAltering _ (move_column client rt vt fold old cd.name st) (λ s. refl)
                (move_column-IsAltering old cd.name st h))
      ]

      pub drop_key_named-IsAltering :
          (name : Bytes) (st : Alteration client)
          → IsAltering st
          → IsAltering (drop_key_named client rt vt fold name st)
      unfolding drop_key_named IsAltering
      drop_key_named-IsAltering name st h =
          elim (Bool-cases (no_text name || one_of name ("PRIMARY" ∷ []))) [
            | inl e ↦ rw (e, drop_key_named) (change_indexes-IsAltering _ st h)
            | inr e ↦
                rw (e, drop_key_named)
                  (change_indexes-IsAltering _
                    (record st {
                      driver = record (st.driver) {
                        world = (client.drop_index st.driver.db st.table name st.driver.world).1;
                      };
                    })
                    h)
          ]
