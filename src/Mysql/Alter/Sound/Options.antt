-- ===== src/Mysql/Alter/Sound/Options.antt =====
-- mysql/alter.go: ALTER TABLE and the soundness of the schema store.
use mongosql.Mysql.Syntax.{
  other_option, rename_table_name, drop_key, add_index_definition, change_column, modify_column,
  drop_column, add_columns, AlterOption,
}
use mongosql.Mysql.Define.{column_def_from_vitess}
use mongosql.Vitess.{Vitess}
use mongosql.Runtime.{Runtime}
use mongosql.Result.{err, Result, ok, Result-cases}
use mongosql.Prelude.{
  sym, subst, Bool, Bool-cases, inr, inl, Option-cases, arith, none, [], if◌then◌else◌, refl, ◌∷◌,
  false, ◌≡◌, ◌&&◌, true, List,
}
use mongosql.Driver.Exec.{table_schema}
use mongosql.Bytes.{str, Bytes}
use mongosql.Client.{Client}
use mongosql.Mysql.Ddl.{after, Driver, save_schema, Parser}
use mongosql.Mysql.Alter.Rename.{rename_collection}
use mongosql.Mysql.Alter.Options.{
  rename_to, parse_alter_table, Alteration, change_schema, create_one, alter_option, alter_options,
  save_changes, alter_table_named, handle_alter_table,
}
use mongosql.Mysql.Alter.Sound.{rename_collection-moves_IsSound}
use mongosql.Bytes.{bytes_eq_refl}
use mongosql.Driver.Schema.Except.{IsSound-IsSoundBut, cached-IsSoundBut, written-IsSound}
use mongosql.Driver.Schema.Named.{get_schema-named}
use mongosql.Mysql.Ddl.Sound.{IsReady, Writes, table_schema-IsReady}
use mongosql.Mysql.Alter.Sound.Altering.{
  Fits, IsAltering, change_schema-IsAltering, change_indexes-IsAltering, add_new_columns-IsAltering,
  alter_column-IsAltering, drop_key_named-IsAltering,
}

unfoldable pub succeeds {ℓ} : {A : Type ℓ} → Result A → Bool
succeeds (ok a) = true
succeeds (err e) = false

module _ (client : Client) (rt : Runtime) (vt : Vitess) (fold : Bytes → Bytes → Bool) where
  rename_to-IsAltering :
      Writes client
      → (name : Bytes) (st : Alteration client) → IsAltering client st
      → (rename_to client rt vt fold name st).1 ≡ none
      → IsAltering client (rename_to client rt vt fold name st).0
  unfolding rename_to change_schema IsAltering IsReady Fits
  rename_to-IsAltering writes name st (n, fits, but, sound) done =
      let d = (rename_collection client st.table name st.driver).0 in
      elim (Result-cases (rename_collection client st.table name st.driver).1) [
        | inr (f, e) ↦ absurd (ground (arith, e, done))
        | inl (held, e) ↦
            (let (n', s') =
                rename_collection-moves_IsSound client writes st.table name st.driver held n but
                  e in
              let but' = IsSound-IsSoundBut d.db name d.schemas s' in
              elim (Option-cases st.schema) [
                | inl x ↦
                    rw (e, x, rename_to)
                      (n', subst (λ o. Fits o st.changed st.table) x fits, but', λ y. s')
                | inr (s, x) ↦ elim (Bool-cases (st.cached && held)) [
                  | inl c ↦
                      rw (e, x, c, rename_to)
                        (
                          n',
                          bytes_eq_refl name,
                          cached-IsSoundBut d.db name (record s { table_name = name }) d.schemas n'
                              but',
                          λ y. absurd (ground arith),
                        )
                  | inr c ↦
                      rw (e, x, c, rename_to)
                        (n', bytes_eq_refl name, but', λ y. absurd (ground arith))
                ]
              ])
      ]

  alter_option-IsAltering :
      Writes client
      → (o : AlterOption) (st : Alteration client) → IsAltering client st
      → (alter_option client rt vt fold o st).1 ≡ none
      → IsAltering client (alter_option client rt vt fold o st).0
  unfolding alter_option create_one IsAltering
  alter_option-IsAltering writes (add_columns cols) st h done =
      add_new_columns-IsAltering client rt vt fold cols st h
  alter_option-IsAltering writes (drop_column name) st h done =
      change_schema-IsAltering client _ _ (λ s. refl) h
  alter_option-IsAltering writes (modify_column c) st h done =
      change_schema-IsAltering client _ _ (λ s. refl) h
  alter_option-IsAltering writes (change_column old c) st h done =
      alter_column-IsAltering client rt vt fold old (column_def_from_vitess rt vt c) st h
  alter_option-IsAltering writes (add_index_definition spec) st h done =
      change_indexes-IsAltering client _ _ h
  alter_option-IsAltering writes (drop_key primary name) st h done =
      drop_key_named-IsAltering client rt vt fold (if primary then str "PRIMARY" else name) st h
  alter_option-IsAltering writes (rename_table_name name) st h done =
      rename_to-IsAltering writes name st h done
  alter_option-IsAltering writes other_option st h done = h

  alter_options-IsAltering :
      Writes client
      → (os : List AlterOption) (st : Alteration client) → IsAltering client st
      → (alter_options client rt vt fold os st).1 ≡ none
      → IsAltering client (alter_options client rt vt fold os st).0
  unfolding alter_options
  alter_options-IsAltering writes [] st h done = h
  alter_options-IsAltering writes (o ∷ os) st h done =
      elim (Option-cases (alter_option client rt vt fold o st).1) [
        | inl e ↦
            rw (e, alter_options)
              (alter_options-IsAltering writes os (alter_option client rt vt fold o st).0
                (alter_option-IsAltering writes o st h e) (ground (arith, e, done)))
        | inr (f, e) ↦ absurd (ground (arith, e, done))
      ]

  save_changes-IsReady :
      Writes client
      → (st : Alteration client) → IsAltering client st
      → IsReady (save_changes client rt vt fold st)
  unfolding save_changes save_schema IsAltering IsReady Fits
  save_changes-IsReady writes st (n, fits, but, sound) = elim (Option-cases st.schema) [
    | inl e ↦ rw (e, save_changes) (n, sound (subst (λ o. Fits o st.changed st.table) e fits))
    | inr (s, e) ↦ elim (Bool-cases st.changed) [
      | inl x ↦
          rw (e, x, writes st.driver.db s.table_name st.driver.world, save_changes)
            (
              n,
              written-IsSound st.driver.db st.table s st.driver.schemas n
                  (subst (λ o. Fits o st.changed st.table) e fits) but,
            )
      | inr x ↦ rw (e, x, save_changes) (n, sound x)
    ]
  ]

  begun-Fits :
      (table : Bytes) (d : Driver client)
      → IsReady d
      → Fits (table_schema client table d).1 false table
  unfolding table_schema IsReady Fits
  begun-Fits table d (n, s) = elim (Option-cases (table_schema client table d).1) [
    | inl e ↦ subst (λ o. Fits o false table) (sym e) refl
    | inr (found, e) ↦
        subst (λ o. Fits o false table) (sym e)
          (get_schema-named (client.reads_schema d.db table d.world) d.db table d.schemas found n s
            e)
  ]

  alter_table_named-IsReady :
      Writes client
      → (table : Bytes) (os : List AlterOption) (d : Driver client) → IsReady d
      → succeeds (alter_table_named client rt vt fold table os d).1 ≡ true
      → IsReady (alter_table_named client rt vt fold table os d).0
  unfolding alter_table_named IsAltering IsReady succeeds
  alter_table_named-IsReady writes table os d h done =
      let d' = (table_schema client table d).0 in
      let st : Alteration client = (record {
        table = table;
        schema = (table_schema client table d).1;
        cached = true;
        changed = false;
        driver = d';
      }) in
      let (n, s) = table_schema-IsReady client writes table d h in
      elim (Option-cases (alter_options client rt vt fold os st).1) [
        | inl e ↦
            rw (e, alter_table_named)
              (save_changes-IsReady writes (alter_options client rt vt fold os st).0 (
                alter_options-IsAltering writes os st
                  (n, begun-Fits table d h, IsSound-IsSoundBut d'.db table d'.schemas s, λ x. s) e))
        | inr (f, e) ↦ absurd (ground (arith, e, done))
      ]

  pub handle_alter_table-IsReady :
      Writes client
      → (parser : Parser) (q : Bytes) (d : Driver client) → IsReady d
      → succeeds (handle_alter_table client rt vt fold parser q d).1 ≡ true
      → IsReady (handle_alter_table client rt vt fold parser q d).0
  unfolding handle_alter_table after
  handle_alter_table-IsReady writes parser q d h =
      elim (Result-cases (parse_alter_table parser q)) [
        | inr (f, e) ↦ rw (e, handle_alter_table) (λ done. h)
        | inl (found, e) ↦ elim (Option-cases found) [
          | inl x ↦ rw (e, x, handle_alter_table) (λ done. h)
          | inr (named, x) ↦
              rw (e, x, handle_alter_table) (alter_table_named-IsReady writes named.0 named.1 d h)
        ]
      ]
