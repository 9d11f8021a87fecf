-- ===== src/Mysql/Handler/Sound.antt =====
-- mysql/handler.go and mysql/meta.go: a statement and the soundness of the schema store.
use mongosql.Write.{dispatch}
use mongosql.Expr.Columns.{no_text}
use mongosql.Mysql.Show.{starts_with_any, first_case}
use mongosql.Driver.Schema.Cache.{dot_free}
use mongosql.Result.{ok, err, Result, wrap, ◌>>=◌, Result-cases}
use mongosql.Bytes.{Bytes}
use mongosql.Runtime.{Runtime}
use mongosql.Prelude.{
  ◌∙◌, sym, ap, subst, Option-cases, Bool-cases, inr, List-cases, inl, arith, some, true, [], none,
  ◌||◌, false, ◌∷◌, ◌≡◌, Bool, Option,
}
use mongosql.Sel.Plan.{
  insert_select_stmt, delete_stmt, update_stmt, insert_stmt, aggregate_stmt, find_stmt, Statement,
  InsertSelectStmt, InsertStmt,
}
use mongosql.Mysql.Ddl.Sound.{IsReady, Writes, table_schema-IsReady}
use mongosql.Mysql.Ddl.Sound.Tables.{
  handle_create_table-IsReady, handle_drop_table-IsReady, handle_truncate-IsReady,
}
use mongosql.Mysql.Ddl.Sound.Indexes.{handle_create_index-IsReady, handle_drop_index-IsReady}
use mongosql.Mysql.Alter.Sound.{handle_rename_table-IsReady}
use mongosql.Mysql.Alter.Sound.Options.{succeeds, handle_alter_table-IsReady}
use mongosql.Mysql.Alter.Options.{handle_alter_table}
use mongosql.Driver.Schema.Named.{IsSound}
use mongosql.Driver.Exec.{
  Outcome, remap_rows, defaulted, table_schema, exec, exec_statement, exec_insert, exec_update,
  exec_delete, exec_insert_select,
}
use mongosql.Mysql.Meta.{
  is_no_op, administers, creates_database, renames_table, drops_index, creates_index, truncates,
  drops_database, drops_table, alters_table, creates_table, Turn, Server, Handler, Driver, DdlKind,
  run_ddl, ddl_cases, handle_meta, use_or_read, read_reply,
}
use mongosql.Mysql.Handler.{handle_query, run_statement, statement_of}

-- DROP DATABASE and an ALTER TABLE that is answered with an error are left out.
unfoldable pub is_steady : (sv : Server) → Bytes → Driver sv → Option DdlKind → Bool
unfolding succeeds handle_alter_table
is_steady sv q d (some alters_table) =
    succeeds (handle_alter_table sv.client sv.runtime sv.vitess sv.equal_fold sv.parser q d).1
is_steady sv q d (some drops_database) = false
is_steady sv q d k = true

-- The kind of the statement in a query, if it is one of the data definition language.
unfoldable pub kind_of : Runtime → Bytes → Option DdlKind
kind_of rt query = first_case (rt.to_upper (rt.trim_space (statement_of rt query))) ddl_cases

module _ (sv : Server) (writes : Writes sv.client) where
  exec_insert-IsReady :
      (s : InsertStmt) (d : Driver sv)
      → IsReady d
      → IsReady (exec_insert sv.runtime sv.client s d).0
  unfolding exec_insert IsReady
  exec_insert-IsReady s d h =
      let (d', schema) = table_schema sv.client s.collection d in
      elim (Result-cases (defaulted sv.runtime sv.client schema s.docs d')) [
        | inl (found, e) ↦
            rw (e, exec_insert) (table_schema-IsReady sv.client writes s.collection d h)
        | inr (failed, e) ↦
            rw (e, exec_insert) (table_schema-IsReady sv.client writes s.collection d h)
      ]

  exec_insert_select-IsReady :
      (s : InsertSelectStmt) (d : Driver sv)
      → IsReady d
      → IsReady (exec_insert_select sv.runtime sv.client sv.map_order s d).0
  unfolding exec_insert_select IsReady
  exec_insert_select-IsReady s d h =
      elim (Result-cases (sv.client.aggregate d.db s.source_collection s.pipeline d.world)) [
        | inl (rows, e) ↦ elim (List-cases (remap_rows sv.map_order s.columns rows)) [
          | inl none_left ↦ rw (e, none_left, exec_insert_select) h
          | inr (doc, docs, some_left) ↦ rw (e, some_left, exec_insert_select) h
        ]
        | inr (failed, e) ↦ rw (e, exec_insert_select) h
      ]

  exec_statement-IsReady :
      (s : Statement) (d : Driver sv)
      → IsReady d
      → IsReady (exec_statement sv.runtime sv.client sv.map_order s d).0
  unfolding exec_statement exec_update exec_delete IsReady
  exec_statement-IsReady (find_stmt s) d h = h
  exec_statement-IsReady (aggregate_stmt s) d h = h
  exec_statement-IsReady (insert_stmt s) d h = exec_insert-IsReady s d h
  exec_statement-IsReady (update_stmt s) d h =
      table_schema-IsReady sv.client writes s.collection d h
  exec_statement-IsReady (delete_stmt s) d h = h
  exec_statement-IsReady (insert_select_stmt s) d h = exec_insert_select-IsReady s d h

  exec-IsReady :
      (q : Bytes) (d : Driver sv)
      → IsReady d
      → IsReady (exec sv.runtime sv.client sv.vitess sv.parse sv.map_order q d).0
  unfolding exec
  exec-IsReady q d h =
      elim (do tree ← wrap "parse SQL: %w" (sv.parse q); dispatch sv.runtime sv.vitess tree)
        as (λ r.
          IsReady
            (elim r as (λ x. Driver sv × Result Outcome) [
              | err e ↦ (d, err e)
              | ok s ↦ exec_statement sv.runtime sv.client sv.map_order s d
            ]).0) [ err e ↦ h | ok s ↦ exec_statement-IsReady s d h ]

  run_statement-IsReady : (q : Bytes) (d : Driver sv) → IsReady d → IsReady (run_statement sv q d).0
  unfolding run_statement
  run_statement-IsReady q d h =
      elim (Result-cases (exec sv.runtime sv.client sv.vitess sv.parse sv.map_order q d).1) [
        | inl (o, e) ↦ rw (e, run_statement) (exec-IsReady q d h)
        | inr (f, e) ↦ rw (e, run_statement) (exec-IsReady q d h)
      ]

  run_ddl-IsReady :
      (kind : DdlKind) (q upper current : Bytes) (d : Driver sv)
      → is_steady sv q d (some kind) ≡ true
      → IsReady d
      → IsReady (run_ddl sv kind q upper current d).0
  unfolding run_ddl is_steady
  run_ddl-IsReady creates_table q upper current d k h =
      handle_create_table-IsReady sv.client writes sv.runtime sv.vitess sv.parser q upper d h
  run_ddl-IsReady drops_table q upper current d k h =
      handle_drop_table-IsReady sv.client writes sv.runtime q upper d h
  run_ddl-IsReady truncates q upper current d k h =
      handle_truncate-IsReady sv.client writes sv.runtime q upper d h
  run_ddl-IsReady creates_index q upper current d k h =
      handle_create_index-IsReady sv.client writes sv.runtime sv.parser q d h
  run_ddl-IsReady drops_index q upper current d k h =
      handle_drop_index-IsReady sv.client writes sv.runtime sv.parser q d h
  run_ddl-IsReady alters_table q upper current d k h =
      handle_alter_table-IsReady sv.client sv.runtime sv.vitess sv.equal_fold writes sv.parser q d h
        k
  run_ddl-IsReady renames_table q upper current d k h =
      handle_rename_table-IsReady sv.client writes sv.parser q d h
  run_ddl-IsReady creates_database q upper current d k h = h
  run_ddl-IsReady administers q upper current d k h = h
  run_ddl-IsReady drops_database q upper current d k h = absurd (ground arith)

  -- The store is sound where there is an answer.
  TurnSound : Option (Turn sv.client.World) → Type 0
  TurnSound none = Unit
  TurnSound (some t) = IsSound t.driver.schemas

  use_or_read-TurnSound :
      (q upper : Bytes) (h : Handler) (d : Driver sv)
      → IsSound d.schemas
      → TurnSound (use_or_read sv q upper h d)
  unfolding use_or_read TurnSound
  use_or_read-TurnSound q upper h d s = elim (Bool-cases (starts_with_any upper ("USE " ∷ []))) [
    | inl e ↦ rw (e, use_or_read) s
    | inr e ↦ elim (Option-cases (read_reply sv q upper h.current_db d)) [
      | inl f ↦ rw (e, f, use_or_read) tt
      | inr (reply, f) ↦ rw (e, f, use_or_read) s
    ]
  ]

  handle_meta-TurnSound :
      (q : Bytes) (h : Handler) (d : Driver sv)
      → is_steady sv q d (first_case (sv.runtime.to_upper (sv.runtime.trim_space q)) ddl_cases)
        ≡ true
      → IsReady d
      → TurnSound (handle_meta sv q h d)
  unfolding handle_meta TurnSound IsReady is_steady
  handle_meta-TurnSound q h d k r =
      let upper = sv.runtime.to_upper (sv.runtime.trim_space q) in
      elim (Bool-cases (no_text upper || is_no_op upper)) [
        | inl e ↦ rw (e, handle_meta) r.1
        | inr e ↦ elim (Option-cases (first_case upper ddl_cases)) [
          | inl f ↦ rw (e, f, handle_meta) (use_or_read-TurnSound q upper h d r.1)
          | inr (kind, f) ↦
              rw (e, f, handle_meta)
                (run_ddl-IsReady kind q upper h.current_db d (ap (is_steady sv q d) (sym f) ∙ k)
                  r).1
        ]
      ]

  -- Where the server writes every schema that it is asked to write, and the driver works in a
  -- database whose name has no dot: a query that is neither a DROP DATABASE nor an ALTER TABLE
  -- whose handler gives an error leaves the cache coherent with the collections, and each schema
  -- stored under its name.
  pub handle_query-IsSound :
      (query : Bytes) (h : Handler) (d : Driver sv)
      → is_steady sv (statement_of sv.runtime query) d (kind_of sv.runtime query) ≡ true
      → dot_free d.db ≡ true
      → IsSound d.schemas
      → IsSound (handle_query sv query h d).driver.schemas
  unfolding handle_query kind_of IsReady TurnSound
  handle_query-IsSound query h d steady n s =
      let q = statement_of sv.runtime query in
      elim (Bool-cases (no_text q)) [
        | inl e ↦ rw (e, handle_query) s
        | inr e ↦ elim (Option-cases (handle_meta sv q h d)) [
          | inl f ↦ rw (e, f, handle_query) (run_statement-IsReady q d (n, s)).1
          | inr (t, f) ↦
              rw (e, f, handle_query)
                (subst TurnSound f (handle_meta-TurnSound q h d steady (n, s)))
        ]
      ]
