-- ===== src/Mysql/Handler/Frame.antt =====
-- mysql/handler.go and mysql/meta.go: a statement, the database of the driver, and the current one.
use mongosql.Driver.Exec.{exec}
use mongosql.Mysql.Show.{first_case}
use mongosql.Result.{Result-cases}
use mongosql.Bytes.{Bytes}
use mongosql.Prelude.{inr, inl, Option-cases, ◌≡◌, none, arith, some, Option, refl}
use mongosql.Mysql.Meta.{
  read_reply, use_or_read, drops_database, administers, creates_database, renames_table,
  alters_table, drops_index, creates_index, truncates, drops_table, ddl_cases, creates_table,
  DdlKind, run_ddl, Server, Handler, Turn, Driver, handle_meta,
}
use mongosql.Mysql.Handler.{handle_query, run_statement, statement_of}
use mongosql.Mysql.Ddl.Frame.{
  handle_create_table-db, handle_drop_table-db, handle_truncate-db, handle_create_index-db,
  handle_drop_index-db, handle_drop_database-db,
}
use mongosql.Mysql.Alter.Frame.{handle_alter_table-db}
use mongosql.Mysql.Alter.Rename.Frame.{handle_rename_table-db}
use mongosql.Driver.Exec.Database.{exec-db}

module _ (sv : Server) where
  run_ddl-db :
      (kind : DdlKind) (q upper current : Bytes) (d : Driver sv)
      → (run_ddl sv kind q upper current d).0.db ≡ d.db
  unfolding run_ddl
  run_ddl-db creates_table q upper current d =
      handle_create_table-db sv.client sv.runtime sv.vitess sv.parser q upper d
  run_ddl-db drops_table q upper current d = handle_drop_table-db sv.client sv.runtime q upper d
  run_ddl-db truncates q upper current d = handle_truncate-db sv.client sv.runtime q upper d
  run_ddl-db creates_index q upper current d =
      handle_create_index-db sv.client sv.runtime sv.parser q d
  run_ddl-db drops_index q upper current d = handle_drop_index-db sv.client sv.runtime sv.parser q d
  run_ddl-db alters_table q upper current d =
      handle_alter_table-db sv.client sv.runtime sv.vitess sv.equal_fold sv.parser q d
  run_ddl-db renames_table q upper current d = handle_rename_table-db sv.client sv.parser q d
  run_ddl-db creates_database q upper current d = refl
  run_ddl-db administers q upper current d = refl
  run_ddl-db drops_database q upper current d =
      handle_drop_database-db sv.client sv.runtime q upper d

  -- The current database of the handler is the one of the driver.
  unfoldable pub Agrees : Handler → Driver sv → Type 0
  Agrees h d = h.current_db ≡ d.db

  TurnAgrees : Option (Turn sv.client.World) → Type 0
  TurnAgrees none = Unit
  TurnAgrees (some t) = Agrees t.handler t.driver

  use_or_read-Agrees :
      (q upper : Bytes) (h : Handler) (d : Driver sv)
      → Agrees h d
      → TurnAgrees (use_or_read sv q upper h d)
  unfolding use_or_read TurnAgrees Agrees
  use_or_read-Agrees q upper h d a = elim (Option-cases (read_reply sv q upper h.current_db d)) [
    | inl e ↦ ground (arith, e, a)
    | inr (reply, e) ↦ ground (arith, e, a)
  ]

  handle_meta-Agrees :
      (q : Bytes) (h : Handler) (d : Driver sv) → Agrees h d → TurnAgrees (handle_meta sv q h d)
  unfolding handle_meta TurnAgrees Agrees
  handle_meta-Agrees q h d a =
      let upper = sv.runtime.to_upper (sv.runtime.trim_space q) in
      elim (Option-cases (first_case upper ddl_cases)) [
        | inl e ↦ ground (arith, e, a, use_or_read-Agrees q upper h d)
        | inr (kind, e) ↦ ground (arith, e, a, run_ddl-db kind q upper h.current_db d)
      ]

  run_statement-db : (q : Bytes) (d : Driver sv) → (run_statement sv q d).0.db ≡ d.db
  unfolding run_statement
  run_statement-db q d =
      elim (Result-cases (exec sv.runtime sv.client sv.vitess sv.parse sv.map_order q d).1) [
        | inl (o, e) ↦
            ground (arith, e, exec-db sv.runtime sv.client sv.vitess sv.parse sv.map_order q d)
        | inr (f, e) ↦
            ground (arith, e, exec-db sv.runtime sv.client sv.vitess sv.parse sv.map_order q d)
      ]

  pub handle_query-Agrees :
      (query : Bytes) (h : Handler) (d : Driver sv)
      → Agrees h d
      → Agrees (handle_query sv query h d).handler (handle_query sv query h d).driver
  unfolding handle_query TurnAgrees Agrees
  handle_query-Agrees query h d a =
      let q = statement_of sv.runtime query in
      elim (Option-cases (handle_meta sv q h d)) [
        | inl e ↦ ground (arith, e, a, run_statement-db q d)
        | inr (t, e) ↦ ground (arith, e, a, handle_meta-Agrees q h d)
      ]
