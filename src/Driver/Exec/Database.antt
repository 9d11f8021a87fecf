-- ===== src/Driver/Exec/Database.antt =====
-- driver/driver.go: Exec and the database of the driver.
use mongosql.Write.{dispatch, Parsed}
use mongosql.Bytes.{Bytes}
use mongosql.Prelude.{List-cases, inr, inl, refl, arith, ◌≡◌}
use mongosql.Sel.Plan.{
  insert_select_stmt, delete_stmt, update_stmt, insert_stmt, aggregate_stmt, find_stmt, Statement,
  InsertSelectStmt, InsertStmt,
}
use mongosql.Vitess.{Vitess}
use mongosql.Bson.{Fields}
use mongosql.Client.{Client}
use mongosql.Runtime.{Runtime}
use mongosql.Driver.Exec.{
  Outcome, State, exec, exec_statement, exec_insert, exec_update, exec_delete, exec_insert_select,
  table_schema, defaulted, remap_rows,
}
use mongosql.Result.{ok, err, wrap, ◌>>=◌, Result, Result-cases}

module _ (rt : Runtime) (client : Client) where
  abbrev Driver : Type 0
  Driver = State client.World

  exec_insert-db : (s : InsertStmt) (d : Driver) → (exec_insert rt client s d).0.db ≡ d.db
  unfolding exec_insert table_schema
  exec_insert-db s d =
      let (d', schema) = table_schema client s.collection d in
      elim (Result-cases (defaulted rt client schema s.docs d')) [
        | inl (found, e) ↦ ground (arith, e)
        | inr (failed, e) ↦ ground (arith, e)
      ]

  exec_insert_select-db :
      (order : Fields → Fields) (s : InsertSelectStmt) (d : Driver)
      → (exec_insert_select rt client order s d).0.db ≡ d.db
  unfolding exec_insert_select
  exec_insert_select-db order s d =
      elim (Result-cases (client.aggregate d.db s.source_collection s.pipeline d.world)) [
        | inl (rows, e) ↦ elim (List-cases (remap_rows order s.columns rows)) [
          | inl none_left ↦ ground (arith, e, none_left)
          | inr (doc, docs, some_left) ↦ ground (arith, e, some_left)
        ]
        | inr (failed, e) ↦ ground (arith, e)
      ]

  exec_statement-db :
      (order : Fields → Fields) (s : Statement) (d : Driver)
      → (exec_statement rt client order s d).0.db ≡ d.db
  unfolding exec_statement exec_update exec_delete table_schema
  exec_statement-db order (find_stmt s) d = refl
  exec_statement-db order (aggregate_stmt s) d = refl
  exec_statement-db order (insert_stmt s) d = exec_insert-db s d
  exec_statement-db order (update_stmt s) d = refl
  exec_statement-db order (delete_stmt s) d = refl
  exec_statement-db order (insert_select_stmt s) d = exec_insert_select-db order s d

  pub exec-db :
      (vt : Vitess) (parse : Bytes → Result Parsed) (order : Fields → Fields) (sql : Bytes)
      (d : Driver)
      → (exec rt client vt parse order sql d).0.db ≡ d.db
  unfolding exec
  exec-db vt parse order sql d =
      elim (do tree ← wrap "parse SQL: %w" (parse sql); dispatch rt vt tree)
        as (λ r.
          (elim r as (λ x. Driver × Result Outcome) [
            | err e ↦ (d, err e)
            | ok s ↦ exec_statement rt client order s d
          ]).0.db
          ≡ d.db) [ err e ↦ refl | ok s ↦ exec_statement-db order s d ]
