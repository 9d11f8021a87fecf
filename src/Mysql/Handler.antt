-- ===== src/Mysql/Handler.antt =====
-- mysql/handler.go: the handler of one connection.
pub mod Frame
pub mod Semicolons
pub mod Sound
use mongosql.Expr.Columns.{no_text}
use mongosql.Result.{message, err, ok, Result}
use mongosql.Runtime.{Runtime}
use mongosql.Prelude.{take, length, zero, none, ◌-◌, suc, if◌then◌else◌, ◌∷◌, some, [], ◌==◌, ℕ}
use mongosql.Mysql.Comments.{strip_sql_comments}
use mongosql.Bytes.{bytes_eq, has_prefix, Bytes}
use mongosql.Driver.Exec.{use_db, exec}
use mongosql.Mysql.Meta.{Server, Handler, Turn, Driver, handle_meta}
use mongosql.Mysql.Ddl.{empty_ok, refused}
use mongosql.Mysql.Result.{Reply, result_to_mysql}
use mongosql.Mysql.System.{ends_with}

unfoldable pub new_handler : Bytes → Handler
new_handler default = record { default_db = default; current_db = default }

-- COM_PING.
abbrev com_ping : ℕ
com_ping = 14

-- Whether HandleOtherCommand accepts the command.
unfoldable pub handle_other_command : ℕ → Result (Unit {0})
handle_other_command cmd =
    if cmd == com_ping
    then ok tt
    else refused "ER_UNKNOWN_ERROR" (message "command %d not supported")

-- The loop that takes trailing semicolons off.
unfoldable pub strip_semicolons : Runtime → ℕ → Bytes → Bytes
unfolding has_prefix bytes_eq
strip_semicolons rt zero q = q
strip_semicolons rt (suc fuel) q =
    let rest = strip_semicolons rt fuel (rt.trim_space (take (length q - 1) q)) in
    if ends_with q (b';' ∷ []) then rest else q

-- The statement in the query. The length of the query is enough fuel, since each round takes a
-- byte at least.
unfoldable pub statement_of : Runtime → Bytes → Bytes
unfolding strip_semicolons strip_sql_comments
statement_of rt query =
    let q = rt.trim_space (strip_sql_comments query) in strip_semicolons rt (length q) q

module _ (sv : Server) where
  -- UseDB, for COM_INIT_DB.
  unfoldable pub init_db : Bytes → Handler → Driver sv → Handler × Driver sv
  init_db name h d =
      if no_text name then (h, d) else (record h { current_db = name }, use_db name d)

  -- The statements that the translator runs.
  unfoldable pub run_statement : Bytes → Driver sv → Driver sv × Result Reply
  run_statement q d =
      let (d', outcome) = exec sv.runtime sv.client sv.vitess sv.parse sv.map_order q d in
      elim outcome [
        | err e ↦ (d', refused "ER_PARSE_ERROR" e)
        | ok o ↦ (d', ok (result_to_mysql sv.wire sv.runtime o))
      ]

  unfoldable pub handle_query : Bytes → Handler → Driver sv → Turn sv.client.World
  handle_query query h d =
      let q = statement_of sv.runtime query in
      if no_text q
      then record { handler = h; driver = d; reply = ok empty_ok }
      else elim (handle_meta sv q h d) [
        | some turn ↦ turn
        | none ↦
            let (d', reply) = run_statement q d in
            record { handler = h; driver = d'; reply = reply }
      ]

  -- HandleStmtExecute runs the text of the statement again.
  unfoldable pub handle_stmt_execute : Bytes → Handler → Driver sv → Turn sv.client.World
  unfolding handle_query
  handle_stmt_execute query h d = handle_query query h d
