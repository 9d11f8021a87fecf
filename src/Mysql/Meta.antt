-- ===== src/Mysql/Meta.antt =====
-- mysql/meta.go: handleMeta, containsSystemExpr and containsMetaSchema.
use mongosql.Bson.{Fields}
use mongosql.Client.{Client}
use mongosql.Expr.Columns.{no_text}
use mongosql.Result.{ok, Result}
use mongosql.Vitess.{Vitess}
use mongosql.Mysql.System.{starts_with_digit, system_select}
use mongosql.Runtime.{Runtime}
use mongosql.Prelude.{
  drop, ◌∷◌, ◌||◌, Bool, String, if◌then◌else◌, some, [], none, not, List, Option,
}
use mongosql.Driver.Exec.{use_db, State}
use mongosql.Bytes.{one_of, trim, str, Bytes}
use mongosql.Mysql.Scan.{quotes_and_space, has_top_level_from}
use mongosql.Mysql.Ddl.{Parser, empty_ok, handle_create_table, handle_drop_table}
use mongosql.Mysql.Ddl.Databases.{handle_truncate, handle_drop_database}
use mongosql.Mysql.Ddl.Indexes.{handle_create_index, handle_drop_index}
use mongosql.Mysql.Alter.Rename.{handle_rename_table, handle_create_database, handle_table_admin}
use mongosql.Mysql.Alter.Options.{handle_alter_table}
use mongosql.Mysql.Show.{first_case, starts_with_any, handle_show}
use mongosql.Mysql.Result.{Reply, Wire, empty_result}
use mongosql.Mysql.Define.{mentions}
use mongosql.Write.{Parsed}

-- What the program is linked with: Go's library, the packages, and the order in which a map is
-- iterated over. `parser` and `parse` are the parser of vitess, for the statements of the data
-- definition language and for the others.
pub record Server : Type 1 where
  pub runtime : Runtime
  pub vitess : Vitess
  pub client : Client
  pub wire : Wire
  pub equal_fold : Bytes → Bytes → Bool
  pub parser : Parser
  pub parse : Bytes → Result Parsed
  pub map_order : Fields → Fields

-- A handler: the databases of one connection.
pub record Handler : Type 0 where
  pub default_db : Bytes
  pub current_db : Bytes

-- What a statement leaves of the handler and of the driver, and its answer.
pub record Turn (World : Type 0) : Type 0 where
  pub handler : Handler
  pub driver : State World
  pub reply : Result Reply

unfoldable pub contains_meta_schema : Bytes → Bool
unfolding mentions
contains_meta_schema upper =
    mentions upper
      ("INFORMATION_SCHEMA" ∷ "PERFORMANCE_SCHEMA" ∷ "MYSQL." ∷ "`MYSQL`." ∷ "SYS." ∷ [])

abbrev no_ops : List String
no_ops =
    "SET " ∷ "BEGIN" ∷ "START TRANSACTION" ∷ "COMMIT" ∷ "ROLLBACK" ∷ "SAVEPOINT"
    ∷ "RELEASE SAVEPOINT" ∷ "FLUSH" ∷ "RESET" ∷ "LOCK TABLES" ∷ "UNLOCK TABLES" ∷ "KILL " ∷ "GRANT"
    ∷ "REVOKE" ∷ "CREATE USER" ∷ "DROP USER" ∷ "ALTER USER" ∷ "HANDLER" ∷ "PREPARE" ∷ "EXECUTE"
    ∷ "DEALLOCATE" ∷ "XA " ∷ []

unfoldable pub is_no_op : Bytes → Bool
unfolding starts_with_any one_of
is_no_op upper = starts_with_any upper no_ops || one_of upper ("SET" ∷ [])

unfoldable pub contains_system_expr : Runtime → Bytes → Bool
unfolding mentions
contains_system_expr rt body =
    mentions body (
      "@@" ∷ "VERSION()" ∷ "DATABASE()" ∷ "SCHEMA()" ∷ "USER()" ∷ "CURRENT_USER" ∷ "CONNECTION_ID()"
      ∷ "NOW()" ∷ "CURRENT_TIMESTAMP" ∷ "LAST_INSERT_ID()" ∷ "ROW_COUNT()" ∷ "FOUND_ROWS()"
      ∷ "CHARSET(" ∷ "COLLATION(" ∷ [])
    || starts_with_digit (rt.trim_space body)

-- The statements that are turned into operations of MongoDB.
pub data DdlKind : Type 0 where
  creates_table drops_table truncates creates_index drops_index alters_table : DdlKind
  renames_table creates_database administers drops_database : DdlKind

-- The cases of their switch, in their order.
abbrev pub ddl_cases : List (List String × DdlKind)
ddl_cases =
    ("CREATE TABLE" ∷ [], creates_table)
    ∷ ("DROP TABLE" ∷ [], drops_table)
    ∷ ("TRUNCATE" ∷ [], truncates)
    ∷ ("CREATE INDEX" ∷ "CREATE UNIQUE INDEX" ∷ [], creates_index)
    ∷ ("DROP INDEX" ∷ [], drops_index)
    ∷ ("ALTER TABLE" ∷ [], alters_table)
    ∷ ("RENAME TABLE" ∷ [], renames_table)
    ∷ ("CREATE DATABASE" ∷ "CREATE SCHEMA" ∷ [], creates_database)
    ∷ (
      "CHECK TABLE" ∷ "ANALYZE TABLE" ∷ "OPTIMIZE TABLE" ∷ "REPAIR TABLE" ∷ "CHECKSUM TABLE" ∷ [],
      administers,
    )
    ∷ ("DROP DATABASE" ∷ "DROP SCHEMA" ∷ [], drops_database)
    ∷ []

module _ (sv : Server) where
  abbrev rt : Runtime
  rt = sv.runtime

  abbrev pub Driver : Type 0
  Driver = State sv.client.World

  unfoldable pub run_ddl : DdlKind → Bytes → Bytes → Bytes → Driver → Driver × Result Reply
  unfolding handle_create_table handle_drop_table handle_truncate handle_create_index
      handle_drop_index handle_alter_table handle_rename_table handle_create_database
      handle_table_admin handle_drop_database
  run_ddl creates_table q upper current_db d =
      handle_create_table rt sv.client sv.vitess sv.parser q upper d
  run_ddl drops_table q upper current_db d = handle_drop_table rt sv.client q upper d
  run_ddl truncates q upper current_db d = handle_truncate rt sv.client q upper d
  run_ddl creates_index q upper current_db d = handle_create_index rt sv.client sv.parser q d
  run_ddl drops_index q upper current_db d = handle_drop_index rt sv.client sv.parser q d
  run_ddl alters_table q upper current_db d =
      handle_alter_table sv.client rt sv.vitess sv.equal_fold sv.parser q d
  run_ddl renames_table q upper current_db d = handle_rename_table sv.client sv.parser q d
  run_ddl creates_database q upper current_db d = (d, handle_create_database sv.parser q)
  run_ddl administers q upper current_db d =
      (d, handle_table_admin rt sv.wire current_db d.db q upper)
  run_ddl drops_database q upper current_db d = handle_drop_database rt sv.client q upper d

  -- USE: the name without its quotes.
  unfoldable pub used_db : Bytes → Bytes
  unfolding trim
  used_db q = trim quotes_and_space (rt.trim_space (drop 4 q))

  -- A SELECT that is answered without the translator.
  unfoldable pub select_reply : Bytes → Bytes → Bytes → Option (Result Reply)
  unfolding contains_meta_schema contains_system_expr has_top_level_from system_select empty_result
      str
  select_reply q upper current_db =
      if contains_meta_schema upper
      then some (ok (empty_result sv.wire (str "(empty)" ∷ [])))
      else if contains_system_expr rt (drop 6 upper) || not (has_top_level_from (drop 6 upper))
      then some (system_select rt sv.wire q current_db)
      else none

  -- SHOW, and DESC, DESCRIBE and EXPLAIN, which answer with no rows.
  unfoldable pub show_or_describe : Bytes → Bytes → Bytes → Driver → Option (Result Reply)
  unfolding starts_with_any handle_show empty_result str
  show_or_describe q upper current_db d =
      if starts_with_any upper ("SHOW" ∷ [])
      then some (handle_show rt sv.wire sv.client q upper current_db d.db d.world)
      else if starts_with_any upper ("DESC " ∷ "DESCRIBE " ∷ "EXPLAIN " ∷ [])
      then some (
          ok (
            empty_result sv.wire (
              str "Field"
              ∷ str "Type"
              ∷ str "Null"
              ∷ str "Key"
              ∷ str "Default"
              ∷ str "Extra"
              ∷ [])))
      else none

  -- The answer to a statement that reads only.
  unfoldable pub read_reply : Bytes → Bytes → Bytes → Driver → Option (Result Reply)
  unfolding select_reply show_or_describe starts_with_any
  read_reply q upper current_db d =
      elim (if starts_with_any upper ("SELECT" ∷ [])
        then select_reply q upper current_db
        else none) [ some reply ↦ some reply | none ↦ show_or_describe q upper current_db d ]

  -- USE, and the statements that read only.
  unfoldable pub use_or_read : Bytes → Bytes → Handler → Driver → Option (Turn sv.client.World)
  use_or_read q upper h d =
      if starts_with_any upper ("USE " ∷ [])
      then some (record {
        handler = record h { current_db = used_db q };
        driver = use_db (used_db q) d;
        reply = ok empty_ok;
      })
      else elim (read_reply q upper h.current_db d) [
        | none ↦ none
        | some reply ↦ some (record { handler = h; driver = d; reply = reply })
      ]

  -- `none` where the statement is left to the translator.
  unfoldable pub handle_meta : Bytes → Handler → Driver → Option (Turn sv.client.World)
  handle_meta q h d =
      let upper = rt.to_upper (rt.trim_space q) in
      if no_text upper || is_no_op upper
      then some (record { handler = h; driver = d; reply = ok empty_ok })
      else elim (first_case upper ddl_cases) [
        | some kind ↦
            let (d', reply) = run_ddl kind q upper h.current_db d in
            some (record { handler = h; driver = d'; reply = reply })
        | none ↦ use_or_read q upper h d
      ]
