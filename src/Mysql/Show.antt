-- ===== src/Mysql/Show.antt =====
-- mysql/meta.go: SHOW: handleShow, extractTableName, showDatabasesReal, showTables, showVariables.
pub mod Answers
use mongosql.Result.{◌>>=◌, ok, err, Result}
use mongosql.Prelude.Int.{pos}
use mongosql.Expr.Slice.{slice}
use mongosql.Client.{Client}
use mongosql.Prelude.{
  length, drop, false, ◌++◌, if◌then◌else◌, some, ◌+◌, [], none, Bool, ◌||◌, Option, ◌∷◌, String,
  List,
}
use mongosql.Runtime.{Runtime}
use mongosql.Mysql.Scan.{last_dot, quotes_and_space}
use mongosql.Bson.{Value, text, int64}
use mongosql.Mysql.Result.{Reply, ok_packet, Wire, rows_result, empty_result}
use mongosql.Bytes.{Bytes, str, trim, index, has_prefix}

-- What a kind of SHOW answers: `canned` gives the columns and the cells of one row, if any.
pub data Shown : Type 0 where
  databases tables database_statement table_statement variables_shown nothing : Shown
  canned : List String → List Value → Shown

-- The cases of the switch, in their order.
abbrev pub shows : List (List String × Shown)
shows =
    (("DATABASES" ∷ "SCHEMAS" ∷ []), databases)
    ∷ (("FULL TABLES" ∷ "TABLES" ∷ []), tables)
    ∷ (
      ("FULL COLUMNS" ∷ "COLUMNS" ∷ "FIELDS" ∷ "FULL FIELDS" ∷ []),
      canned
          ("Field" ∷ "Type" ∷ "Collation" ∷ "Null" ∷ "Key" ∷ "Default" ∷ "Extra" ∷ "Privileges"
            ∷ "Comment" ∷ [])
          [],
    )
    ∷ (("CREATE DATABASE" ∷ "CREATE SCHEMA" ∷ []), database_statement)
    ∷ (("CREATE TABLE" ∷ []), table_statement)
    ∷ (
      ("INDEX" ∷ "INDEXES" ∷ "KEYS" ∷ []),
      canned
          ("Table" ∷ "Non_unique" ∷ "Key_name" ∷ "Seq_in_index" ∷ "Column_name" ∷ "Collation"
            ∷ "Cardinality" ∷ "Sub_part" ∷ "Packed" ∷ "Null" ∷ "Index_type" ∷ "Comment"
            ∷ "Index_comment" ∷ [])
          [],
    )
    ∷ (
      ("TABLE STATUS" ∷ []),
      canned
          ("Name" ∷ "Engine" ∷ "Version" ∷ "Row_format" ∷ "Rows" ∷ "Avg_row_length" ∷ "Data_length"
            ∷ "Max_data_length" ∷ "Index_length" ∷ "Data_free" ∷ "Auto_increment" ∷ "Create_time"
            ∷ "Update_time" ∷ "Check_time" ∷ "Collation" ∷ "Checksum" ∷ "Create_options" ∷ "Comment"
            ∷ [])
          [],
    )
    ∷ (("VARIABLES" ∷ "SESSION VARIABLES" ∷ "GLOBAL VARIABLES" ∷ []), variables_shown)
    ∷ (
      ("STATUS" ∷ "SESSION STATUS" ∷ "GLOBAL STATUS" ∷ []),
      canned ("Variable_name" ∷ "Value" ∷ []) [],
    )
    ∷ (("WARNINGS" ∷ []), canned ("Level" ∷ "Code" ∷ "Message" ∷ []) [])
    ∷ (("ERRORS" ∷ []), canned ("Level" ∷ "Code" ∷ "Message" ∷ []) [])
    ∷ (
      ("ENGINES" ∷ []),
      canned ("Engine" ∷ "Support" ∷ "Comment" ∷ "Transactions" ∷ "XA" ∷ "Savepoints" ∷ []) (
          text (str "MongoDB")
          ∷ text (str "DEFAULT")
          ∷ text (str "MongoDB backed storage")
          ∷ text (str "NO")
          ∷ text (str "NO")
          ∷ text (str "NO")
          ∷ []),
    )
    ∷ (
      ("CHARACTER SET" ∷ "CHARSET" ∷ []),
      canned ("Charset" ∷ "Description" ∷ "Default collation" ∷ "Maxlen" ∷ []) (
          text (str "utf8mb4")
          ∷ text (str "UTF-8 Unicode")
          ∷ text (str "utf8mb4_general_ci")
          ∷ int64 (pos 4)
          ∷ []),
    )
    ∷ (
      ("COLLATION" ∷ []),
      canned ("Collation" ∷ "Charset" ∷ "Id" ∷ "Default" ∷ "Compiled" ∷ "Sortlen" ∷ []) (
          text (str "utf8mb4_general_ci")
          ∷ text (str "utf8mb4")
          ∷ int64 (pos 45)
          ∷ text (str "Yes")
          ∷ text (str "Yes")
          ∷ int64 (pos 1)
          ∷ []),
    )
    ∷ (
      ("GRANTS" ∷ []),
      canned ("Grants for root@localhost" ∷ [])
          (text (str "GRANT ALL PRIVILEGES ON *.* TO 'root'@'localhost'") ∷ []),
    )
    ∷ (
      ("PROCESSLIST" ∷ "FULL PROCESSLIST" ∷ []),
      canned ("Id" ∷ "User" ∷ "Host" ∷ "db" ∷ "Command" ∷ "Time" ∷ "State" ∷ "Info" ∷ []) [],
    )
    ∷ (("PLUGINS" ∷ []), canned ("Name" ∷ "Status" ∷ "Type" ∷ "Library" ∷ "License" ∷ []) [])
    ∷ (("PRIVILEGES" ∷ []), canned ("Privilege" ∷ "Context" ∷ "Comment" ∷ []) [])
    ∷ (
      ("TRIGGERS" ∷ []),
      canned
          ("Trigger" ∷ "Event" ∷ "Table" ∷ "Statement" ∷ "Timing" ∷ "Created" ∷ "sql_mode"
            ∷ "Definer" ∷ "character_set_client" ∷ "collation_connection" ∷ "Database Collation"
            ∷ [])
          [],
    )
    ∷ (
      ("EVENTS" ∷ []),
      canned
          ("Db" ∷ "Name" ∷ "Definer" ∷ "Time zone" ∷ "Type" ∷ "Execute at" ∷ "Interval value"
            ∷ "Interval field" ∷ "Starts" ∷ "Ends" ∷ "Status" ∷ "Originator"
            ∷ "character_set_client" ∷ "collation_connection" ∷ "Database Collation" ∷ [])
          [],
    )
    ∷ (
      ("PROCEDURE STATUS" ∷ "FUNCTION STATUS" ∷ []),
      canned
          ("Db" ∷ "Name" ∷ "Type" ∷ "Definer" ∷ "Modified" ∷ "Created" ∷ "Security_type" ∷ "Comment"
            ∷ "character_set_client" ∷ "collation_connection" ∷ "Database Collation" ∷ [])
          [],
    )
    ∷ (
      ("CREATE PROCEDURE" ∷ "CREATE FUNCTION" ∷ "CREATE TRIGGER" ∷ "CREATE EVENT" ∷ "CREATE VIEW"
          ∷ []),
      nothing,
    )
    ∷ (("OPEN TABLES" ∷ []), canned ("Database" ∷ "Table" ∷ "In_use" ∷ "Name_locked" ∷ []) [])
    ∷ (
      ("MASTER STATUS" ∷ "SLAVE STATUS" ∷ "REPLICA STATUS" ∷ "BINARY LOGS" ∷ "BINLOG EVENTS" ∷ []),
      canned ("(empty)" ∷ []) [],
    )
    ∷ []

unfoldable pub starts_with_any : Bytes → List String → Bool
unfolding has_prefix str
starts_with_any s [] = false
starts_with_any s (p ∷ ps) = has_prefix s (str p) || starts_with_any s ps

-- The first case with a prefix of the text.
unfoldable pub first_case {ℓ} : {A : Type ℓ} → Bytes → List (List String × A) → Option A
unfolding starts_with_any
first_case s [] = none
first_case s ((ps, a) ∷ cases) = if starts_with_any s ps then some a else first_case s cases

abbrev texts : List String → List Bytes
texts [] = []
texts (s ∷ ss) = str s ∷ texts ss

abbrev singletons : List Bytes → List (List Value)
singletons [] = []
singletons (s ∷ ss) = (text s ∷ []) ∷ singletons ss

abbrev base_tables : List Bytes → List (List Value)
base_tables [] = []
base_tables (s ∷ ss) = (text s ∷ text (str "BASE TABLE") ∷ []) ∷ base_tables ss

abbrev named : String → String → List Value
named name v = text (str name) ∷ text (str v) ∷ []

abbrev or_unknown : Bytes → Bytes
or_unknown [] = str "unknown"
or_unknown (c ∷ s) = c ∷ s

module _ (rt : Runtime) where
  unfoldable pub extract_table_name : Bytes → String → Result Bytes
  unfolding index slice trim last_dot str
  extract_table_name q prefix = elim (index (rt.to_upper q) (rt.to_upper (str prefix))) [
    | none ↦ ok (str "unknown")
    | some i ↦ (do
      after ← slice q (pos (i + length (str prefix))) (pos (length q))
      let name = trim (quotes_and_space ++ b';' ∷ []) (rt.trim_space after)
      ok (
          or_unknown (elim (last_dot name) [
            | none ↦ name
            | some (db, table) ↦ trim quotes_and_space table
          ])))
  ]

  module _ (wire : Wire) (client : Client) where
    unfoldable pub show_databases : Bytes → client.World → Reply
    unfolding rows_result str
    show_databases current_db w =
        let own = str "information_schema" ∷ str "mysql" ∷ [] in
        rows_result wire (texts ("Database" ∷ [])) (elim (client.database_names w) [
          | err e ↦ singletons (own ++ current_db ∷ [])
          | ok dbs ↦ singletons (own ++ dbs)
        ])

    unfoldable pub show_tables : Bool → Bytes → Bytes → client.World → Reply
    unfolding rows_result str
    show_tables full current_db db w =
        let col = str "Tables_in_" ++ current_db in
        elim (client.collection_names db w) [
          | err e ↦ rows_result wire (col ∷ []) []
          | ok names ↦
              if full
              then rows_result wire (col ∷ str "Table_type" ∷ []) (base_tables names)
              else rows_result wire (col ∷ []) (singletons names)
        ]

    unfoldable pub show_variables : Reply
    unfolding rows_result str
    show_variables = rows_result wire (texts ("Variable_name" ∷ "Value" ∷ [])) (
        named "version" "8.0.0-mongodb-sql-driver"
        ∷ named "version_comment" "mongodb-sql-driver"
        ∷ named "character_set_server" "utf8mb4"
        ∷ named "collation_server" "utf8mb4_general_ci"
        ∷ named "max_allowed_packet" "67108864"
        ∷ named "sql_mode" ""
        ∷ named "autocommit" "ON"
        ∷ named "time_zone" "UTC"
        ∷ named "transaction_isolation" "READ-COMMITTED"
        ∷ named "lower_case_table_names" "0"
        ∷ [])

    -- The answer of one kind, with the statement, the current database, and the driver's.
    unfoldable pub shown_reply : Shown → Bytes → Bytes → Bytes → Bytes → client.World → Result Reply
    unfolding show_databases show_tables show_variables extract_table_name rows_result empty_result
        has_prefix str
    shown_reply databases q rest current_db db w = ok (show_databases current_db w)
    shown_reply tables q rest current_db db w =
        ok (show_tables (has_prefix rest (str "FULL")) current_db db w)
    shown_reply database_statement q rest current_db db w = ok (
        rows_result wire (texts ("Database" ∷ "Create Database" ∷ []))
          ((text current_db ∷ text (str "CREATE DATABASE `" ++ (current_db ++ str "`")) ∷ []) ∷ []))
    shown_reply table_statement q rest current_db db w = do
      name ← extract_table_name q "SHOW CREATE TABLE"
      ok (
          rows_result wire (texts ("Table" ∷ "Create Table" ∷ [])) (
            (text name
              ∷ text (
                  str "CREATE TABLE `"
                  ++ (name
                      ++ str
                          "` (\n  `_id` varchar(255) NOT NULL,\n  PRIMARY KEY (`_id`)\n) ENGINE=MongoDB"))
              ∷ [])
            ∷ []))
    shown_reply variables_shown q rest current_db db w = ok show_variables
    shown_reply nothing q rest current_db db w = ok (ok_packet 0)
    shown_reply (canned cols []) q rest current_db db w = ok (empty_result wire (texts cols))
    shown_reply (canned cols (c ∷ cs)) q rest current_db db w =
        ok (rows_result wire (texts cols) ((c ∷ cs) ∷ []))

    unfoldable pub handle_show : Bytes → Bytes → Bytes → Bytes → client.World → Result Reply
    unfolding first_case shown_reply empty_result str
    handle_show q upper current_db db w =
        let rest = rt.trim_space (drop 4 upper) in
        elim (first_case rest shows) [
          | none ↦ ok (empty_result wire (texts ("(empty)" ∷ [])))
          | some a ↦ shown_reply a q rest current_db db w
        ]
