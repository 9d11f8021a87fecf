-- ===== src/Mysql/System.antt =====
-- mysql/meta.go: systemSelect and systemValueFor.
use mongosql.Mysql.Scan.{split_top_level}
use mongosql.Mysql.Result.{Wire, Reply, rows_result}
use mongosql.Expr.Slice.{slice}
use mongosql.Prelude.{
  Bool, false, ◌&&◌, ◌||◌, Option, none, some, List, [], ◌∷◌, ℕ, ◌+◌, ◌-◌, leb, length, drop,
  if◌then◌else◌, String,
}
use mongosql.Prelude.Int.{pos, sub_ℕ}
use mongosql.Bytes.{Bytes, str, bytes_eq, one_of, has_prefix, index, trim}
use mongosql.Result.{Result, ok, ◌>>=◌}
use mongosql.Runtime.{Runtime}
use mongosql.Bson.{Value, null, int64, text}

-- The cases of the switch over the variables that return one constant.
abbrev variables : List (List String × Value)
variables =
    ("HOSTNAME" ∷ "SERVERNAME" ∷ [], text (str "localhost"))
    ∷ ("PORT" ∷ [], int64 (pos 3307))
    ∷ ("COLLATION_SERVER" ∷ "COLLATION_CONNECTION" ∷ [], text (str "utf8mb4_general_ci"))
    ∷ ("SQL_MODE" ∷ [], text [])
    ∷ ("LICENSE" ∷ [], text (str "Apache-2.0"))
    ∷ ("AUTOCOMMIT" ∷ "AUTO_INCREMENT_INCREMENT" ∷ "AUTO_INCREMENT_OFFSET" ∷ [], int64 (pos 1))
    ∷ ("TX_ISOLATION" ∷ "TRANSACTION_ISOLATION" ∷ [], text (str "READ-COMMITTED"))
    ∷ ("TX_READ_ONLY" ∷ "TRANSACTION_READ_ONLY" ∷ [], int64 (pos 0))
    ∷ ("LOWER_CASE_TABLE_NAMES" ∷ [], int64 (pos 0))
    ∷ ("MAX_ALLOWED_PACKET" ∷ [], int64 (pos 67108864))
    ∷ ("NET_WRITE_TIMEOUT" ∷ "NET_READ_TIMEOUT" ∷ [], int64 (pos 30))
    ∷ ("WAIT_TIMEOUT" ∷ "INTERACTIVE_TIMEOUT" ∷ [], int64 (pos 28800))
    ∷ ("TIME_ZONE" ∷ "SYSTEM_TIME_ZONE" ∷ [], text (str "UTC"))
    ∷ ("HAVE_SSL" ∷ "HAVE_OPENSSL" ∷ [], text (str "DISABLED"))
    ∷ ("SSL_CA" ∷ "SSL_CERT" ∷ "SSL_KEY" ∷ [], text [])
    ∷ ("INIT_CONNECT" ∷ [], text [])
    ∷ ("SQL_SAFE_UPDATES" ∷ [], int64 (pos 0))
    ∷ ("SQL_SELECT_LIMIT" ∷ [], text (str "18446744073709551615"))
    ∷ ("FOREIGN_KEY_CHECKS" ∷ [], int64 (pos 1))
    ∷ ("UNIQUE_CHECKS" ∷ [], int64 (pos 1))
    ∷ ("PROFILING" ∷ [], int64 (pos 0))
    ∷ ("HAVE_PROFILING" ∷ [], text (str "YES"))
    ∷ ("LOG_BIN" ∷ [], int64 (pos 0))
    ∷ ("INNODB_VERSION" ∷ [], text (str "8.0.0"))
    ∷ ("VERSION_COMPILE_OS" ∷ [], text (str "linux"))
    ∷ ("VERSION_COMPILE_MACHINE" ∷ [], text (str "x86_64"))
    ∷ ("PERFORMANCE_SCHEMA" ∷ [], int64 (pos 0))
    ∷ ("EVENT_SCHEDULER" ∷ [], text (str "OFF"))
    ∷ ("GROUP_CONCAT_MAX_LEN" ∷ [], int64 (pos 1024))
    ∷ ("MAX_CONNECTIONS" ∷ [], int64 (pos 151))
    ∷ ("THREAD_STACK" ∷ [], int64 (pos 262144))
    ∷ []

-- The first case whose labels contain the key.
unfoldable pub find_case : Bytes → List (List String × Value) → Option Value
unfolding one_of
find_case key [] = none
find_case key ((labels, v) ∷ r) = if one_of key labels then some v else find_case key r

abbrev drop_prefix : String → Bytes → Bytes
drop_prefix p s = if has_prefix s (str p) then drop (length (str p)) s else s

-- The name of a variable without @@, SESSION. and GLOBAL.
unfoldable pub variable_key : Bytes → Bytes
unfolding has_prefix str
variable_key upper = drop_prefix "GLOBAL." (drop_prefix "SESSION." (drop_prefix "@@" upper))

abbrev character_sets : List String
character_sets =
    "CHARACTER_SET_CLIENT" ∷ "CHARACTER_SET_RESULTS" ∷ "CHARACTER_SET_CONNECTION"
    ∷ "CHARACTER_SET_SERVER" ∷ "CHARACTER_SET_DATABASE" ∷ "CHARACTER_SET_FILESYSTEM"
    ∷ "CHARACTER_SET_SYSTEM" ∷ []

unfoldable pub variable_value : Bytes → Option Value
unfolding find_case one_of
variable_value key =
    if one_of key ("VERSION" ∷ [])
    then some (text (str "8.0.0-mongodb-sql-driver"))
    else if one_of key ("VERSION_COMMENT" ∷ [])
    then some (text (str "mongodb-sql-driver"))
    else if one_of key ("COLLATION_DATABASE" ∷ [])
    then some (text (str "utf8mb4_general_ci"))
    else if one_of key character_sets
    then some (text (str "utf8mb4"))
    else find_case key variables

abbrev pub ends_with : Bytes → Bytes → Bool
ends_with s t = leb (length t) (length s) && bytes_eq (drop (length s - length t) s) t

abbrev is_quoted_by : ℕ → Bytes → Bool
is_quoted_by q s = has_prefix s (q ∷ []) && ends_with s (q ∷ [])

abbrev pub starts_with_digit : Bytes → Bool
starts_with_digit [] = false
starts_with_digit (c ∷ s) = leb b'0' c && leb c b'9'

module _ (rt : Runtime) where
  unfoldable pub function_value : Bytes → Bytes → Option Value
  unfolding one_of find_case
  function_value upper db =
      if one_of upper ("VERSION()" ∷ [])
      then some (text (str "8.0.0-mongodb-sql-driver"))
      else if one_of upper ("DATABASE()" ∷ "SCHEMA()" ∷ [])
      then some (text db)
      else if one_of upper ("CURRENT_USER" ∷ "CURRENT_USER()" ∷ "USER()" ∷ "SESSION_USER()" ∷ [])
      then some (text (str "root@localhost"))
      else if one_of upper (
          "NOW()" ∷ "CURRENT_TIMESTAMP" ∷ "CURRENT_TIMESTAMP()" ∷ "SYSDATE()" ∷ "LOCALTIME"
          ∷ "LOCALTIME()" ∷ "LOCALTIMESTAMP" ∷ "LOCALTIMESTAMP()" ∷ [])
      then some (text (rt.format_datetime rt.now))
      else if one_of upper ("CURDATE()" ∷ "CURRENT_DATE" ∷ "CURRENT_DATE()" ∷ [])
      then some (text (rt.format_date rt.now))
      else if one_of upper ("CURTIME()" ∷ "CURRENT_TIME" ∷ "CURRENT_TIME()" ∷ [])
      then some (text (rt.format_clock rt.now))
      else find_case upper (
          ("LAST_INSERT_ID()" ∷ "ROW_COUNT()" ∷ "FOUND_ROWS()" ∷ "FALSE" ∷ [], int64 (pos 0))
          ∷ ("CONNECTION_ID()" ∷ "1" ∷ "TRUE" ∷ [], int64 (pos 1))
          ∷ ("NULL" ∷ [], null)
          ∷ [])

  -- A number or a quoted text; the quotes are cut off by expr[1 : len(expr)-1].
  unfoldable pub literal_cell : Bytes → Bytes → Result Value
  unfolding slice has_prefix bytes_eq
  literal_cell upper expr =
      if starts_with_digit upper
      then ok (text expr)
      else if is_quoted_by 39 expr || is_quoted_by 34 expr
      then (do s ← slice expr (pos 1) (sub_ℕ (length expr) 1); ok (text s))
      else ok (text [])

  unfoldable pub system_value_for : Bytes → Bytes → Result Value
  unfolding variable_key variable_value function_value literal_cell
  system_value_for expr db =
      let upper = rt.to_upper (rt.trim_space expr) in
      elim (variable_value (variable_key upper)) [
        | some v ↦ ok v
        | none ↦ elim (function_value upper db) [ some v ↦ ok v | none ↦ literal_cell upper expr ]
      ]

  -- `expr AS alias`: the expression and the name of the column.
  unfoldable pub split_alias : Bytes → Result (Bytes × Bytes)
  unfolding index slice trim str
  split_alias e = elim (index (rt.to_lower e) (str " as ")) [
    | none ↦ ok (e, e)
    | some i ↦ (do
      alias ← slice e (pos (i + 4)) (pos (length e))
      expr ← slice e (pos 0) (pos i)
      ok (rt.trim_space expr, trim (96 ∷ 34 ∷ 39 ∷ []) (rt.trim_space alias)))
  ]

  unfoldable pub system_row : Bytes → List Bytes → Result (List Bytes × List Value)
  unfolding split_alias system_value_for
  system_row db [] = ok ([], [])
  system_row db (e ∷ es) = do
    (expr, alias) ← split_alias (rt.trim_space e)
    v ← system_value_for expr db
    (names, values) ← system_row db es
    ok (alias ∷ names, v ∷ values)

  -- The text behind `SELECT `.
  unfoldable pub select_list : Bytes → Result Bytes
  unfolding index slice str
  select_list q = elim (index (rt.to_upper q) (str "SELECT ")) [
    | none ↦ ok q
    | some i ↦ slice q (pos (i + 7)) (pos (length q))
  ]

  unfoldable pub system_select : Wire → Bytes → Bytes → Result Reply
  unfolding select_list system_row split_top_level rows_result
  system_select wire q db = do
    rest ← select_list q
    (names, values) ← system_row db (split_top_level rest b',')
    ok (rows_result wire names (values ∷ []))
