-- ===== src/Samples/Server.antt =====
-- A server for mysql/*.go that grants every request, and the theorems at it.
use mongosql.Driver.Schema.Named.{opened-IsSound, IsSound}
use mongosql.Mysql.Handler.Sound.{handle_query-IsSound, kind_of, is_steady}
use mongosql.Driver.Schema.Cache.{opened}
use mongosql.Mysql.Alter.Rename.{rename_collection}
use mongosql.Sel.Find.{id_key}
use mongosql.Mysql.Alter.Renamed.{rename_collection-table_schema}
use mongosql.Prelude.Int.{pos}
use mongosql.Mysql.Ddl.Created.{drop_tables-IsUnknown, IsUnknown, create_parsed-table_schema}
use mongosql.Write.{other_statement}
use mongosql.Mysql.Define.{extract_schema}
use mongosql.Mysql.Handler.{handle_query, strip_semicolons, statement_of, new_handler}
use mongosql.Mysql.System.{ends_with}
use mongosql.Driver.Schema.{find_stored, find_schema, get_schema}
use mongosql.Result.{ok}
use mongosql.Bson.{end, nil, cons, arr, int, field, null, Fields, get}
use mongosql.Mysql.Show.{starts_with_any, first_case, handle_show}
use mongosql.Mysql.Result.{without_id, collect_columns, among, rows_to_result, Wire}
use mongosql.Mysql.Ddl.{after, drop_tables, create_parsed, make_collection}
use mongosql.Mysql.Sessions.Alone.{Reaches-AgreesAlone, AgreesAlone}
use mongosql.Mysql.Comments.{literal_part, strip_loop, strip_sql_comments}
use mongosql.Mysql.Handler.Semicolons.{statement_of-strip_semicolons, Shortens}
use mongosql.Mysql.Scan.{last_dot, split_db_table, take_token, first_ident}
use mongosql.Mysql.Alter.Options.{
  parse_alter_table, handle_alter_table, alter_table_named, alter_options, alter_option,
}
use mongosql.Mysql.Alter.Sound.Options.{succeeds}
use mongosql.Driver.Schema.{save, TableSchema}
use mongosql.Driver.Schema.Named.{save-IsSound}
use mongosql.Mysql.Syntax.{alter_table, drop_column}
use mongosql.Mysql.Sessions.{listens, accepts, serves, com_query, serve_at, Command}
use mongosql.Mysql.Show.Answers.{handle_show-IsOk, KeepsLength, IsOk}
use mongosql.Mysql.Result.Columns.{collect_columns-some_has, starts_with_id, ascends, some_has}
use mongosql.Mysql.Syntax.{other_ddl, TableSpec}
use mongosql.Mysql.Result.Cells.{rows_to_result-IsReadable, IsReadable}
use mongosql.Bytes.{index, has_prefix, trim_right, trim_left, trim, elem, str, Bytes, bytes_eq}
use mongosql.Driver.Exec.{table_schema, State}
use mongosql.Prelude.{drop, true, refl, [], arith, none, ◌∷◌, false, some, suc, ◌≡◌, ℕ, List}
use mongosql.Client.{Client}
use mongosql.Mysql.Meta.{Server}
use mongosql.Samples.Go.{go}
use mongosql.Samples.Statements.{vitess}

-- The world counts the writes.
abbrev client : Client
client = record {
  World = ℕ;
  find = λ db coll filter options w. ok [];
  distinct = λ db coll path filter w. ok [];
  aggregate = λ db coll pipeline w. ok [];
  insert_many = λ db coll docs w. (ok [], suc w);
  update_many = λ db coll filter change w. (ok (0, 0), suc w);
  delete_many = λ db coll filter w. (ok 0, suc w);
  writes_schema = λ db table w. true;
  reads_schema = λ db table w. true;
  deletes_schema = λ db table w. true;
  next_auto_increment = λ db table w. ok (null, suc w);
  delete_counter = λ db table w. suc w;
  move_counter = λ db from to w. suc w;
  database_names = λ w. ok [];
  collection_names = λ db w. ok [];
  collections_named = λ db table w. ok [];
  create_collection = λ db table w. (ok tt, suc w);
  drop_collection = λ db table w. (ok tt, suc w);
  rename_collection = λ db from to w. (ok tt, suc w);
  drop_database = λ db w. (ok tt, suc w);
  create_index = λ db table model w. (ok [], suc w);
  drop_index = λ db table name w. (ok tt, suc w);
}

abbrev wire : Wire
wire = record { encodes = λ cols rows. true; marshal_ext_json = λ v. none }

abbrev server : Server
server = record {
  runtime = go;
  vitess = vitess;
  client = client;
  wire = wire;
  equal_fold = bytes_eq;
  parser = ok (λ q. ok other_ddl);
  parse = λ q. ok other_statement;
  map_order = λ fs. fs;
}

-- A driver in the database a, which knows nothing yet.
abbrev driver : State ℕ
driver = record { db = b'a' ∷ []; schemas = opened []; world = 0 }

-- USE b, by the only connection
abbrev use_b : Command
use_b = com_query (b'U' ∷ b'S' ∷ b'E' ∷ 32 ∷ b'b' ∷ [])

Reaches-AgreesAlone_example :
    AgreesAlone server
      (serve_at server 0 use_b (new_handler (b'a' ∷ []) ∷ []) driver).0
      (serve_at server 0 use_b (new_handler (b'a' ∷ []) ∷ []) driver).1
Reaches-AgreesAlone_example =
    Reaches-AgreesAlone server (serves 0 use_b (accepts (listens driver refl)))

go-Shortens : Shortens go
unfolding go
go-Shortens s = omega arith

go-KeepsLength : KeepsLength go
unfolding go
go-KeepsLength [] h = refl
go-KeepsLength (c ∷ s) h = ground (arith, go-KeepsLength s)

-- x;;
abbrev two_semicolons : Bytes
two_semicolons = b'x' ∷ b';' ∷ b';' ∷ []

statement_of-strip_semicolons_example :
    (ends_with (statement_of go two_semicolons) (b';' ∷ []) ≡ false)
    × (strip_semicolons go 5 (go.trim_space (strip_sql_comments two_semicolons))
        ≡ statement_of go two_semicolons)
unfolding go strip_sql_comments strip_loop
statement_of-strip_semicolons_example =
    statement_of-strip_semicolons go go-Shortens two_semicolons 5 (omega arith)

-- {b: 1, a: [1]} and {a: 2, _id: 3}
abbrev two_rows : List Fields
two_rows =
    field (b'b' ∷ []) (int (pos 1)) (field (b'a' ∷ []) (arr (cons (int (pos 1)) nil)) end)
    ∷ field (b'a' ∷ []) (int (pos 2)) (field id_key (int (pos 3)) end)
    ∷ []

collect_columns-some_has_example :
    ((k : Bytes) → among k (collect_columns two_rows) ≡ some_has k two_rows)
    × (ascends (without_id (collect_columns two_rows)) ≡ true)
    × (starts_with_id (collect_columns two_rows) ≡ some_has id_key two_rows)
    × (among id_key (drop 1 (collect_columns two_rows)) ≡ false)
unfolding some_has get bytes_eq
collect_columns-some_has_example = collect_columns-some_has two_rows (b'b' ∷ []) refl

rows_to_result-IsReadable_example : IsReadable 2 (rows_to_result wire go two_rows)
rows_to_result-IsReadable_example = rows_to_result-IsReadable wire go two_rows

handle_show-IsOk_example :
    IsOk
      (handle_show go wire client (str "SHOW CREATE TABLE t") (str "SHOW CREATE TABLE T") [] [] 0)
unfolding str
handle_show-IsOk_example =
    handle_show-IsOk go go-KeepsLength wire client (str "SHOW CREATE TABLE t")
      (str "SHOW CREATE TABLE T") [] [] 0 refl

-- (n INT)
abbrev n_spec : TableSpec
n_spec = record {
  columns = record { name = b'n' ∷ []; type = b'I' ∷ []; options = none } ∷ [];
  indexes = [];
}

create_parsed-table_schema_example :
    ((table_schema client
        (b't' ∷ [])
        (create_parsed go client vitess false (b't' ∷ []) (some n_spec) driver).0).1
      ≡ extract_schema go vitess (b't' ∷ []) (some n_spec))
    × (find_stored
          (b'a' ∷ [])
          (b't' ∷ [])
          (create_parsed go client vitess false (b't' ∷ []) (some n_spec) driver).0.schemas.stored
        ≡ extract_schema go vitess (b't' ∷ []) (some n_spec))
unfolding make_collection
create_parsed-table_schema_example =
    create_parsed-table_schema go client vitess false (b't' ∷ []) n_spec
      (record { name = b'n' ∷ []; type = b'I' ∷ []; options = none }) [] driver refl refl refl refl

-- The driver knows a schema of t.
abbrev known : State ℕ
known = record {
  db = b'a' ∷ [];
  schemas = record {
    cache = [];
    stored =
        ((b'a' ∷ [], b't' ∷ []), record { table_name = b't' ∷ []; columns = []; indexes = [] })
        ∷ [];
  };
  world = 0;
}

drop_tables-IsUnknown_example :
    IsUnknown
      (b'a' ∷ [])
      (b't' ∷ [])
      (drop_tables go client false ((b's' ∷ []) ∷ (b't' ∷ []) ∷ []) known).0.schemas
unfolding go first_ident take_token elem split_db_table last_dot trim trim_left trim_right
drop_tables-IsUnknown_example =
    drop_tables-IsUnknown go client false ((b's' ∷ []) ∷ []) (b't' ∷ []) [] known
      (λ db table w. refl) (λ db table w. refl) refl

rename_collection-table_schema_example :
    ((table_schema client (b'u' ∷ []) (rename_collection client (b't' ∷ []) (b'u' ∷ []) known).0).1
      ≡ some (record { table_name = b'u' ∷ []; columns = []; indexes = [] }))
    × IsUnknown
        (b'a' ∷ [])
        (b't' ∷ [])
        (rename_collection client (b't' ∷ []) (b'u' ∷ []) known).0.schemas
unfolding table_schema get_schema find_schema find_stored bytes_eq
rename_collection-table_schema_example =
    rename_collection-table_schema client (b't' ∷ []) (b'u' ∷ []) known
      (record { table_name = b't' ∷ []; columns = []; indexes = [] }) refl refl refl refl refl refl

-- A server whose parser gives ALTER TABLE t DROP COLUMN n.
abbrev altering_server : Server
altering_server = record server {
  parser = ok (λ q. ok (alter_table (b't' ∷ []) (drop_column (b'n' ∷ []) ∷ [])));
}

abbrev alter_t : Bytes
alter_t = str "ALTER TABLE t"

-- A table t without columns.
abbrev t_schema : TableSchema
t_schema = record { table_name = b't' ∷ []; columns = []; indexes = [] }

-- The driver has created the table t.
abbrev with_t : State ℕ
with_t = record {
  db = b'a' ∷ [];
  schemas = (save true (b'a' ∷ []) t_schema (opened [])).0;
  world = 0;
}

handle_query-IsSound_example :
    IsSound (handle_query altering_server alter_t (new_handler (b'a' ∷ [])) with_t).driver.schemas
unfolding is_steady kind_of first_case starts_with_any has_prefix go statement_of strip_semicolons
    strip_sql_comments strip_loop literal_part index str bytes_eq succeeds handle_alter_table after
    parse_alter_table alter_table_named alter_options alter_option
handle_query-IsSound_example =
    handle_query-IsSound altering_server (λ db table w. refl) alter_t (new_handler (b'a' ∷ []))
      with_t refl refl (save-IsSound true (b'a' ∷ []) t_schema (opened []) refl opened-IsSound)
