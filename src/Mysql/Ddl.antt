-- ===== src/Mysql/Ddl.antt =====
-- mysql/ddl.go: CREATE TABLE, DROP TABLE, TRUNCATE and DROP DATABASE.
pub mod Created
pub mod Databases
pub mod Frame
pub mod Indexes
pub mod Sound
use mongosql.Prelude.{
  String, Bool, true, false, not, ◌&&◌, Option, none, some, List, [], ◌∷◌, ◌++◌, ℕ, ◌+◌, length,
  if◌then◌else◌,
}
use mongosql.Prelude.Int.{pos}
use mongosql.Bytes.{Bytes, str, bytes_eq, contains, index, has_prefix, trim}
use mongosql.Client.{Client}
use mongosql.Driver.Schema.{TableSchema, Stored, SchemaStore, save, delete_schema}
use mongosql.Driver.Exec.{State}
use mongosql.Expr.Columns.{no_text}
use mongosql.Expr.Slice.{slice}
use mongosql.Mysql.Define.{extract_schema, create_indexes, is_namespace_exists}
use mongosql.Mysql.Result.{Reply, ok_packet}
use mongosql.Mysql.Scan.{split_top_level, first_ident, split_db_table, quotes_and_space}
use mongosql.Mysql.Syntax.{Ddl, TableSpec, create_table}
use mongosql.Result.{Error, message, wrapped, mysql_error, Result, ok, err, ◌>>=◌}
use mongosql.Runtime.{Runtime}
use mongosql.Vitess.{Vitess}

-- sqlparser.New, and the Parse of the parser that it gives.
abbrev pub Parser : Type 0
Parser = Result (Bytes → Result Ddl)

-- What is left of the work where a step before it gives an error: nothing.
unfoldable pub after {ℓ κ} :
    {A : Type ℓ} {B : Type κ} {S : Type 0} → S → Result A → (A → S × Result B) → S × Result B
after s (ok a) f = f a
after s (err e) f = (s, err e)

-- emptyOK.
abbrev pub empty_ok : Reply
empty_ok = ok_packet 0

abbrev pub refused {ℓ} : {A : Type ℓ} → String → Error → Result A
refused code e = err (mysql_error code e)

unfoldable pub stored_outside : Bytes → Stored → Stored
unfolding bytes_eq
stored_outside db [] = []
stored_outside db (((d, t), s) ∷ r) =
    let rest = stored_outside db r in if bytes_eq d db then rest else ((d, t), s) ∷ rest

abbrev is_empty_list {ℓ} : {A : Type ℓ} → List A → Bool
is_empty_list [] = true
is_empty_list (x ∷ xs) = false

module _ (client : Client) where
  abbrev pub Driver : Type 0
  Driver = State client.World

  -- SchemaStore.Save in the database of the driver: the store, and whether it was written.
  unfoldable pub save_schema : TableSchema → Driver → Driver × Bool
  unfolding save
  save_schema schema d =
      let (ss, written) =
        save (client.writes_schema d.db schema.table_name d.world) d.db schema d.schemas in
      (record d { schemas = ss }, written)

  abbrev already_there : Bool → Bytes → Driver → Bool
  already_there if_not_exists table d =
      if if_not_exists then false else elim (client.collections_named d.db table d.world) [
        | err e ↦ false
        | ok names ↦ not (is_empty_list names)
      ]

  -- The check for the table and CreateCollection: whether the collection is new.
  unfoldable pub make_collection : Bool → Bytes → Driver → Driver × Result Bool
  unfolding is_namespace_exists
  make_collection if_not_exists table d =
      if already_there if_not_exists table d
      then (d, refused "ER_TABLE_EXISTS_ERROR" (message "Table '%s' already exists"))
      else let (made, world') = client.create_collection d.db table d.world in
        let d' : Driver = record d { world = world' } in
        elim made [
          | ok u ↦ (d', ok true)
          | err e ↦
              if if_not_exists && is_namespace_exists e
              then (d', ok false)
              else (d', refused "ER_CANT_CREATE_TABLE" (wrapped "CREATE TABLE: %w" e))
        ]

  missing_name : String → Driver → Driver × Result Reply
  missing_name s d = (d, refused "ER_PARSE_ERROR" (message s))

  -- Schemas.Delete, and DeleteOne of the counter.
  unfoldable pub forget_table : Bytes → Bytes → Driver → Driver
  unfolding delete_schema
  forget_table db table d = record d {
    schemas = delete_schema (client.deletes_schema db table d.world) db table d.schemas;
    world = client.delete_counter db table d.world;
  }

module _ (rt : Runtime) where
  -- The text behind the words and whether they are there: they come first, up to white space.
  unfoldable pub skip_words : String → Bytes → Bytes → Result (Bytes × Bool)
  unfolding index slice str
  skip_words words rest upper = elim (index upper (str words)) [
    | none ↦ ok (rest, false)
    | some i ↦ (do
      before ← slice upper (pos 0) (pos i)
      (if no_text (rt.trim_space before)
          then (do
            after ← slice rest (pos (i + length (str words))) (pos (length rest))
            ok (after, true))
          else ok (rest, false)))
  ]

  -- The statement without its leading words, which `upper` starts with.
  unfoldable pub behind : String → Bytes → Result Bytes
  unfolding slice str
  behind words s = slice s (pos (length (str words))) (pos (length s))

  -- The database named, or the one of the session; and the table.
  abbrev table_in : Bytes → Bytes → Bytes × Bytes
  table_in db ident =
      let (named, table) = split_db_table (first_ident rt ident) in
      (if no_text named then db else named, table)

  module _ (client : Client) where
    unfoldable pub create_table_fallback :
        Bytes → Bytes → Bool → Driver client → Driver client × Result Reply
    unfolding behind skip_words make_collection first_ident split_db_table missing_name
    create_table_fallback q upper if_not_exists d =
        after d
          (do
            rest ← behind "CREATE TABLE" q
            rest_upper ← behind "CREATE TABLE" upper
            skip_words "IF NOT EXISTS" rest rest_upper)
          (λ parts.
            let (rest, found) = parts in
            let (named, table) = split_db_table (first_ident rt rest) in
            if no_text table
            then missing_name client "CREATE TABLE: missing table name" d
            else let (d', made) = make_collection client if_not_exists table d in
              (d', (do new ← made; ok empty_ok)))

    -- One name of the list.
    unfoldable pub drop_one : Bool → Bytes → Driver client → Driver client × Result (Unit {0})
    unfolding forget_table first_ident split_db_table
    drop_one if_exists n d =
        let (db, table) = table_in d.db n in
        let (dropped, world') = client.drop_collection db table d.world in
        let d' : Driver client = record d { world = world' } in
        if no_text table then (d, ok tt) else elim dropped [
          | ok u ↦ (forget_table client db table d', ok tt)
          | err e ↦ (
            d',
            if if_exists then ok tt else refused "ER_UNKNOWN_ERROR" (wrapped "DROP TABLE: %w" e),
          )
        ]

    unfoldable pub drop_tables : Bool → List Bytes → Driver client → Driver client × Result Reply
    unfolding drop_one
    drop_tables if_exists [] d = (d, ok empty_ok)
    drop_tables if_exists (n ∷ ns) d =
        let (d', dropped) = drop_one if_exists n d in
        elim dropped [ ok u ↦ drop_tables if_exists ns d' | err e ↦ (d', err e) ]

    unfoldable pub handle_drop_table : Bytes → Bytes → Driver client → Driver client × Result Reply
    unfolding behind skip_words drop_tables split_top_level
    handle_drop_table q upper d =
        after d
          (do
            rest ← behind "DROP TABLE" q
            rest_upper ← behind "DROP TABLE" upper
            skip_words "IF EXISTS" rest rest_upper)
          (λ parts.
            let (rest, if_exists) = parts in drop_tables if_exists (split_top_level rest b',') d)

    module _ (vt : Vitess) where
      unfoldable pub has_columns : TableSchema → Bool
      has_columns schema = not (is_empty_list schema.columns)

      -- The schema of a new table: it is saved where it has columns, and its indexes are created.
      unfoldable pub register_schema : Option TableSchema → Bytes → Driver client → Driver client
      unfolding save_schema create_indexes has_columns
      register_schema none table d = d
      register_schema (some schema) table d =
          let d' : Driver client =
            if has_columns schema then (save_schema client schema d).0 else d in
          record d' { world = create_indexes rt client d'.db table schema.indexes d'.world }

      unfoldable pub create_parsed :
          Bool → Bytes → Option TableSpec → Driver client → Driver client × Result Reply
      unfolding make_collection register_schema extract_schema missing_name
      create_parsed if_not_exists table spec d =
          if no_text table
          then missing_name client "CREATE TABLE: missing table name" d
          else let (d', made) = make_collection client if_not_exists table d in
            elim made [
              | err e ↦ (d', err e)
              | ok new ↦
                  if new
                  then (register_schema (extract_schema rt vt table spec) table d', ok empty_ok)
                  else (d', ok empty_ok)
            ]

      -- What the parser gives for the statement.
      unfoldable pub create_from :
          Bool → Bytes → Bytes → Ddl → Driver client → Driver client × Result Reply
      unfolding create_table_fallback create_parsed
      create_from if_not_exists q upper (create_table table spec) d =
          create_parsed if_not_exists table spec d
      create_from if_not_exists q upper tree d = create_table_fallback q upper if_not_exists d

      unfoldable pub handle_create_table :
          Parser → Bytes → Bytes → Driver client → Driver client × Result Reply
      unfolding contains create_table_fallback create_from str
      handle_create_table parser q upper d =
          let if_not_exists = contains upper (str "IF NOT EXISTS") in
          elim parser [
            | err e ↦ (d, refused "ER_PARSE_ERROR" (wrapped "CREATE TABLE: parser init: %w" e))
            | ok parse ↦ elim (parse q) [
              | err e ↦ create_table_fallback q upper if_not_exists d
              | ok tree ↦ create_from if_not_exists q upper tree d
            ]
          ]
