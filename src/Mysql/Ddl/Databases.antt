-- ===== src/Mysql/Ddl/Databases.antt =====
-- mysql/ddl.go: TRUNCATE and DROP DATABASE.
use mongosql.Expr.Columns.{no_text}
use mongosql.Prelude.Int.{pos}
use mongosql.Mysql.Result.{Reply}
use mongosql.Result.{wrapped, ◌>>=◌, ok, err, Result}
use mongosql.Mysql.Scan.{quotes_and_space, split_db_table, first_ident}
use mongosql.Prelude.{length, some, none, [], ◌∷◌, ◌++◌, ◌+◌, if◌then◌else◌, String, Bool}
use mongosql.Mysql.Define.{is_namespace_exists}
use mongosql.Expr.Slice.{slice}
use mongosql.Client.{Client}
use mongosql.Bytes.{str, has_prefix, trim, index, Bytes}
use mongosql.Runtime.{Runtime}
use mongosql.Mysql.Ddl.{
  after, message, behind, empty_ok, refused, skip_words, stored_outside, Driver, table_in,
}

module _ (rt : Runtime) where
  -- The text behind the word TABLE, where the statement goes on with these letters.
  unfoldable pub behind_table : Bytes → Bytes → Result Bytes
  unfolding index slice has_prefix str
  behind_table rest upper =
      if has_prefix (rt.trim_space upper) (str "TABLE")
      then elim (index upper (str "TABLE")) [
        | none ↦ slice rest (pos 4) (pos (length rest))
        | some i ↦ slice rest (pos (i + 5)) (pos (length rest))
      ]
      else ok rest

  -- The first word of the prefix that the statement starts with.
  abbrev drop_words : Bytes → String
  drop_words upper = if has_prefix upper (str "DROP SCHEMA") then "DROP SCHEMA" else "DROP DATABASE"

  module _ (client : Client) where
    -- Drop and CreateCollection.
    unfoldable pub recreate : Bytes → Bytes → Driver client → Driver client × Result Reply
    unfolding is_namespace_exists
    recreate db table d =
        let (dropped, world') = client.drop_collection db table d.world in
        let (made, world'') = client.create_collection db table world' in
        elim dropped [
          | err e ↦
              (record d { world = world' }, refused "ER_UNKNOWN_ERROR" (wrapped "TRUNCATE: %w" e))
          | ok u ↦ elim made [
            | ok v ↦ (record d { world = world'' }, ok empty_ok)
            | err e ↦ (
              record d { world = world'' },
              if is_namespace_exists e
                  then ok empty_ok
                  else refused "ER_UNKNOWN_ERROR" (wrapped "TRUNCATE: %w" e),
            )
          ]
        ]

    unfoldable pub handle_truncate : Bytes → Bytes → Driver client → Driver client × Result Reply
    unfolding behind behind_table recreate first_ident split_db_table
    handle_truncate q upper d =
        after d
          (do
            rest ← behind rt "TRUNCATE" q
            rest_upper ← behind rt "TRUNCATE" upper
            behind_table rest rest_upper)
          (λ rest.
            let (db, table) = table_in rt d.db rest in
            if no_text table
            then (d, refused "ER_PARSE_ERROR" (message "TRUNCATE: missing table name"))
            else recreate db table d)

    -- Database.Drop: the schemas that are stored in the database go with it.
    unfoldable pub drop_database : Bool → Bytes → Driver client → Driver client × Result Reply
    unfolding stored_outside
    drop_database if_exists db d =
        let (dropped, world') = client.drop_database db d.world in
        elim dropped [
          | ok u ↦ (
            record d {
              schemas = record (d.schemas) { stored = stored_outside db d.schemas.stored };
              world = world';
            },
            ok empty_ok,
          )
          | err e ↦ (
            record d { world = world' },
            if if_exists
                then ok empty_ok
                else refused "ER_UNKNOWN_ERROR" (wrapped "DROP DATABASE: %w" e),
          )
        ]

    unfoldable pub handle_drop_database :
        Bytes → Bytes → Driver client → Driver client × Result Reply
    unfolding behind skip_words drop_database first_ident trim has_prefix str
    handle_drop_database q upper d =
        after d
          (do
            rest ← behind rt (drop_words upper) q
            rest_upper ← behind rt (drop_words upper) upper
            skip_words rt "IF EXISTS" rest rest_upper)
          (λ parts.
            let (rest, if_exists) = parts in
            let db = trim (quotes_and_space ++ b';' ∷ []) (rt.trim_space (first_ident rt rest)) in
            if no_text db
            then (d, refused "ER_PARSE_ERROR" (message "DROP DATABASE: missing name"))
            else drop_database if_exists db d)
