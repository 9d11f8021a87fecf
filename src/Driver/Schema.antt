-- ===== src/Driver/Schema.antt =====
-- driver/schema.go: the schema types, the schema store, ApplyDefaults, ApplyOnUpdate, evalDefault.
pub mod Cache
pub mod Defaults
pub mod Except
pub mod Named
use mongosql.Expr.Columns.{no_text, dotted}
use mongosql.Result.{◌>>=◌, ok, Result}
use mongosql.Prelude.{
  ◌&&◌, ◌||◌, if◌then◌else◌, false, Option, [], some, none, ◌∷◌, true, List, Bool,
}
use mongosql.Bytes.{Bytes, bytes_eq, str, one_of}
use mongosql.Runtime.{Runtime}
use mongosql.Bson.{Value, Fields, null, bool, text, time, obj, has, get, put}

pub record ColumnDef : Type 0 where
  pub name : Bytes
  pub type : Bytes
  pub not_null : Bool
  pub auto_increment : Bool
  pub has_default : Bool
  pub default_value : Bytes
  pub default_is_func : Bool
  pub on_update : Bytes

pub record IndexDef : Type 0 where
  pub name : Bytes
  pub columns : List Bytes
  pub primary : Bool
  pub unique : Bool

pub record TableSchema : Type 0 where
  pub table_name : Bytes
  pub columns : List ColumnDef
  pub indexes : List IndexDef

-- A map from keys to schemas: the last write comes first.
abbrev pub Table : Type 0
Table = List (Bytes × TableSchema)

unfoldable pub find_schema : Bytes → Table → Option TableSchema
unfolding bytes_eq
find_schema key [] = none
find_schema key ((k, s) ∷ t) = if bytes_eq k key then some s else find_schema key t

unfoldable pub without : Bytes → Table → Table
unfolding bytes_eq
without key [] = []
without key ((k, s) ∷ t) =
    let rest = without key t in if bytes_eq k key then rest else (k, s) ∷ rest

-- The collections _table_schemas of all the databases: the database, the table and its schema.
abbrev pub Stored : Type 0
Stored = List ((Bytes × Bytes) × TableSchema)

unfoldable pub find_stored : Bytes → Bytes → Stored → Option TableSchema
unfolding bytes_eq
find_stored db table [] = none
find_stored db table (((d, t), s) ∷ r) =
    if bytes_eq d db && bytes_eq t table then some s else find_stored db table r

unfoldable pub stored_without : Bytes → Bytes → Stored → Stored
unfolding bytes_eq
stored_without db table [] = []
stored_without db table (((d, t), s) ∷ r) =
    let rest = stored_without db table r in
    if bytes_eq d db && bytes_eq t table then rest else ((d, t), s) ∷ rest

-- The cache of a SchemaStore, and the collections behind it.
pub record SchemaStore : Type 0 where
  pub cache : Table
  pub stored : Stored

unfoldable pub cache_key : Bytes → Bytes → Bytes
cache_key db table = dotted db table

-- `written` is false where UpdateOne returns an error.
unfoldable pub save : Bool → Bytes → TableSchema → SchemaStore → SchemaStore × Bool
unfolding cache_key
save written db schema ss =
    if written
    then (
      record ss {
        cache = (cache_key db schema.table_name, schema) ∷ ss.cache;
        stored = ((db, schema.table_name), schema) ∷ ss.stored;
      },
      true,
    )
    else (ss, false)

-- `reachable` is false where FindOne fails for another reason than a missing document.
unfoldable pub get_schema : Bool → Bytes → Bytes → SchemaStore → SchemaStore × Option TableSchema
unfolding cache_key find_schema find_stored
get_schema reachable db table ss = elim (find_schema (cache_key db table) ss.cache) [
  | some s ↦ (ss, some s)
  | none ↦
      if reachable
      then elim (find_stored db table ss.stored) [
        | none ↦ (ss, none)
        | some s ↦ (record ss { cache = (cache_key db table, s) ∷ ss.cache }, some s)
      ]
      else (ss, none)
]

-- `deleted` is false where DeleteOne fails, which is not reported.
unfoldable pub delete_schema : Bool → Bytes → Bytes → SchemaStore → SchemaStore
unfolding cache_key without stored_without
delete_schema deleted db table ss = record ss {
  cache = without (cache_key db table) ss.cache;
  stored = if deleted then stored_without db table ss.stored else ss.stored;
}

module _ (rt : Runtime) where
  unfoldable pub eval_default : ColumnDef → Value
  unfolding one_of
  eval_default col =
      if col.default_is_func
      then (if one_of col.default_value ("CURRENT_TIMESTAMP" ∷ "NOW" ∷ [])
          then time rt.now
          else if one_of col.default_value ("CURDATE" ∷ [])
          then text (rt.format_date rt.now)
          else if one_of col.default_value ("CURTIME" ∷ [])
          then text (rt.format_clock rt.now)
          else if one_of col.default_value ("UUID" ∷ [])
          then text []
          else null)
      else if one_of col.default_value ("NULL" ∷ []) || no_text col.default_value
      then null
      else if one_of col.default_value ("TRUE" ∷ [])
      then bool true
      else if one_of col.default_value ("FALSE" ∷ [])
      then bool false
      else text col.default_value

  -- `next` is NextAutoIncrement of the table: a counter in the database, of which the code knows
  -- the values that it gives.
  module _ (Db : Type 0) (next : Db → Result (Value × Db)) where
    unfoldable pub default_columns : List ColumnDef → Fields → Db → Result (Fields × Db)
    unfolding eval_default put get
    default_columns [] d db = ok (d, db)
    default_columns (c ∷ cs) d db =
        if has c.name d
        then default_columns cs d db
        else if c.auto_increment
        then (do (v, db') ← next db; default_columns cs (put c.name v d) db')
        else default_columns cs (if c.has_default then put c.name (eval_default c) d else d) db

    unfoldable pub apply_defaults : TableSchema → List Fields → Db → Result (List Fields × Db)
    unfolding default_columns
    apply_defaults schema [] db = ok ([], db)
    apply_defaults schema (d ∷ ds) db = do
      (d', db') ← default_columns schema.columns d db
      (ds', db'') ← apply_defaults schema ds db'
      ok (d' ∷ ds', db'')

  unfoldable pub on_update_columns : List ColumnDef → Fields → Fields
  unfolding put get
  on_update_columns [] d = d
  on_update_columns (c ∷ cs) d =
      on_update_columns cs
        (if no_text c.on_update || has c.name d then d else put c.name (time rt.now) d)

  -- The map under `$set` is changed in place.
  unfoldable pub apply_on_update : TableSchema → Fields → Fields
  unfolding on_update_columns get put str
  apply_on_update schema update = elim (get (str "$set") update) [
    | none ↦ update
    | some v ↦ elim v [
      | obj d ↦ put (str "$set") (obj (on_update_columns schema.columns d)) update
      | _ ↦ update
    ]
  ]
