-- ===== src/Mysql/Define.antt =====
-- mysql/ddl.go: extractSchema, columnDefFromVitess, indexDefFromVitess, createIndexes and
-- isNamespaceExists; mysql/alter.go: evalDefaultLiteral.
use mongosql.Prelude.{
  String, Bool, true, false, not, ◌&&◌, ◌||◌, Option, none, some, List, [], ◌∷◌, ◌++◌,
  if◌then◌else◌,
}
use mongosql.Bytes.{Bytes, str, bytes_eq, one_of, contains, trim, join}
use mongosql.Bson.{Value, text, time}
use mongosql.Client.{Client, IndexModel}
use mongosql.Driver.Schema.{ColumnDef, IndexDef, TableSchema}
use mongosql.Expr.Columns.{no_text}
use mongosql.Mysql.Syntax.{
  ColumnSpec, IndexType, index_type_primary, index_type_unique, IndexSpec, TableSpec,
}
use mongosql.Result.{Error, reported}
use mongosql.Runtime.{Runtime}
use mongosql.Sel.Find.{id_key}
use mongosql.Vitess.{Vitess}
use mongosql.Ast.{Expr}

abbrev is_primary : IndexType → Bool
is_primary index_type_primary = true
is_primary _ = false

abbrev is_unique : IndexType → Bool
is_unique index_type_unique = true
is_unique _ = false

unfoldable pub index_def_from_vitess : IndexSpec → IndexDef
index_def_from_vitess idx = record {
  name = idx.name;
  columns = idx.columns;
  primary = is_primary idx.type;
  unique = is_unique idx.type;
}

abbrev pub index_defs : List IndexSpec → List IndexDef
index_defs [] = []
index_defs (idx ∷ idxs) = index_def_from_vitess idx ∷ index_defs idxs

unfoldable pub mentions : Bytes → List String → Bool
unfolding contains str
mentions s [] = false
mentions s (w ∷ ws) = contains s (str w) || mentions s ws

unfoldable pub is_namespace_exists : Error → Bool
unfolding mentions
is_namespace_exists (reported msg) =
    mentions msg ("NamespaceExists" ∷ "(NamespaceExists)" ∷ "code: 48" ∷ [])
is_namespace_exists e = false

module _ (rt : Runtime) where
  -- The default of a column, and whether it is a function.
  unfoldable pub default_of : Bytes → Bytes × Bool
  unfolding mentions trim str
  default_of printed =
      let def = rt.trim_space printed in
      let upper = rt.to_upper def in
      if mentions upper ("CURRENT_TIMESTAMP" ∷ "NOW()" ∷ "CURDATE()" ∷ "CURTIME()" ∷ "UUID()" ∷ [])
      then (
        if mentions upper ("CURRENT_TIMESTAMP" ∷ "NOW" ∷ [])
            then str "CURRENT_TIMESTAMP"
            else if mentions upper ("CURDATE" ∷ [])
            then str "CURDATE"
            else if mentions upper ("CURTIME" ∷ [])
            then str "CURTIME"
            else if mentions upper ("UUID" ∷ [])
            then str "UUID"
            else [],
        true,
      )
      else (trim (39 ∷ 34 ∷ []) def, false)

  unfoldable pub on_update_of : Bytes → Bytes
  unfolding mentions str
  on_update_of printed =
      if mentions (rt.to_upper printed) ("CURRENT_TIMESTAMP" ∷ "NOW" ∷ [])
      then str "CURRENT_TIMESTAMP"
      else []

  abbrev bare_column : ColumnSpec → ColumnDef
  bare_column col = record {
    name = col.name;
    type = rt.to_upper col.type;
    not_null = false;
    auto_increment = false;
    has_default = false;
    default_value = [];
    default_is_func = false;
    on_update = [];
  }

  abbrev is_not_null : Option Bool → Bool
  is_not_null none = false
  is_not_null (some b) = not b

  module _ (vt : Vitess) where
    abbrev with_default : Option Expr → ColumnDef → ColumnDef
    with_default none cd = cd
    with_default (some e) cd = record cd {
      has_default = true;
      default_value = (default_of (vt.print e)).0;
      default_is_func = (default_of (vt.print e)).1;
    }

    abbrev with_on_update : Option Expr → ColumnDef → ColumnDef
    with_on_update none cd = cd
    with_on_update (some e) cd = record cd { on_update = on_update_of (vt.print e) }

    unfoldable pub column_def_from_vitess : ColumnSpec → ColumnDef
    unfolding default_of on_update_of
    column_def_from_vitess col = elim col.options [
      | none ↦ bare_column col
      | some o ↦ with_on_update o.on_update (
          with_default o.default (record (bare_column col) {
            not_null = is_not_null o.null;
            auto_increment = o.autoincrement;
          }))
    ]

    abbrev pub column_defs : List ColumnSpec → List ColumnDef
    column_defs [] = []
    column_defs (c ∷ cs) = column_def_from_vitess c ∷ column_defs cs

    unfoldable pub extract_schema : Bytes → Option TableSpec → Option TableSchema
    unfolding column_def_from_vitess index_def_from_vitess
    extract_schema table none = none
    extract_schema table (some spec) = some (record {
      table_name = table;
      columns = column_defs spec.columns;
      indexes = index_defs spec.indexes;
    })

  abbrev only_id : List Bytes → Bool
  only_id [] = false
  only_id (c ∷ []) = bytes_eq (rt.to_lower c) id_key
  only_id (c ∷ d ∷ cs) = false

  -- The index that the server is asked for, if any.
  unfoldable pub index_model : IndexDef → Option IndexModel
  unfolding join str one_of
  index_model idx =
      let unnamed = no_text idx.name || one_of (rt.to_upper idx.name) ("PRIMARY" ∷ []) in
      let name = if unnamed then str "idx_" ++ join (b'_' ∷ []) idx.columns else idx.name in
      if idx.primary && only_id idx.columns then none else elim idx.columns [
        | [] ↦ none
        | c ∷ cs ↦ some (record { keys = c ∷ cs; name = name; unique = idx.unique || idx.primary })
      ]

  -- evalDefaultLiteral, where `none` is nil.
  unfoldable pub eval_default_literal : ColumnDef → Option Value
  unfolding one_of
  eval_default_literal cd =
      if not cd.has_default
      then none
      else if cd.default_is_func
      then (if one_of cd.default_value ("CURRENT_TIMESTAMP" ∷ []) then some (time rt.now) else none)
      else some (text cd.default_value)

  module _ (client : Client) where
    -- The indexes of a table; an index that is refused is left out.
    unfoldable pub create_indexes : Bytes → Bytes → List IndexDef → client.World → client.World
    unfolding index_model
    create_indexes db table [] w = w
    create_indexes db table (idx ∷ idxs) w = elim (index_model idx) [
      | none ↦ create_indexes db table idxs w
      | some model ↦
          let (name, w') = client.create_index db table model w in create_indexes db table idxs w'
    ]
