-- ===== src/Mysql/Alter.antt =====
-- mysql/alter.go: the changes of a schema's columns and indexes by ALTER TABLE.
pub mod Columns
pub mod Frame
pub mod Options
pub mod Rename
pub mod Renamed
pub mod Sound
use mongosql.Prelude.{if◌then◌else◌, not, false, ◌||◌, [], ◌∷◌, List, Bool}
use mongosql.Bytes.{Bytes}
use mongosql.Driver.Schema.{ColumnDef, IndexDef}

-- `fold` is strings.EqualFold.
module _ (fold : Bytes → Bytes → Bool) where
  unfoldable pub remove_column : List ColumnDef → Bytes → List ColumnDef
  remove_column [] name = []
  remove_column (c ∷ cols) name =
      let rest = remove_column cols name in if not (fold c.name name) then c ∷ rest else rest

  unfoldable pub replace_column : List ColumnDef → Bytes → ColumnDef → List ColumnDef
  replace_column [] old new = new ∷ []
  replace_column (c ∷ cols) old new =
      if fold c.name old then new ∷ cols else c ∷ replace_column cols old new

  unfoldable pub remove_index : List IndexDef → Bytes → List IndexDef
  remove_index [] name = []
  remove_index (i ∷ idxs) name =
      let rest = remove_index idxs name in if not (fold i.name name) then i ∷ rest else rest

  unfoldable pub replace_index : List IndexDef → IndexDef → List IndexDef
  replace_index [] idx = idx ∷ []
  replace_index (i ∷ idxs) idx =
      if fold i.name idx.name then idx ∷ idxs else i ∷ replace_index idxs idx

  abbrev covers : Bytes → List Bytes → Bool
  covers name [] = false
  covers name (c ∷ cs) = fold c name || covers name cs

  -- The indexes that cover a column.
  unfoldable pub covering : Bytes → List IndexDef → List IndexDef
  covering name [] = []
  covering name (i ∷ idxs) =
      let rest = covering name idxs in if covers name i.columns then i ∷ rest else rest

  abbrev rename_in : Bytes → Bytes → List Bytes → List Bytes
  rename_in old new [] = []
  rename_in old new (c ∷ cs) = (if fold c old then new else c) ∷ rename_in old new cs

  unfoldable pub rename_columns : Bytes → Bytes → List IndexDef → List IndexDef
  rename_columns old new [] = []
  rename_columns old new (i ∷ idxs) =
      record i { columns = rename_in old new i.columns } ∷ rename_columns old new idxs

  unfoldable pub replace_indexes : List IndexDef → List IndexDef → List IndexDef
  unfolding replace_index
  replace_indexes idxs [] = idxs
  replace_indexes idxs (i ∷ is) = replace_indexes (replace_index idxs i) is

  -- The indexes after CHANGE COLUMN. A dropped index shares its columns with the schema, where
  -- they are renamed in place as well.
  unfoldable pub changed_indexes : Bytes → Bytes → List IndexDef → List IndexDef
  unfolding covering rename_columns replace_indexes
  changed_indexes old new idxs =
      replace_indexes (rename_columns old new idxs) (rename_columns old new (covering old idxs))
