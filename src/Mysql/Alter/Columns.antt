-- ===== src/Mysql/Alter/Columns.antt =====
-- mysql/alter.go: removeColumn and replaceColumn.
use mongosql.Mysql.Alter.{remove_column, replace_column}
use mongosql.Driver.Schema.{ColumnDef}
use mongosql.Prelude.{true, ◌++◌, [], ◌∷◌, ◌≡◌, refl, List, arith, false, Bool, ◌||◌}
use mongosql.Bytes.{Bytes}

module _ (fold : Bytes → Bytes → Bool) where
  -- Is a column of that name in the list?
  abbrev pub names_column : Bytes → List ColumnDef → Bool
  names_column name [] = false
  names_column name (c ∷ cs) = fold c.name name || names_column name cs

remove_column-none :
    (fold : Bytes → Bytes → Bool) (cols : List ColumnDef) (name : Bytes)
    → names_column fold name (remove_column fold cols name) ≡ false
unfolding remove_column
remove_column-none fold [] name = refl
remove_column-none fold (c ∷ cols) name = ground (arith, remove_column-none fold cols name)

-- The columns before the first one of a name stay as they are. DROP COLUMN takes that one out and
-- goes on behind it, until no column of the name is left. MODIFY and CHANGE put the new column in
-- its place, and behind all columns where there is none of the name.
pub replace_column-remove_column :
    (fold : Bytes → Bytes → Bool) (before after : List ColumnDef) (c new : ColumnDef) (name : Bytes)
    → names_column fold name before ≡ false
    → fold c.name name ≡ true
    → (remove_column fold (before ++ c ∷ after) name ≡ before ++ remove_column fold after name)
      × (names_column fold name (remove_column fold after name) ≡ false)
      × (replace_column fold (before ++ c ∷ after) name new ≡ before ++ new ∷ after)
      × (replace_column fold before name new ≡ before ++ new ∷ [])
unfolding remove_column replace_column
replace_column-remove_column fold [] after c new name h k =
    ground (arith, remove_column-none fold after name)
replace_column-remove_column fold (b ∷ before) after c new name h k =
    ground (arith, replace_column-remove_column fold before after c new name)
