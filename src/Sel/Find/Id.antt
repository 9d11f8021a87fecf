-- ===== src/Sel/Find/Id.antt =====
-- translator/internal/sel/render_find.go: _id in the projection of a find statement.
use mongosql.Sel.Find.{id_key}
use mongosql.Sel.Plan.{SelectItem, FieldRef, field_path}
use mongosql.Prelude.{Bool, false, ◌||◌, Option, none, some, List, [], ◌∷◌}
use mongosql.Bytes.{bytes_eq}

abbrev names_id : Option FieldRef → Bool
names_id none = false
names_id (some f) = bytes_eq (field_path f) id_key

-- Is _id one of the items?
abbrev pub asks_id : List SelectItem → Bool
asks_id [] = false
asks_id (item ∷ items) = names_id item.field || asks_id items
