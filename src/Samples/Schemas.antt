-- ===== src/Samples/Schemas.antt =====
-- A table schema for driver/schema.go and mysql/alter.go, and the theorems at it.
use mongosql.Samples.Go.{go}
use mongosql.Driver.Schema.{
  ColumnDef, TableSchema, find_stored, get_schema, apply_defaults, default_columns, eval_default,
  apply_on_update,
}
use mongosql.Driver.Schema.Cache.{
  Operation, perform_all, opened, saves, reads, deletes, get_schema-perform_all,
}
use mongosql.Driver.Schema.Defaults.{AreFilled, apply_defaults-AreFilled, apply_on_update-keeps}
use mongosql.Mysql.Alter.{remove_column, replace_column}
use mongosql.Mysql.Alter.Columns.{names_column, replace_column-remove_column}
use mongosql.Prelude.{List, ℕ, [], ◌∷◌, ◌≡◌, ◌+◌, refl, true, false, some}
use mongosql.Prelude.Int.{pos}
use mongosql.Result.{Result, ok}
use mongosql.Bytes.{Bytes, str, bytes_eq}
use mongosql.Bson.{obj, Value, Fields, field, end, int64, text, get}

abbrev id_column : ColumnDef
id_column = record {
  name = b'i' ∷ [];
  type = [];
  not_null = true;
  auto_increment = true;
  has_default = false;
  default_value = [];
  default_is_func = false;
  on_update = [];
}

abbrev note_column : ColumnDef
note_column = record {
  name = b'n' ∷ [];
  type = [];
  not_null = true;
  auto_increment = false;
  has_default = true;
  default_value = b'x' ∷ [];
  default_is_func = false;
  on_update = b'N' ∷ [];
}

abbrev users : TableSchema
users = record { table_name = b'u' ∷ []; columns = id_column ∷ note_column ∷ []; indexes = [] }

abbrev counter : ℕ → Result (Value × ℕ)
counter n = ok (int64 (pos n), n + 1)

abbrev given_row : Fields
given_row = field (b'a' ∷ []) (text []) end

abbrev full_row : Fields
full_row =
    field (b'a' ∷ []) (text [])
      (field (b'i' ∷ []) (int64 (pos 4)) (field (b'n' ∷ []) (text (b'x' ∷ [])) end))

abbrev history : List Operation
history =
    saves true (b'd' ∷ []) users
    ∷ reads true (b'e' ∷ []) (b'u' ∷ [])
    ∷ deletes false (b'd' ∷ []) (b'u' ∷ [])
    ∷ []

get_schema-perform_all_example :
    (get_schema true (b'd' ∷ []) (b'u' ∷ []) (perform_all history (opened []))).1
    ≡ find_stored (b'd' ∷ []) (b'u' ∷ []) (perform_all history (opened [])).stored
get_schema-perform_all_example = get_schema-perform_all history [] (b'd' ∷ []) (b'u' ∷ []) refl refl

apply_defaults-AreFilled_example : AreFilled users.columns (given_row ∷ []) (full_row ∷ [])
unfolding apply_defaults default_columns eval_default
apply_defaults-AreFilled_example =
    apply_defaults-AreFilled go ℕ counter users (given_row ∷ []) 4 (full_row ∷ [], 5) refl

-- {$set: {a: ""}}
abbrev set_update : Fields
set_update = field (str "$set") (obj given_row) end

apply_on_update-keeps_example :
    (d' : Fields) × (get (str "$set") (apply_on_update go users set_update) ≡ some (obj d'))
    × (get (b'a' ∷ []) d' ≡ some (text []))
    × ((j : Bytes)
        → bytes_eq (str "$set") j ≡ false
        → get j (apply_on_update go users set_update) ≡ get j set_update)
unfolding get bytes_eq str
apply_on_update-keeps_example =
    apply_on_update-keeps go users set_update given_row (b'a' ∷ []) (text []) refl refl

-- id stands behind note, and is replaced by a copy of note.
replace_column-remove_column_example :
    (remove_column bytes_eq (note_column ∷ id_column ∷ []) id_column.name ≡ note_column ∷ [])
    × (names_column bytes_eq id_column.name (remove_column bytes_eq [] id_column.name) ≡ false)
    × (replace_column bytes_eq (note_column ∷ id_column ∷ []) id_column.name note_column
        ≡ note_column ∷ note_column ∷ [])
    × (replace_column bytes_eq (note_column ∷ []) id_column.name note_column
        ≡ note_column ∷ note_column ∷ [])
unfolding remove_column replace_column bytes_eq
replace_column-remove_column_example =
    replace_column-remove_column bytes_eq (note_column ∷ []) [] id_column note_column id_column.name
      refl refl
