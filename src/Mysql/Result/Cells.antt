-- ===== src/Mysql/Result/Cells.antt =====
-- mysql/result.go: the records that resultToMySQL builds, and the values in them.
use mongosql.Bytes.{Bytes}
use mongosql.Prelude.{
  inr, inl, Option-cases, ◌≡◌, ◌∷◌, [], if◌then◌else◌, ◌&&◌, Bool, true, refl, false, length, arith,
  ℕ, List,
}
use mongosql.Bson.{
  text, obj, arr, float64, object_id, null, int64, regex, int, get, bool, time, Fields, Value,
}
use mongosql.Runtime.{Runtime}
use mongosql.Mysql.Result.{
  rows_result, Wire, mysql_value, cells, records, json_text, collect_columns, rows_to_result, Reply,
  ok_packet, result_set,
}

-- A value that BuildSimpleTextResultset formats: neither a document nor an array, and no type of
-- the MongoDB driver.
unfoldable pub is_scalar : Value → Bool
is_scalar (time t) = false
is_scalar (regex p options) = false
is_scalar (object_id hex) = false
is_scalar (arr vs) = false
is_scalar (obj fs) = false
is_scalar v = true

all_scalar : List Value → Bool
unfolding is_scalar
all_scalar [] = true
all_scalar (v ∷ vs) = is_scalar v && all_scalar vs

-- The records of a table: each as wide as the header, with scalars only.
unfoldable pub IsTable : ℕ → List (List Value) → Type 0
unfolding all_scalar
IsTable width [] = Unit
IsTable width (r ∷ rs) = (length r ≡ width) × (all_scalar r ≡ true) × IsTable width rs

-- What a client can read: an OK packet, or a table with as many records as there are rows.
unfoldable pub IsReadable : ℕ → Reply → Type 0
unfolding IsTable
IsReadable rows (ok_packet n) = Unit
IsReadable rows (result_set cols rs) = IsTable (length cols) rs × (length rs ≡ rows)

module _ (wire : Wire) (rt : Runtime) where
  is_scalar-json_text : (v : Value) → is_scalar (json_text wire rt v) ≡ true
  unfolding json_text is_scalar
  is_scalar-json_text v = elim (Option-cases (wire.marshal_ext_json v)) [
    | inl e ↦ ground (arith, e)
    | inr (s, e) ↦ ground (arith, e)
  ]

  is_scalar-mysql_value : (v : Value) → is_scalar (mysql_value wire rt v) ≡ true
  unfolding mysql_value is_scalar
  is_scalar-mysql_value null = refl
  is_scalar-mysql_value (bool b) = refl
  is_scalar-mysql_value (int n) = refl
  is_scalar-mysql_value (int64 n) = refl
  is_scalar-mysql_value (float64 n) = refl
  is_scalar-mysql_value (text s) = refl
  is_scalar-mysql_value (time t) = refl
  is_scalar-mysql_value (regex p o) = refl
  is_scalar-mysql_value (object_id h) = refl
  is_scalar-mysql_value (arr vs) = is_scalar-json_text (arr vs)
  is_scalar-mysql_value (obj fs) = is_scalar-json_text (obj fs)

  all_scalar-cells : (cols : List Bytes) (row : Fields) → all_scalar (cells wire rt cols row) ≡ true
  unfolding cells all_scalar
  all_scalar-cells [] row = refl
  all_scalar-cells (c ∷ cs) row = elim (Option-cases (get c row)) [
    | inl e ↦ ground (arith, e, is_scalar-mysql_value null, all_scalar-cells cs row)
    | inr (v, e) ↦ ground (arith, e, is_scalar-mysql_value v, all_scalar-cells cs row)
  ]

  length-cells : (cols : List Bytes) (row : Fields) → length (cells wire rt cols row) ≡ length cols
  unfolding cells
  length-cells [] row = refl
  length-cells (c ∷ cs) row = omega (arith, length-cells cs row)

  records-IsTable :
      (cols : List Bytes) (rows : List Fields) → IsTable (length cols) (records wire rt cols rows)
  unfolding records IsTable
  records-IsTable cols [] = tt
  records-IsTable cols (r ∷ rows) =
      (length-cells cols r, all_scalar-cells cols r, records-IsTable cols rows)

  length-records :
      (cols : List Bytes) (rows : List Fields) → length (records wire rt cols rows) ≡ length rows
  unfolding records
  length-records cols [] = refl
  length-records cols (r ∷ rows) = omega (arith, length-records cols rows)

  rows_result-IsReadable :
      (cols : List Bytes) (rows : List Fields)
      → IsReadable (length rows) (rows_result wire cols (records wire rt cols rows))
  unfolding IsReadable rows_result
  rows_result-IsReadable cols rows =
      elim (wire.encodes cols (records wire rt cols rows))
        as (λ b.
          IsReadable (length rows)
            (if b then result_set cols (records wire rt cols rows) else ok_packet 0)) [
              | true ↦ (records-IsTable cols rows, length-records cols rows)
              | false ↦ tt
            ]

  -- The reply to a SELECT is an OK packet, or one record for each row, as wide as the columns; no
  -- cell holds a document, an array or a type of the MongoDB driver.
  pub rows_to_result-IsReadable :
      (rows : List Fields) → IsReadable (length rows) (rows_to_result wire rt rows)
  unfolding rows_to_result
  rows_to_result-IsReadable rows = rows_result-IsReadable (collect_columns rows) rows
