-- ===== src/Mysql/Result.antt =====
-- mysql/result.go: the outcome of a statement as a result of the MySQL protocol.
pub mod Cells
pub mod Columns
use mongosql.Driver.Exec.{Outcome, selected, inserted, updated, deleted}
use mongosql.Prelude.{
  Bool, true, false, ◌&&◌, ◌||◌, Option, none, some, List, [], ◌∷◌, ℕ, ◌-◌, ◌==◌, ltb, length, take,
  drop, if◌then◌else◌,
}
use mongosql.Bytes.{Bytes, bytes_eq}
use mongosql.Runtime.{Runtime}
use mongosql.Bson.{Value, Fields, null, text, time, regex, object_id, arr, obj, field, end, get}
use mongosql.Sel.Find.{id_key}

-- A result of github.com/go-mysql-org/go-mysql: an OK packet with its affected rows, or a result
-- set. The status is always SERVER_STATUS_AUTOCOMMIT.
pub data Reply : Type 0 where
  ok_packet : ℕ → Reply
  result_set : List Bytes → List (List Value) → Reply

-- `a < b` on strings.
unfoldable pub text_lt : Bytes → Bytes → Bool
text_lt s [] = false
text_lt [] (d ∷ t) = true
text_lt (c ∷ s) (d ∷ t) = ltb c d || ((c == d) && text_lt s t)

unfoldable pub among : Bytes → List Bytes → Bool
unfolding bytes_eq
among k [] = false
among k (c ∷ cs) = bytes_eq c k || among k cs

-- `seen[k] = struct{}{}` for the keys of a row.
unfoldable pub add_keys : Fields → List Bytes → List Bytes
unfolding among
add_keys end seen = seen
add_keys (field k v fs) seen = add_keys fs (if among k seen then seen else k ∷ seen)

unfoldable pub all_keys : List Fields → List Bytes → List Bytes
unfolding add_keys
all_keys [] seen = seen
all_keys (r ∷ rows) seen = all_keys rows (add_keys r seen)

unfoldable pub insert_sorted : Bytes → List Bytes → List Bytes
unfolding text_lt
insert_sorted k [] = k ∷ []
insert_sorted k (c ∷ cs) = if text_lt c k then c ∷ insert_sorted k cs else k ∷ c ∷ cs

-- sort.Strings: the keys are distinct, so the order of the result is determined.
unfoldable pub sort_strings : List Bytes → List Bytes
unfolding insert_sorted
sort_strings [] = []
sort_strings (k ∷ ks) = insert_sorted k (sort_strings ks)

unfoldable pub without_id : List Bytes → List Bytes
unfolding bytes_eq
without_id [] = []
without_id (k ∷ ks) = let rest = without_id ks in if bytes_eq k id_key then rest else k ∷ rest

abbrev pub or_placeholder : List Bytes → List Bytes
or_placeholder [] = (b'(' ∷ b'e' ∷ b'm' ∷ b'p' ∷ b't' ∷ b'y' ∷ b')' ∷ []) ∷ []
or_placeholder (c ∷ cs) = c ∷ cs

unfoldable pub collect_columns : List Fields → List Bytes
unfolding all_keys sort_strings without_id among
collect_columns rows =
    let seen = all_keys rows [] in
    let cols = sort_strings (without_id seen) in
    or_placeholder (if among id_key seen then id_key ∷ cols else cols)

-- What the result sets take from other packages: whether BuildSimpleResultset encodes the rows, and
-- bson.MarshalExtJSON of {"v": value}, where it succeeds.
pub record Wire : Type 0 where
  pub encodes : List Bytes → List (List Value) → Bool
  pub marshal_ext_json : Value → Option Bytes

module _ (wire : Wire) where
  unfoldable pub rows_result : List Bytes → List (List Value) → Reply
  rows_result cols rows = if wire.encodes cols rows then result_set cols rows else ok_packet 0

  unfoldable pub empty_result : List Bytes → Reply
  unfolding rows_result
  empty_result cols = rows_result cols []

  module _ (rt : Runtime) where
    -- The wrapper {"v": ...} is cut off the JSON text.
    unfoldable pub json_text : Value → Value
    json_text v = elim (wire.marshal_ext_json v) [
      | none ↦ text (rt.sprint v)
      | some s ↦ text (if ltb 7 (length s) then take (length s - 1 - 6) (drop 6 s) else s)
    ]

    unfoldable pub mysql_value : Value → Value
    unfolding json_text
    mysql_value (time t) = text (rt.format_datetime t)
    mysql_value (object_id hex) = text hex
    mysql_value (arr vs) = json_text (arr vs)
    mysql_value (obj fs) = json_text (obj fs)
    mysql_value (regex p options) = text (rt.sprint (regex p options))
    mysql_value v = v

    unfoldable pub cells : List Bytes → Fields → List Value
    unfolding mysql_value get
    cells [] row = []
    cells (c ∷ cs) row = mysql_value (elim (get c row) [ none ↦ null | some v ↦ v ]) ∷ cells cs row

    unfoldable pub records : List Bytes → List Fields → List (List Value)
    unfolding cells
    records cols [] = []
    records cols (r ∷ rows) = cells cols r ∷ records cols rows

    unfoldable pub rows_to_result : List Fields → Reply
    unfolding collect_columns records rows_result
    rows_to_result rows = rows_result (collect_columns rows) (records (collect_columns rows) rows)

    unfoldable pub result_to_mysql : Outcome → Reply
    unfolding rows_to_result
    result_to_mysql (selected rows) = rows_to_result rows
    result_to_mysql (inserted ids) = ok_packet (length ids)
    result_to_mysql (updated matched modified) = ok_packet modified
    result_to_mysql (deleted n) = ok_packet n
