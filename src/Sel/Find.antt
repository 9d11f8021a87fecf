-- ===== src/Sel/Find.antt =====
-- translator/internal/sel/render_find.go: a plan as a find statement.
pub mod Id
use mongosql.Sel.Items.{is_field}
use mongosql.Prelude.{Bool, if◌then◌else◌, ◌&&◌, ◌||◌, not, none, List, [], false, ◌∷◌, some}
use mongosql.Bytes.{bytes_eq, Bytes}
use mongosql.Result.{fail, ok, ◌>>=◌, Result}
use mongosql.Prelude.Int.{is_zero, pos}
use mongosql.Bson.{Value, Fields, int, put, field, end}
use mongosql.Sel.Plan.{SelectPlan, SelectItem, Statement, find_stmt, field_path}

abbrev pub one : Value
one = int (pos 1)

abbrev pub zero_value : Value
zero_value = int (pos 0)

abbrev pub id_key : Bytes
id_key = 95 ∷ 105 ∷ 100 ∷ []

-- The projection of the items, and whether `_id` is among them.
unfoldable pub project_items : List SelectItem → Fields → Bool → Result (Fields × Bool)
unfolding field_path put bytes_eq
project_items [] projection asked = ok (projection, asked)
project_items (item ∷ items) projection asked =
    if is_field item
    then elim item.field [
      | none ↦ fail "unsupported select expression: %T"
      | some f ↦
          project_items items (put (field_path f) one projection)
            (asked || bytes_eq (field_path f) id_key)
    ]
    else fail "unsupported select expression: %T"

unfoldable pub build_find_projection : SelectPlan → Result Fields
unfolding project_items put
build_find_projection p = if p.has_star then ok (field id_key zero_value end) else do
  (projection, asked) ← project_items p.items end false
  ok (if asked then projection else put id_key zero_value projection)

-- The path of the only item.
unfoldable pub distinct_path : SelectPlan → Bytes
unfolding field_path
distinct_path p =
    if p.distinct && not p.has_star
    then elim p.items [
      | [] ↦ []
      | item ∷ rest ↦ elim rest [
        | [] ↦ elim item.field [ none ↦ [] | some f ↦ field_path f ]
        | _ ∷ _ ↦ []
      ]
    ]
    else []

unfoldable pub build_find : SelectPlan → Result Statement
unfolding build_find_projection distinct_path
build_find p = do
  projection ← build_find_projection p
  ok (
      find_stmt (record {
        collection = p.main_source.collection;
        filter = p.filter;
        projection = some projection;
        sort = p.sort;
        limit = p.limit;
        skip = p.offset;
        distinct = distinct_path p;
        empty = p.has_limit && is_zero p.limit;
      }))
