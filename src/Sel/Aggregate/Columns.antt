-- ===== src/Sel/Aggregate/Columns.antt =====
-- translator/internal/sel/render_aggregate.go: the columns that come out of $project after $group.
use mongosql.Sel.Aggregate.{aggregate_columns}
use mongosql.Sel.Group.{agg_result_name, agg_default, projected, distinct_projection}
use mongosql.Sel.Items.{is_aggregate}
use mongosql.Sel.Plan.{SelectItem, AggFunc}
use mongosql.Prelude.{
  Option, false, inl, inr, Option-cases, ◌≡◌, refl, arith, Bool, true, not, ◌&&◌, ◌||◌, none, some,
  List, [], ◌∷◌,
}
use mongosql.Prelude.Int.{pos, is_zero}
use mongosql.Bytes.{Bytes, bytes_eq_refl}
use mongosql.Bson.{Value, Fields, has, get, put, get-put, int, bool, obj}

-- Is there a field for each aggregate item?
abbrev pub gives_all : List SelectItem → Bytes → Fields → Bool
gives_all [] main_alias d = true
gives_all (item ∷ items) main_alias d =
    (not (is_aggregate item) || has (agg_result_name item main_alias) d)
    && gives_all items main_alias d

-- Does $project show a field that has this value? By the documentation of MongoDB, a number other
-- than 0, true and an expression object do, where 0 and false hide the field.
unfoldable pub includes : Option Value → Bool
includes (some (int z)) = not (is_zero z)
includes (some (bool b)) = b
includes (some (obj fs)) = true
includes _ = false

-- Does $project show the field of each aggregate item?
abbrev pub shows_all : List SelectItem → Bytes → Fields → Bool
shows_all [] main_alias d = true
shows_all (item ∷ items) main_alias d =
    (not (is_aggregate item) || includes (get (agg_result_name item main_alias) d))
    && shows_all items main_alias d

abbrev shown : SelectItem → Bytes → Value
shown item main_alias = elim item.agg [
  | none ↦ int (pos 1)
  | some a ↦ projected a (agg_result_name item main_alias)
]

includes-distinct_projection :
    (f : AggFunc) (name : Bytes) → includes (some (distinct_projection f name)) ≡ true
unfolding includes distinct_projection
includes-distinct_projection AggFunc.sum name = refl
includes-distinct_projection AggFunc.avg name = refl
includes-distinct_projection AggFunc.min name = refl
includes-distinct_projection AggFunc.max name = refl
includes-distinct_projection AggFunc.count name = refl

includes-shown :
    (item : SelectItem) (main_alias : Bytes) → includes (some (shown item main_alias)) ≡ true
unfolding includes
includes-shown item main_alias = elim (Option-cases item.agg) [
  | inl e ↦ ground (arith, e)
  | inr (a, e) ↦
      ground (arith, e, includes-distinct_projection a.func (agg_result_name item main_alias))
]

aggregate_columns-keeps :
    (items : List SelectItem) (main_alias : Bytes) (p d : Fields) (k : Bytes)
    → (includes (get k p) ≡ true
        → includes (get k (aggregate_columns items main_alias p d).0) ≡ true)
      × (has k d ≡ true → has k (aggregate_columns items main_alias p d).1 ≡ true)
unfolding aggregate_columns
aggregate_columns-keeps [] main_alias p d k = (λ h. h, λ h. h)
aggregate_columns-keeps (item ∷ items) main_alias p d k =
    let name = agg_result_name item main_alias in
    let skip = aggregate_columns-keeps items main_alias p d k in
    let (in_project, in_defaults) =
      aggregate_columns-keeps items main_alias (put name (shown item main_alias) p)
        (put name (agg_default item.agg) d) k in
    (
      λ h. ground (
        arith,
        skip.0,
        in_project,
        get-put name k (shown item main_alias) p,
        includes-shown item main_alias,
      ),
      λ h. ground (arith, skip.1, in_defaults, get-put name k (agg_default item.agg) d),
    )

-- After $group, the projection shows the column of each aggregate of the select list, and the row
-- that stands for no rows has a value for it, whatever the documents start with.
pub aggregate_columns-shows_all :
    (items : List SelectItem) (main_alias : Bytes) (p d : Fields)
    → (shows_all items main_alias (aggregate_columns items main_alias p d).0 ≡ true)
      × (gives_all items main_alias (aggregate_columns items main_alias p d).1 ≡ true)
unfolding aggregate_columns
aggregate_columns-shows_all [] main_alias p d = (refl, refl)
aggregate_columns-shows_all (item ∷ items) main_alias p d =
    let name = agg_result_name item main_alias in
    let (in_project, in_defaults) =
      aggregate_columns-keeps items main_alias (put name (shown item main_alias) p)
        (put name (agg_default item.agg) d) name in
    ground (
      arith,
      in_project,
      in_defaults,
      aggregate_columns-shows_all items main_alias p d,
      aggregate_columns-shows_all items main_alias (put name (shown item main_alias) p)
          (put name (agg_default item.agg) d),
      get-put name name (shown item main_alias) p,
      includes-shown item main_alias,
      get-put name name (agg_default item.agg) d,
      bytes_eq_refl name,
    )
