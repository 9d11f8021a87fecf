-- ===== src/Sel/Translate.antt =====
-- translator/internal/sel/plan.go: Plan, Render and Translate.
pub mod Distinct
pub mod Empty
use mongosql.Expr.Where.{translate_where}
use mongosql.Result.{fail, ok, ◌>>=◌, Result}
use mongosql.Runtime.{Runtime}
use mongosql.Prelude.{
  none, [], if◌then◌else◌, ◌&&◌, ◌||◌, some, true, Option, false, ◌∷◌, Bool, List,
}
use mongosql.Ast.{Expr}
use mongosql.Bson.{Fields, end}
use mongosql.Sel.Plan.{SelectPlan, Select, Statement, TableExpr}
use mongosql.Sel.Source.{extract_from_plan}
use mongosql.Sel.Items.{plan_select_items}
use mongosql.Sel.Limits.{build_sort, build_limit, given}
use mongosql.Sel.Find.{build_find}
use mongosql.Sel.Aggregate.{build_aggregate}
use mongosql.Vitess.{Vitess}

abbrev pub several {ℓ} : {A : Type ℓ} → List A → Bool
several (x ∷ y ∷ r) = true
several _ = false

abbrev some_items {ℓ} : {A : Type ℓ} → List A → Bool
some_items [] = false
some_items (x ∷ r) = true

module _ (rt : Runtime) where
  unfoldable pub where_filter : Option Expr → Result Fields
  unfolding translate_where
  where_filter none = ok end
  where_filter (some e) = translate_where rt e

  unfoldable pub plan_from : TableExpr → Select → Result SelectPlan
  unfolding extract_from_plan plan_select_items where_filter build_sort build_limit
  plan_from first s = do
    (main_source, joins) ← extract_from_plan first
    (items, has_star, has_agg, has_expr) ← plan_select_items rt s.select_exprs
    filter ← where_filter s.where_expr
    sort ← build_sort s.order_by
    (limit, offset, has_limit) ← build_limit rt s.limit
    let grouped = some_items joins || has_agg || given s.group_by || given s.having || has_expr
    ok (record {
      raw = s;
      main_source = main_source;
      joins = joins;
      items = items;
      filter = filter;
      sort = sort;
      limit = limit;
      offset = offset;
      has_limit = has_limit;
      distinct = s.distinct;
      has_star = has_star;
      has_agg = has_agg;
      use_aggregation = grouped || (s.distinct && several items);
    })

  unfoldable pub plan : Select → Result SelectPlan
  unfolding plan_from
  plan s = elim s.from [
    | [] ↦ fail "SELECT requires FROM clause"
    | first ∷ rest ↦ plan_from first s
  ]

  unfoldable pub render : Vitess → SelectPlan → Result Statement
  unfolding build_aggregate build_find
  render vt p = if p.use_aggregation then build_aggregate rt vt p else build_find p

  unfoldable pub translate : Vitess → Select → Result Statement
  unfolding plan render
  translate vt s = do p ← plan s; render vt p
