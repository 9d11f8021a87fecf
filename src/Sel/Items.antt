-- ===== src/Sel/Items.antt =====
-- translator/internal/sel/items.go: the SELECT list.
use mongosql.Result.{fail, err, ◌>>=◌, ok, Result}
use mongosql.Bytes.{Bytes, str, bytes_eq}
use mongosql.Runtime.{Runtime}
use mongosql.Prelude.{if◌then◌else◌, ◌||◌, [], false, ◌∷◌, some, true, Option, List, none, Bool}
use mongosql.Ast.{Expr, Exprs, AggNode}
use mongosql.Ast
use mongosql.Sel.Plan.{
  AggFunc, AggSpec, SelectItem, SelectExpr, field_item, aggregate_item, expr_item, star_expr,
  aliased_expr, other_select_expr,
}
use mongosql.Sel.Source.{field_ref_from_expr}

-- The five names of a generic call that is an aggregate.
unfoldable pub agg_of_name : Bytes → Option AggFunc
unfolding bytes_eq str
agg_of_name name =
    if bytes_eq name (str "COUNT")
    then some AggFunc.count
    else if bytes_eq name (str "SUM")
    then some AggFunc.sum
    else if bytes_eq name (str "AVG")
    then some AggFunc.avg
    else if bytes_eq name (str "MIN")
    then some AggFunc.min
    else if bytes_eq name (str "MAX")
    then some AggFunc.max
    else none

abbrev agg_of_node : AggNode → AggFunc
agg_of_node Ast.sum_node = AggFunc.sum
agg_of_node Ast.avg_node = AggFunc.avg
agg_of_node Ast.min_node = AggFunc.min
agg_of_node Ast.max_node = AggFunc.max

abbrev star_spec : AggFunc → AggSpec
star_spec f = record { func = f; arg = none; arg_expr = none; star = true; distinct = false }

-- A column argument, or any other expression.
unfoldable pub plan_unary_agg : AggFunc → Expr → Bool → AggSpec
unfolding field_ref_from_expr
plan_unary_agg f e distinct = elim (field_ref_from_expr e) [
  | ok field ↦ record {
    func = f;
    arg = some field;
    arg_expr = none;
    star = false;
    distinct = distinct;
  }
  | err why ↦ record { func = f; arg = none; arg_expr = some e; star = false; distinct = distinct }
]

module _ (rt : Runtime) where
  unfoldable pub is_agg_expr : Expr → Bool
  unfolding agg_of_name
  is_agg_expr (Ast.func_expr name es) = elim (agg_of_name (rt.to_upper name)) [
    | some f ↦ true
    | none ↦ false
  ]
  is_agg_expr Ast.count_star = true
  is_agg_expr (Ast.count distinct es) = true
  is_agg_expr (Ast.agg_call node distinct e) = true
  is_agg_expr _ = false

  -- A generic call keeps no DISTINCT. (Its name is one of the five wherever planAggSpec is called.)
  unfoldable pub plan_agg_spec : Expr → Result AggSpec
  unfolding agg_of_name plan_unary_agg
  plan_agg_spec Ast.count_star = ok (star_spec AggFunc.count)
  plan_agg_spec (Ast.count distinct Ast.nil) = ok (star_spec AggFunc.count)
  plan_agg_spec (Ast.count distinct (Ast.cons e es)) = ok (plan_unary_agg AggFunc.count e distinct)
  plan_agg_spec (Ast.agg_call node distinct e) = ok (plan_unary_agg (agg_of_node node) e distinct)
  plan_agg_spec (Ast.func_expr name Ast.nil) = elim (agg_of_name (rt.to_upper name)) [
    | some f ↦ ok (star_spec f)
    | none ↦ fail "not an aggregate expression: %T"
  ]
  plan_agg_spec (Ast.func_expr name (Ast.cons e es)) = elim (agg_of_name (rt.to_upper name)) [
    | some f ↦ ok (plan_unary_agg f e false)
    | none ↦ fail "not an aggregate expression: %T"
  ]
  plan_agg_spec _ = fail "not an aggregate expression: %T"

  -- One entry of the list.
  unfoldable pub plan_item : Expr → Bytes → Result SelectItem
  unfolding is_agg_expr plan_agg_spec field_ref_from_expr
  plan_item e alias =
      if is_agg_expr e
      then (do
        agg ← plan_agg_spec e
        ok (record {
          kind = aggregate_item;
          field = none;
          agg = some agg;
          alias = alias;
          raw_expr = e;
        }))
      else elim (field_ref_from_expr e) [
        | ok f ↦
            ok (record {
              kind = field_item;
              field = some f;
              agg = none;
              alias = alias;
              raw_expr = e;
            })
        | err why ↦
            ok (record { kind = expr_item; field = none; agg = none; alias = alias; raw_expr = e })
      ]

  unfoldable pub plan_items : List SelectExpr → Result (List SelectItem)
  unfolding plan_item
  plan_items [] = ok []
  plan_items (star_expr ∷ es) = plan_items es
  plan_items (aliased_expr e alias ∷ es) = do
    item ← plan_item e alias
    items ← plan_items es
    ok (item ∷ items)
  plan_items (other_select_expr ∷ es) = fail "unsupported SELECT expr type: %T"

abbrev is_star : SelectExpr → Bool
is_star star_expr = true
is_star _ = false

abbrev pub any_of {ℓ} : {A : Type ℓ} → (A → Bool) → List A → Bool
any_of p [] = false
any_of p (x ∷ xs) = p x || any_of p xs

abbrev pub is_field : SelectItem → Bool
is_field item = elim item.kind [ field_item ↦ true | _ ↦ false ]

abbrev pub is_aggregate : SelectItem → Bool
is_aggregate item = elim item.kind [ aggregate_item ↦ true | _ ↦ false ]

abbrev pub is_expression : SelectItem → Bool
is_expression item = elim item.kind [ expr_item ↦ true | _ ↦ false ]

-- planSelectItems: the items, and whether there is a star, an aggregate, and another expression.
unfoldable pub plan_select_items :
    Runtime → Option (List SelectExpr) → Result (List SelectItem × Bool × Bool × Bool)
unfolding plan_items
plan_select_items rt none = ok ([], true, false, false)
plan_select_items rt (some es) = do
  items ← plan_items rt es
  ok (items, any_of is_star es, any_of is_aggregate items, any_of is_expression items)
