-- ===== src/Sel/Translate/Distinct.antt =====
-- translator/internal/sel/plan.go: SELECT DISTINCT of several columns.
use mongosql.Sel.Translate.{several, where_filter, plan, plan_from, render, translate}
use mongosql.Sel.Source.{extract_from_plan}
use mongosql.Sel.Items.{plan_select_items}
use mongosql.Sel.Limits.{build_sort, build_limit}
use mongosql.Sel.Aggregate.{build_aggregate, aggregate_pipeline}
use mongosql.Sel.Plan.{SelectPlan, Select}
use mongosql.Prelude.{sym, ap, ◌≡◌, arith, true, false, inl, inr, List-cases, ◌||◌}
use mongosql.Result.{Result-cases, ok}
use mongosql.Runtime.{Runtime}
use mongosql.Vitess.{Vitess}

module _ (rt : Runtime) where
  -- The plan of the statement with DISTINCT.
  abbrev with_distinct : Select → SelectPlan → SelectPlan
  with_distinct s p = record p {
    raw = record s { distinct = true };
    distinct = true;
    use_aggregation = p.use_aggregation || several p.items;
  }

  plan-distinct :
      (s : Select) (p : SelectPlan)
      → plan rt (record s { distinct = false }) ≡ ok p
      → (plan rt (record s { distinct = true }) ≡ ok (with_distinct s p))
        × (p.raw ≡ record s { distinct = false })
  unfolding plan plan_from
  plan-distinct s p e = elim (List-cases s.from) [
    | inl none_given ↦ absurd (ground arith)
    | inr (first, rest, from) ↦ elim (Result-cases (extract_from_plan first)) [
      | inr (x, f) ↦ absurd (ground arith)
      | inl (sources, f) ↦ elim (Result-cases (plan_select_items rt s.select_exprs)) [
        | inr (x, g) ↦ absurd (ground arith)
        | inl (items, g) ↦ elim (Result-cases (where_filter rt s.where_expr)) [
          | inr (x, h) ↦ absurd (ground arith)
          | inl (filter, h) ↦ elim (Result-cases (build_sort s.order_by)) [
            | inr (x, i) ↦ absurd (ground arith)
            | inl (sort, i) ↦ elim (Result-cases (build_limit rt s.limit)) [
              | inr (x, j) ↦ absurd (ground arith)
              | inl (limit, j) ↦ ground arith
            ]
          ]
        ]
      ]
    ]
  ]

  -- Neither DISTINCT nor the way of rendering is read.
  build_aggregate-with_distinct :
      (vt : Vitess) (s : Select) (p : SelectPlan)
      → p.raw ≡ record s { distinct = false }
      → build_aggregate rt vt (with_distinct s p) ≡ build_aggregate rt vt p
  unfolding build_aggregate aggregate_pipeline
  build_aggregate-with_distinct vt s p e =
      ap (λ r. build_aggregate rt vt (record p { raw = r })) (sym e)

-- A SELECT DISTINCT of several columns is translated into the very pipeline that buildAggregate
-- makes of the plan of the same SELECT without DISTINCT.
pub translate-distinct :
    (rt : Runtime) (vt : Vitess) (s : Select) (p : SelectPlan)
    → plan rt (record s { distinct = false }) ≡ ok p
    → several p.items ≡ true
    → translate rt vt (record s { distinct = true }) ≡ build_aggregate rt vt p
unfolding translate render
translate-distinct rt vt s p planned many =
    let (distinct_plan, raw) = plan-distinct rt s p planned in
    rw (distinct_plan, many) (ground (arith, build_aggregate-with_distinct rt vt s p raw))
