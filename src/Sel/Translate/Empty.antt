-- ===== src/Sel/Translate/Empty.antt =====
-- translator/internal/sel: LIMIT 0 in the two ways of rendering a plan.
use mongosql.Sel.Translate.{render}
use mongosql.Sel.Find.{build_find, build_find_projection}
use mongosql.Sel.Aggregate.{build_aggregate, aggregate_pipeline}
use mongosql.Sel.Plan.{SelectPlan, Statement, find_stmt, aggregate_stmt}
use mongosql.Prelude.{◌≡◌, arith, false, inl, inr, Bool, ◌&&◌}
use mongosql.Prelude.Int.{is_zero}
use mongosql.Result.{Result-cases, ok}
use mongosql.Runtime.{Runtime}
use mongosql.Vitess.{Vitess}

-- What the driver reads to answer without asking the database.
abbrev pub statically_empty : Statement → Bool
statically_empty (find_stmt s) = s.empty
statically_empty (aggregate_stmt s) = s.empty
statically_empty _ = false

build_find-empty :
    (p : SelectPlan) (out : Statement)
    → build_find p ≡ ok out
    → statically_empty out ≡ (p.has_limit && is_zero p.limit)
unfolding build_find
build_find-empty p out e = elim (Result-cases (build_find_projection p)) [
  | inr (x, failed) ↦ absurd (ground arith)
  | inl (d, projected) ↦ ground arith
]

build_aggregate-empty :
    (rt : Runtime) (vt : Vitess) (p : SelectPlan) (out : Statement)
    → build_aggregate rt vt p ≡ ok out
    → statically_empty out ≡ (p.has_limit && is_zero p.limit)
unfolding build_aggregate
build_aggregate-empty rt vt p out e = elim (Result-cases (aggregate_pipeline rt vt p)) [
  | inr (x, failed) ↦ ground arith
  | inl (stages, built) ↦ ground arith
]

-- Whichever way a plan is rendered, the statement is marked as empty exactly where there is a
-- row count and it is 0.
pub render-empty :
    (rt : Runtime) (vt : Vitess) (p : SelectPlan) (out : Statement)
    → render rt vt p ≡ ok out
    → statically_empty out ≡ (p.has_limit && is_zero p.limit)
unfolding render
render-empty rt vt p out e =
    ground (arith, build_find-empty p out, build_aggregate-empty rt vt p out)
