-- ===== src/Expr/Where/Leaf.antt =====
-- translator/internal/expr/expr.go: the filters of the conditions without AND, OR and NOT.
use mongosql.Expr.Columns.{col_name}
use mongosql.Result.{map_ok, ◌>>=◌, ok, Result}
use mongosql.Expr.Convert.{literal_value}
use mongosql.Expr.Eval.{value}
use mongosql.Bytes.{Bytes}
use mongosql.Runtime.{Runtime}
use mongosql.Prelude.{not, ◌&&◌, ◌||◌, ◌∙◌, Bool, refl, false, ◌≡◌, arith, true, ◌⊎◌, inl, inr}
use mongosql.Ast.{LitType, Expr, ColName, CmpOp, IsOp}
use mongosql.Ast
use mongosql.Bson.{Value, Fields, null, is_nil}
use mongosql.Mongo.{same, Mongo, is_plain}
use mongosql.Sql.{of_bool, sql_between, is_fails, sql_compare, constant, is_holds, admits, is_value}
use mongosql.Expr.Where.{
  nor_filter, junction, between_filter, translate_between, negate_where, expr_op_to_mongo,
  translate_comparison, condition, not_equal_filter, is_const, column_comparison,
}

module _ (rt : Runtime) where
  literal_value-ne-null :
      (type : LitType) (val : Bytes) → is_nil (literal_value rt type val) ≡ false
  unfolding literal_value
  literal_value-ne-null type val = ground arith

  pub value-constant :
      (mongo : Mongo) (r : Expr) → is_const r ≡ true → value rt r ≡ ok (constant rt mongo r)
  unfolding value
  value-constant mongo (Ast.literal type val) h = refl
  value-constant mongo (Ast.bool_val b) h = refl
  value-constant mongo Ast.null_val h = refl
  value-constant mongo _ h = cc

module _ (rt : Runtime) (mongo : Mongo) where
  constant-ne-null : (r : Expr) → is_value r ≡ true → is_nil (constant rt mongo r) ≡ false
  constant-ne-null (Ast.literal type val) h = literal_value-ne-null rt type val
  constant-ne-null (Ast.bool_val b) h = refl
  constant-ne-null _ h = cc

  pub is_value→is_const : (r : Expr) → is_value r ≡ true → is_const r ≡ true
  is_value→is_const (Ast.literal type val) h = refl
  is_value→is_const (Ast.bool_val b) h = refl
  is_value→is_const _ h = cc

  admits→is_const : (op : CmpOp) (r : Expr) → admits op r ≡ true → is_const r ≡ true
  admits→is_const op r h = ground (arith, is_value→is_const r)

  -- The result is a filter that matches the row exactly where `b` says so.
  abbrev pub Selects : Result Fields → mongo.Doc → Bool → Type 0
  Selects r d b = (f : Fields) × (r ≡ ok f) × (mongo.matches f d ≡ b)

  module _ (path : Bytes) (v : Value) (e : Expr) (d : mongo.Doc) where
    column_comparison_sound :
        (op : CmpOp)
        → admits op (Ast.bool_val true) ≡ true
        → is_plain path ≡ true
        → (op ≡ Ast.null_safe_equal_op) ⊎ (is_nil v ≡ false)
        → mongo.Comparable d path v
        → mongo.Comparable d path null
        → Selects
            (column_comparison op path (ok v) e)
            d
            (is_holds (sql_compare mongo.order op (mongo.look_up d path) v))
    unfolding column_comparison sql_compare
    column_comparison_sound Ast.equal_op a p n c z =
        (_, refl, ground (arith, mongo.matches_eq path v d))
    column_comparison_sound Ast.null_safe_equal_op a p n c z =
        (_, refl, ground (arith, mongo.matches_eq path v d))
    column_comparison_sound Ast.not_equal_op a p (inl e) c z = absurd (ground arith)
    column_comparison_sound Ast.not_equal_op a p (inr n) c z = (
      not_equal_filter path v,
      refl,
      ground (
        arith,
        mongo.matches_ne path v d,
        mongo.matches_ne path null d,
        mongo.matches_and (condition path "$ne" v) (condition path "$ne" null) d,
      ),
    )
    column_comparison_sound Ast.less_than_op a p n c z =
        (_, refl, ground (arith, mongo.matches_lt path v d))
    column_comparison_sound Ast.less_equal_op a p n c z =
        (_, refl, ground (arith, mongo.matches_lte path v d))
    column_comparison_sound Ast.greater_than_op a p n c z =
        (_, refl, ground (arith, mongo.matches_gt path v d))
    column_comparison_sound Ast.greater_equal_op a p n c z =
        (_, refl, ground (arith, mongo.matches_gte path v d))
    column_comparison_sound _ a p n c z = cc

  column_comparison-eq :
      (op : CmpOp) (c : ColName) (r : Expr)
      → is_const r ≡ true
      → translate_comparison rt op (Ast.col c) r
        ≡ column_comparison op (col_name c) (ok (constant rt mongo r)) r
  unfolding translate_comparison expr_op_to_mongo
  column_comparison-eq op c r h = ground (arith, value-constant rt mongo r)

  admits-any : (op : CmpOp) (r : Expr) → admits op r ≡ true → admits op (Ast.bool_val true) ≡ true
  admits-any op r h = ground arith

  admits-constant :
      (op : CmpOp) (r : Expr)
      → admits op r ≡ true
      → (op ≡ Ast.null_safe_equal_op) ⊎ (is_nil (constant rt mongo r) ≡ false)
  admits-constant Ast.null_safe_equal_op r h = inl refl
  admits-constant op r h = inr (constant-ne-null r (ground arith))

  pub nor_sound :
      (d : mongo.Doc) {r : Result Fields} {b : Bool}
      → Selects r d b
      → Selects (map_ok nor_filter r) d (not b)
  nor_sound d (f, e, h) = (nor_filter f, rw e, rw (mongo.matches_nor f d, h))

  not-holds : (b : Bool) → not (is_holds (of_bool b)) ≡ is_fails (of_bool b)
  not-holds b = ground arith

  module _ (c : ColName) (r : Expr) (d : mongo.Doc) (p : is_plain (col_name c) ≡ true)
      (fits : mongo.Comparable d (col_name c) (constant rt mongo r))
      (fits_null : mongo.Comparable d (col_name c) null) where
    pub comparison_sound :
        (op : CmpOp)
        → admits op r ≡ true
        → Selects (translate_comparison rt op (Ast.col c) r) d (
            is_holds
              (sql_compare mongo.order op (mongo.look_up d (col_name c)) (constant rt mongo r)))
    comparison_sound op a = rw (column_comparison-eq op c r (admits→is_const op r a)) (
        column_comparison_sound (col_name c) (constant rt mongo r) r d op (admits-any op r a) p
          (admits-constant op r a) fits fits_null)

    -- `op'` holds exactly where `op` fails.
    abbrev Opposite : CmpOp → CmpOp → Type 0
    Opposite op op' =
        is_holds (sql_compare mongo.order op' (mongo.look_up d (col_name c)) (constant rt mongo r))
        ≡ is_fails (sql_compare mongo.order op (mongo.look_up d (col_name c)) (constant rt mongo r))

    by_opposite :
        (op op' : CmpOp)
        → Opposite op op'
        → admits op' r ≡ true
        → Selects (translate_comparison rt op' (Ast.col c) r) d (
            is_fails
              (sql_compare mongo.order op (mongo.look_up d (col_name c)) (constant rt mongo r)))
    by_opposite op op' flip a = let (f, e, h) = comparison_sound op' a in (f, e, h ∙ flip)

    pub negated_comparison_sound :
        (op : CmpOp)
        → admits op r ≡ true
        → Selects (negate_where rt (Ast.comparison op (Ast.col c) r)) d (
            is_fails
              (sql_compare mongo.order op (mongo.look_up d (col_name c)) (constant rt mongo r)))
    unfolding negate_where sql_compare
    negated_comparison_sound Ast.equal_op a =
        by_opposite Ast.equal_op Ast.not_equal_op (ground arith) a
    negated_comparison_sound Ast.not_equal_op a =
        by_opposite Ast.not_equal_op Ast.equal_op (ground arith) a
    negated_comparison_sound Ast.less_than_op a =
        by_opposite Ast.less_than_op Ast.greater_equal_op (ground arith) a
    negated_comparison_sound Ast.less_equal_op a =
        by_opposite Ast.less_equal_op Ast.greater_than_op (ground arith) a
    negated_comparison_sound Ast.greater_than_op a =
        by_opposite Ast.greater_than_op Ast.less_equal_op (ground arith) a
    negated_comparison_sound Ast.greater_equal_op a =
        by_opposite Ast.greater_equal_op Ast.less_than_op (ground arith) a
    negated_comparison_sound Ast.null_safe_equal_op a =
        let (f, e, h) = nor_sound d (comparison_sound Ast.null_safe_equal_op a) in
        (
          f,
          e,
          h ∙ not-holds (same mongo.order (mongo.look_up d (col_name c)) (constant rt mongo r)),
        )
    negated_comparison_sound _ a = cc

  -- Two filters joined by $and or $or.
  pub and_sound :
      (d : mongo.Doc) {r t : Result Fields} {a b : Bool}
      → Selects r d a
      → Selects t d b
      → Selects (r >>= λ f. t >>= λ g. ok (junction "$and" f g)) d (a && b)
  and_sound d (f, e, h) (g, e', h') =
      (junction "$and" f g, rw (e, e'), rw (mongo.matches_and f g d, h, h'))

  pub or_sound :
      (d : mongo.Doc) {r t : Result Fields} {a b : Bool}
      → Selects r d a
      → Selects t d b
      → Selects (r >>= λ f. t >>= λ g. ok (junction "$or" f g)) d (a || b)
  or_sound d (f, e, h) (g, e', h') =
      (junction "$or" f g, rw (e, e'), rw (mongo.matches_or f g d, h, h'))

  pub between_sound :
      (c : ColName) (from to : Expr) (d : mongo.Doc)
      → is_plain (col_name c) ≡ true
      → is_value from ≡ true
      → is_value to ≡ true
      → mongo.Comparable d (col_name c) (constant rt mongo from)
      → mongo.Comparable d (col_name c) (constant rt mongo to)
      → (b : Bool)
      → Selects (translate_between rt b (Ast.col c) from to) d (
          is_holds (
            sql_between mongo.order b
              (mongo.look_up d (col_name c))
              (constant rt mongo from)
              (constant rt mongo to)))
  unfolding translate_between sql_between
  between_sound c from to d p vf vt cf ct true =
      let path = col_name c in
      let low = constant rt mongo from in
      let high = constant rt mongo to in
      (
        between_filter path true low high,
        rw (
          value-constant rt mongo from (is_value→is_const from vf),
          value-constant rt mongo to (is_value→is_const to vt),
        ),
        ground (
          arith,
          mongo.matches_range path low high d,
          mongo.matches_gte path low d,
          mongo.matches_lte path high d,
          constant-ne-null from vf,
          constant-ne-null to vt,
        ),
      )
  between_sound c from to d p vf vt cf ct false =
      let path = col_name c in
      let low = constant rt mongo from in
      let high = constant rt mongo to in
      (
        between_filter path false low high,
        rw (
          value-constant rt mongo from (is_value→is_const from vf),
          value-constant rt mongo to (is_value→is_const to vt),
        ),
        ground (
          arith,
          mongo.matches_or (condition path "$lt" low) (condition path "$gt" high) d,
          mongo.matches_lt path low d,
          mongo.matches_gt path high d,
          constant-ne-null from vf,
          constant-ne-null to vt,
        ),
      )
