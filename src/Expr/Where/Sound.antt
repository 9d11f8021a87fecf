-- ===== src/Expr/Where/Sound.antt =====
-- translator/internal/expr/expr.go: the filters of TranslateWhere and negateWhere, and MySQL's
-- three-valued logic.
use mongosql.Expr.Where.Leaf.{
  negated_comparison_sound, between_sound, comparison_sound, or_sound, and_sound, Selects,
}
use mongosql.Expr.Columns.{col_name}
use mongosql.Result.{ok, Result}
use mongosql.Runtime.{Runtime}
use mongosql.Prelude.{sym, not, ◌&&◌, ◌||◌, ◌∙◌, Bool, refl, false, ◌≡◌, arith, true}
use mongosql.Ast.{LitType, Expr, ColName, CmpOp, IsOp}
use mongosql.Ast
use mongosql.Bson.{bool, Value, Fields, null}
use mongosql.Mongo.{Mongo, is_plain}
use mongosql.Sql.{
  Fits, InFragment, sql_where, not_truth, Truth, or_truth, and_truth, sql_is, FitsIs, sql_between,
  is_fails, constant, is_holds,
}
use mongosql.Expr.Where.{translate_where, negate_is_op, translate_is, negate_where}

module _ (rt : Runtime) (mongo : Mongo) where
  is_sound :
      (op : IsOp) (c : ColName) (d : mongo.Doc)
      → is_plain (col_name c) ≡ true
      → FitsIs rt mongo d op (Ast.col c)
      → Selects rt mongo
          (translate_is rt op (Ast.col c))
          d
          (is_holds (sql_is mongo.order op (mongo.look_up d (col_name c))))
  unfolding translate_is sql_is
  is_sound Ast.is_null_op c d p h = (_, refl, ground (arith, mongo.matches_eq (col_name c) null d))
  is_sound Ast.is_not_null_op c d p h =
      (_, refl, ground (arith, mongo.matches_ne (col_name c) null d))
  is_sound Ast.is_true_op c d p h =
      (_, refl, ground (arith, mongo.matches_eq (col_name c) (bool true) d))
  is_sound Ast.is_not_true_op c d p h =
      (_, refl, ground (arith, mongo.matches_ne (col_name c) (bool true) d))
  is_sound Ast.is_false_op c d p h =
      (_, refl, ground (arith, mongo.matches_eq (col_name c) (bool false) d))
  is_sound Ast.is_not_false_op c d p h =
      (_, refl, ground (arith, mongo.matches_ne (col_name c) (bool false) d))

  FitsIs-negate :
      (op : IsOp) (e : Expr) (d : mongo.Doc)
      → FitsIs rt mongo d op e
      → FitsIs rt mongo d (negate_is_op op) e
  unfolding negate_is_op
  FitsIs-negate Ast.is_null_op e d h = h
  FitsIs-negate _ e d h = h

  sql_is-negate :
      (op : IsOp) (v : Value)
      → is_holds (sql_is mongo.order (negate_is_op op) v) ≡ is_fails (sql_is mongo.order op v)
  unfolding negate_is_op sql_is
  sql_is-negate op v = ground arith

  by_eq :
      {r : Result Fields} {d : mongo.Doc} {a b : Bool}
      → Selects rt mongo r d a
      → a ≡ b
      → Selects rt mongo r d b
  by_eq (f, e, h) q = (f, e, h ∙ q)

  holds-and : (a b : Truth) → (is_holds a && is_holds b) ≡ is_holds (and_truth a b)
  unfolding and_truth
  holds-and a b = ground arith

  holds-or : (a b : Truth) → (is_holds a || is_holds b) ≡ is_holds (or_truth a b)
  unfolding or_truth
  holds-or a b = ground arith

  fails-and : (a b : Truth) → (is_fails a || is_fails b) ≡ is_fails (and_truth a b)
  unfolding and_truth
  fails-and a b = ground arith

  fails-or : (a b : Truth) → (is_fails a && is_fails b) ≡ is_fails (or_truth a b)
  unfolding or_truth
  fails-or a b = ground arith

  holds-not : (a : Truth) → is_fails a ≡ is_holds (not_truth a)
  unfolding not_truth
  holds-not a = ground arith

  fails-not : (a : Truth) → is_holds a ≡ is_fails (not_truth a)
  unfolding not_truth
  fails-not a = ground arith

  sql_between-negate :
      (b : Bool) (x v w : Value)
      → is_holds (sql_between mongo.order (not b) x v w)
        ≡ is_fails (sql_between mongo.order b x v w)
  unfolding sql_between
  sql_between-negate true x v w = sym (holds-not (sql_between mongo.order true x v w))
  sql_between-negate false x v w = fails-not (sql_between mongo.order true x v w)

  abbrev sql : Expr → mongo.Doc → Truth
  sql = sql_where rt mongo

  mutual
    unfolding translate_where sql_where

    positive :
        (e : Expr) (d : mongo.Doc)
        → InFragment rt mongo e
        → Fits rt mongo d e
        → Selects rt mongo (translate_where rt e) d (is_holds (sql e d))
    positive (Ast.and_expr l r) d h k =
        by_eq (and_sound rt mongo d (positive l d h.0 k.0) (positive r d h.1 k.1))
          (holds-and (sql l d) (sql r d))
    positive (Ast.or_expr l r) d h k =
        by_eq (or_sound rt mongo d (positive l d h.0 k.0) (positive r d h.1 k.1))
          (holds-or (sql l d) (sql r d))
    positive (Ast.not_expr e) d h k = by_eq (negative e d h k) (holds-not (sql e d))
    positive (Ast.comparison op (Ast.col c) r) d h k =
        comparison_sound rt mongo c r d h.0 k.0 k.1 op h.1
    positive (Ast.comparison op l r) d h k = absurd h.0
    positive (Ast.between b (Ast.col c) from to) d h k =
        between_sound rt mongo c from to d h.0 h.1 h.2 k.0 k.1 b
    positive (Ast.between b l from to) d h k = absurd h.0
    positive (Ast.is_expr op (Ast.col c)) d h k = is_sound op c d h k
    positive (Ast.is_expr op l) d h k = absurd h
    positive _ d h k = absurd h

    negative :
        (e : Expr) (d : mongo.Doc)
        → InFragment rt mongo e
        → Fits rt mongo d e
        → Selects rt mongo (negate_where rt e) d (is_fails (sql e d))
    negative (Ast.and_expr l r) d h k =
        by_eq (or_sound rt mongo d (negative l d h.0 k.0) (negative r d h.1 k.1))
          (fails-and (sql l d) (sql r d))
    negative (Ast.or_expr l r) d h k =
        by_eq (and_sound rt mongo d (negative l d h.0 k.0) (negative r d h.1 k.1))
          (fails-or (sql l d) (sql r d))
    negative (Ast.not_expr e) d h k = by_eq (positive e d h k) (fails-not (sql e d))
    negative (Ast.comparison op (Ast.col c) r) d h k =
        negated_comparison_sound rt mongo c r d h.0 k.0 k.1 op h.1
    negative (Ast.comparison op l r) d h k = absurd h.0
    negative (Ast.between b (Ast.col c) from to) d h k =
        by_eq (between_sound rt mongo c from to d h.0 h.1 h.2 k.0 k.1 (not b)) (
          sql_between-negate b (mongo.look_up d (col_name c)) (constant rt mongo from)
            (constant rt mongo to))
    negative (Ast.between b l from to) d h k = absurd h.0
    negative (Ast.is_expr op (Ast.col c)) d h k =
        by_eq (is_sound (negate_is_op op) c d h (FitsIs-negate op (Ast.col c) d k))
          (sql_is-negate op (mongo.look_up d (col_name c)))
    negative (Ast.is_expr op l) d h k = absurd h
    negative _ d h k = absurd h

-- Every condition of the fragment is translated, and the filter selects exactly the rows on which
-- the condition holds in MySQL's three-valued logic, on a row whose columns fit the constants.
pub translate_where_sound :
    (rt : Runtime) (mongo : Mongo) (e : Expr) (d : mongo.Doc)
    → InFragment rt mongo e
    → Fits rt mongo d e
    → (f : Fields) × (translate_where rt e ≡ ok f)
      × (mongo.matches f d ≡ is_holds (sql_where rt mongo e d))
translate_where_sound rt mongo e d h k = positive rt mongo e d h k
