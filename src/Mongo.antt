-- ===== src/Mongo.antt =====
-- The MongoDB server, which the program only sends filters to: an interface with the documented
-- behaviour of the query operators, as far as the translation of WHERE relies on it.
use Prim.Native.Nat.{Ordering}
use mongosql.Prelude.{◌∷◌, ◌==◌, [], Bool, true, false, not, ◌&&◌, ◌||◌, ◌≡◌, if◌then◌else◌}
use mongosql.Bytes.{Bytes}
use mongosql.Bson.{nil, cons, Values, Value, Fields, is_nil, arr}
use mongosql.Expr.Convert.{Sign, sign_eq}
use mongosql.Expr.Where.{between_filter, condition, junction, nor_filter}

-- A key that is the name of a field and not of an operator.
abbrev pub is_plain : Bytes → Bool
is_plain [] = true
is_plain (c ∷ path) = not (c == b'$')

-- Equality, where null equals null alone.
abbrev pub same : (Value → Value → Sign) → Value → Value → Bool
same order a b =
    if is_nil a then is_nil b else if is_nil b then false else sign_eq (order a b) Ordering.eq

-- An order test, which a field that is null or missing never passes.
abbrev pub passes : (Value → Value → Sign) → (Sign → Bool) → Value → Value → Bool
passes order test a b = if is_nil a then false else test (order a b)

abbrev pub is_lt : Sign → Bool
is_lt s = sign_eq s Ordering.lt

abbrev pub is_le : Sign → Bool
is_le s = not (sign_eq s Ordering.gt)

abbrev pub is_gt : Sign → Bool
is_gt s = sign_eq s Ordering.gt

abbrev pub is_ge : Sign → Bool
is_ge s = not (sign_eq s Ordering.lt)

abbrev pub no_null : Values → Bool
no_null nil = true
no_null (cons v vs) = not (is_nil v) && no_null vs

pub record Mongo : Type 1 where
  pub Doc : Type 0
  -- The value at a field path; null where the field is missing.
  pub look_up : Doc → Bytes → Value
  -- The order of two values that are not null.
  pub order : Value → Value → Sign
  -- The field is null or missing, or it holds one scalar of the type of the value.
  pub Comparable : Doc → Bytes → Value → Type 0
  pub matches : Fields → Doc → Bool
  pub matches_and :
      (a b : Fields) (d : Doc) → matches (junction "$and" a b) d ≡ (matches a d && matches b d)
  pub matches_or :
      (a b : Fields) (d : Doc) → matches (junction "$or" a b) d ≡ (matches a d || matches b d)
  pub matches_nor : (a : Fields) (d : Doc) → matches (nor_filter a) d ≡ not (matches a d)
  pub matches_eq :
      (path : Bytes) (v : Value) (d : Doc)
      → is_plain path ≡ true
      → Comparable d path v
      → matches (condition path "$eq" v) d ≡ same order (look_up d path) v
  pub matches_ne :
      (path : Bytes) (v : Value) (d : Doc)
      → is_plain path ≡ true
      → Comparable d path v
      → matches (condition path "$ne" v) d ≡ not (same order (look_up d path) v)
  pub matches_lt :
      (path : Bytes) (v : Value) (d : Doc)
      → is_plain path ≡ true
      → is_nil v ≡ false
      → Comparable d path v
      → matches (condition path "$lt" v) d ≡ passes order is_lt (look_up d path) v
  pub matches_lte :
      (path : Bytes) (v : Value) (d : Doc)
      → is_plain path ≡ true
      → is_nil v ≡ false
      → Comparable d path v
      → matches (condition path "$lte" v) d ≡ passes order is_le (look_up d path) v
  pub matches_gt :
      (path : Bytes) (v : Value) (d : Doc)
      → is_plain path ≡ true
      → is_nil v ≡ false
      → Comparable d path v
      → matches (condition path "$gt" v) d ≡ passes order is_gt (look_up d path) v
  pub matches_gte :
      (path : Bytes) (v : Value) (d : Doc)
      → is_plain path ≡ true
      → is_nil v ≡ false
      → Comparable d path v
      → matches (condition path "$gte" v) d ≡ passes order is_ge (look_up d path) v
  -- Several operators on one field are a conjunction.
  pub matches_range :
      (path : Bytes) (low high : Value) (d : Doc)
      → is_plain path ≡ true
      → matches (between_filter path true low high) d
        ≡ (matches (condition path "$gte" low) d && matches (condition path "$lte" high) d)
  -- $in with a list, and $nin, its negation.
  pub matches_nin :
      (path : Bytes) (vs : Value) (d : Doc)
      → is_plain path ≡ true
      → matches (condition path "$nin" vs) d ≡ not (matches (condition path "$in" vs) d)
  -- Null is in no list of values that are not null.
  pub matches_in_null :
      (path : Bytes) (vs : Values) (d : Doc)
      → is_plain path ≡ true
      → no_null vs ≡ true
      → is_nil (look_up d path) ≡ true
      → matches (condition path "$in" (arr vs)) d ≡ false
