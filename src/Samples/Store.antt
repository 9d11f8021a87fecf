-- ===== src/Samples/Store.antt =====
-- A store that evaluates filters over flat rows, and meets the assumptions on MongoDB.
use Prim.Native.Nat.{Ordering}
use mongosql.Prelude.{
  ◌∙◌, ◌≡◌, refl, Bool, true, false, not, ◌&&◌, ◌||◌, none, some, [], ◌∷◌, arith, if◌then◌else◌,
}
use mongosql.Prelude.Int.{ltb_ℤ}
use mongosql.Bytes.{Bytes, str, bytes_eq}
use mongosql.Bson.{Value, Values, Fields, null, bool, int64, arr, obj, field, end, is_nil, get}
use mongosql.Bson
use mongosql.Mongo.{Mongo, same, passes, is_plain, is_lt, is_le, is_gt, is_ge, no_null}
use mongosql.Expr.Where.{condition, junction, nor_filter, between_filter}
use mongosql.Expr.Convert.{Sign}

unfoldable pub sample_order : Value → Value → Sign
sample_order (int64 a) (int64 b) =
    if ltb_ℤ a b then Ordering.lt else if ltb_ℤ b a then Ordering.gt else Ordering.eq
sample_order _ _ = Ordering.eq

unfoldable pub row_value : Fields → Bytes → Value
unfolding get
row_value d path = elim (get path d) [ some v ↦ v | none ↦ null ]

member : Value → Values → Bool
unfolding sample_order
member x Bson.nil = false
member x (Bson.cons v vs) = same sample_order x v || member x vs

in_list : Value → Value → Bool
unfolding member
in_list x (arr vs) = member x vs
in_list x _ = false

-- One operator of a condition.
unfoldable pub test_op : Bytes → Value → Value → Bool
unfolding sample_order in_list str bytes_eq
test_op op w x =
    if bytes_eq op (str "$eq")
    then same sample_order x w
    else if bytes_eq op (str "$ne")
    then not (same sample_order x w)
    else if bytes_eq op (str "$lt")
    then passes sample_order is_lt x w
    else if bytes_eq op (str "$lte")
    then passes sample_order is_le x w
    else if bytes_eq op (str "$gt")
    then passes sample_order is_gt x w
    else if bytes_eq op (str "$gte")
    then passes sample_order is_ge x w
    else if bytes_eq op (str "$in")
    then in_list x w
    else if bytes_eq op (str "$nin")
    then not (in_list x w)
    else false

meets_all : Fields → Value → Bool
unfolding test_op
meets_all end x = true
meets_all (field op w fs) x = test_op op w x && meets_all fs x

meets : Value → Value → Bool
unfolding meets_all
meets (obj fs) x = meets_all fs x
meets _ x = false

unfoldable mutual
  unfolding meets row_value str bytes_eq

  pub filter_matches : Fields → Fields → Bool
  filter_matches end d = true
  filter_matches (field k v fs) d =
      (if bytes_eq k (str "$and")
        then all_match v d
        else if bytes_eq k (str "$or")
        then any_match v d
        else if bytes_eq k (str "$nor")
        then not (any_match v d)
        else meets v (row_value d k))
      && filter_matches fs d

  pub all_match : Value → Fields → Bool
  all_match (arr vs) d = each_matches vs d
  all_match (obj fs) d = filter_matches fs d
  all_match _ d = false

  pub any_match : Value → Fields → Bool
  any_match (arr vs) d = some_matches vs d
  any_match (obj fs) d = filter_matches fs d
  any_match _ d = false

  pub each_matches : Values → Fields → Bool
  each_matches Bson.nil d = true
  each_matches (Bson.cons v vs) d = all_match v d && each_matches vs d

  pub some_matches : Values → Fields → Bool
  some_matches Bson.nil d = false
  some_matches (Bson.cons v vs) d = any_match v d || some_matches vs d

plain-ne : (path rest : Bytes) → is_plain path ≡ true → bytes_eq path (b'$' ∷ rest) ≡ false
unfolding bytes_eq
plain-ne [] rest h = refl
plain-ne (c ∷ path) rest h = ground arith

and-true : (b : Bool) → (b && true) ≡ b
and-true true = refl
and-true false = refl

or-false : (b : Bool) → (b || false) ≡ b
or-false true = refl
or-false false = refl

-- A condition on a plain path is a test of the value there.
filter_matches-plain :
    (path : Bytes) (fs d : Fields)
    → is_plain path ≡ true
    → filter_matches (field path (obj fs) end) d ≡ meets_all fs (row_value d path)
unfolding filter_matches
filter_matches-plain path fs d h =
    rw
      (
        plain-ne path (b'a' ∷ b'n' ∷ b'd' ∷ []) h,
        plain-ne path (b'o' ∷ b'r' ∷ []) h,
        plain-ne path (b'n' ∷ b'o' ∷ b'r' ∷ []) h,
      )
      (and-true _)

-- A single operator is its test.
meets_all-single : (op : Bytes) (w x : Value) → meets_all (field op w end) x ≡ test_op op w x
unfolding meets_all
meets_all-single op w x = and-true _

pub one_condition :
    (path op : Bytes) (w : Value) (d : Fields)
    → is_plain path ≡ true
    → filter_matches (field path (obj (field op w end)) end) d ≡ test_op op w (row_value d path)
one_condition path op w d h =
    filter_matches-plain path (field op w end) d h ∙ meets_all-single op w (row_value d path)

pub store_and :
    (a b d : Fields)
    → filter_matches (junction "$and" a b) d ≡ (filter_matches a d && filter_matches b d)
unfolding filter_matches
store_and a b d = simp and-true

pub store_or :
    (a b d : Fields)
    → filter_matches (junction "$or" a b) d ≡ (filter_matches a d || filter_matches b d)
unfolding filter_matches
store_or a b d = simp (and-true, or-false)

pub store_nor : (a d : Fields) → filter_matches (nor_filter a) d ≡ not (filter_matches a d)
unfolding filter_matches
store_nor a d = simp (and-true, or-false)

no_null-member :
    (vs : Values) (x : Value) → is_nil x ≡ true → no_null vs ≡ true → member x vs ≡ false
unfolding member
no_null-member Bson.nil x h k = refl
no_null-member (Bson.cons v vs) x h k = ground (arith, no_null-member vs x)

pub store_range :
    (path : Bytes) (v w : Value) (d : Fields)
    → is_plain path ≡ true
    → filter_matches (between_filter path true v w) d
      ≡ (filter_matches (condition path "$gte" v) d && filter_matches (condition path "$lte" w) d)
unfolding test_op meets_all
store_range path v w d p = simp (filter_matches-plain path _ d p, and-true)

pub store_nin :
    (path : Bytes) (vs : Value) (d : Fields)
    → is_plain path ≡ true
    → filter_matches (condition path "$nin" vs) d ≡ not (filter_matches (condition path "$in" vs) d)
unfolding test_op
store_nin path vs d p =
    rw (one_condition path (str "$nin") vs d p, one_condition path (str "$in") vs d p)

pub store_in_null :
    (path : Bytes) (vs : Values) (d : Fields)
    → is_plain path ≡ true
    → no_null vs ≡ true
    → is_nil (row_value d path) ≡ true
    → filter_matches (condition path "$in" (arr vs)) d ≡ false
unfolding test_op
store_in_null path vs d p n k =
    rw (one_condition path (str "$in") (arr vs) d p) (no_null-member vs _ k n)

unfoldable pub store : Mongo
unfolding filter_matches test_op
store = record {
  Doc = Fields;
  look_up = row_value;
  order = sample_order;
  Comparable = λ d path v. Unit {0};
  matches = filter_matches;
  matches_and = store_and;
  matches_or = store_or;
  matches_nor = store_nor;
  matches_eq = λ path v d p c. one_condition path (str "$eq") v d p;
  matches_ne = λ path v d p c. one_condition path (str "$ne") v d p;
  matches_lt = λ path v d p n c. one_condition path (str "$lt") v d p;
  matches_lte = λ path v d p n c. one_condition path (str "$lte") v d p;
  matches_gt = λ path v d p n c. one_condition path (str "$gt") v d p;
  matches_gte = λ path v d p n c. one_condition path (str "$gte") v d p;
  matches_range = store_range;
  matches_nin = store_nin;
  matches_in_null = store_in_null;
}
