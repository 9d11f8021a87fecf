-- ===== src/Expr/Convert.antt =====
-- translator/internal/expr/expr.go: literals, and the conversions between Go values.
use Prim.Native.Nat.{compare, Ordering}
use mongosql.Prelude.{not, ℕ, Bool, true, false, [], ◌∷◌, if◌then◌else◌}
use mongosql.Prelude.Int.{is_zero, ℤ, pos}
use mongosql.Bytes.{str, Bytes}
use mongosql.Ast.{LitType, str_val, int_val, float_val, decimal_val}
use mongosql.Bson.{null, time, Value, bool, int, int64, float64, text}
use mongosql.Result.{err, Result, ok, fail}
use mongosql.Runtime.{Runtime}
use mongosql.Expr.Number.{format_int, parse_int}

-- `-1`, `0` and `1` of the comparisons.
abbrev pub Sign : Type 0
Sign = Ordering

-- strings.Compare
unfoldable pub compare_bytes : Bytes → Bytes → Sign
compare_bytes [] [] = Ordering.eq
compare_bytes [] (b ∷ y) = Ordering.lt
compare_bytes (a ∷ x) [] = Ordering.gt
compare_bytes (a ∷ x) (b ∷ y) = elim (compare a b) [
  | Ordering.lt ↦ Ordering.lt
  | Ordering.gt ↦ Ordering.gt
  | Ordering.eq ↦ compare_bytes x y
]

abbrev pub sign_eq : Sign → Sign → Bool
sign_eq Ordering.lt Ordering.lt = true
sign_eq Ordering.eq Ordering.eq = true
sign_eq Ordering.gt Ordering.gt = true
sign_eq _ _ = false

abbrev pub int64_of_bool : Bool → ℤ
int64_of_bool b = if b then pos 1 else pos 0

unfoldable pub bool_to_int : Bool → ℤ
bool_to_int b = if b then pos 1 else pos 0

-- The Go values of type int, int32 or int64.
unfoldable pub is_integer_value : Value → Bool
is_integer_value (int n) = true
is_integer_value (int64 n) = true
is_integer_value _ = false

module _ (rt : Runtime) where
  unfoldable pub literal_value : LitType → Bytes → Value
  unfolding parse_int
  literal_value str_val val = text val
  literal_value int_val val = let (n, valid) = parse_int val in if valid then int64 n else text val
  literal_value float_val val =
      let (f, valid) = rt.parse_float val in if valid then float64 f else text val
  literal_value decimal_val val =
      let (f, valid) = rt.parse_float val in if valid then float64 f else text val
  literal_value _ val = text val

  unfoldable pub to_int64 : Value → Result ℤ
  unfolding parse_int
  to_int64 (int64 x) = ok x
  to_int64 (int x) = ok x
  to_int64 (float64 x) = ok (rt.int_of_float x)
  to_int64 (text x) =
      let (n, valid) = parse_int x in if valid then ok n else fail "strconv.ParseInt"
  to_int64 (bool b) = ok (int64_of_bool b)
  to_int64 _ = fail "cannot convert %T to int64"

  unfoldable pub to_float64 : Value → Result ℕ
  to_float64 (float64 x) = ok x
  to_float64 (int64 x) = ok (rt.float_of_int x)
  to_float64 (int x) = ok (rt.float_of_int x)
  to_float64 (text x) =
      let (f, valid) = rt.parse_float x in if valid then ok f else fail "strconv.ParseFloat"
  to_float64 _ = fail "cannot convert %T to float64"

  unfoldable pub to_string : Value → Bytes
  unfolding format_int str
  to_string (text x) = x
  to_string (int64 x) = format_int x
  to_string (int x) = format_int x
  to_string (float64 x) = rt.format_float x
  to_string (bool b) = if b then str "1" else str "0"
  to_string (time t) = rt.format_datetime t
  to_string null = []
  to_string v = rt.sprint v

  abbrev float_sign : ℕ → ℕ → Sign
  float_sign a b =
      if rt.float_lt a b then Ordering.lt else if rt.float_lt b a then Ordering.gt else Ordering.eq

  abbrev compare_floats : Result ℕ → Result ℕ → Sign → Sign
  compare_floats (ok a) (ok b) otherwise = float_sign a b
  compare_floats _ _ otherwise = otherwise

  -- Numbers, and texts that read as numbers, by value; everything else by its text.
  unfoldable pub compare_any : Value → Value → Sign
  unfolding to_float64 to_string compare_bytes
  compare_any a b =
      compare_floats (to_float64 a) (to_float64 b) (compare_bytes (to_string a) (to_string b))

  unfoldable pub is_truthy : Value → Bool
  is_truthy null = false
  is_truthy (bool b) = b
  is_truthy (int64 x) = not (is_zero x)
  is_truthy (float64 x) = not (rt.float_is_zero x)
  is_truthy (text x) =
      let (n, valid) = rt.parse_float x in
      if valid then not (rt.float_is_zero n) else elim x [ [] ↦ false | _ ∷ _ ↦ true ]
  is_truthy _ = true

  -- `x, _ := toInt64(v)` and `x, _ := toFloat64(v)`: the number that comes with an error, too.
  unfoldable pub int_of : Value → ℤ
  unfolding parse_int to_int64
  int_of (text x) = (parse_int x).0
  int_of v = elim (to_int64 v) [ ok n ↦ n | err e ↦ pos 0 ]

  unfoldable pub float_of : Value → ℕ
  unfolding to_float64
  float_of (text x) = (rt.parse_float x).0
  float_of v = elim (to_float64 v) [ ok f ↦ f | err e ↦ 0 ]
