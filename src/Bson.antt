-- ===== src/Bson.antt =====
-- Go values held in an `interface{}`: what a translated statement is made of. A bson.M, a bson.D
-- and a map[string]interface{} are lists of fields, in the order of the writes.
use mongosql.Prelude.{
  ℕ, String, ◌≡◌, refl, Bool, true, false, Option, none, some, List, [], ◌∷◌, arith, if◌then◌else◌,
}
use mongosql.Prelude.Int.{ℤ}
use mongosql.Bytes.{Bytes, str, bytes_eq, bytes_eq→≡, bytes_eq_refl}

-- `float64` holds the 64 bits of the number, `time` the nanoseconds since 1970.
mutual
  pub data Value : Type 0 where
    null : Value
    bool : Bool → Value
    int : ℤ → Value
    int64 : ℤ → Value
    float64 : ℕ → Value
    text : Bytes → Value
    time : ℤ → Value
    regex : Bytes → Bytes → Value
    -- a bson.ObjectID, as its hexadecimal text
    object_id : Bytes → Value
    arr : Values → Value
    obj : Fields → Value

  pub data Values : Type 0 where
    nil : Values
    cons : Value → Values → Values

  pub data Fields : Type 0 where
    end : Fields
    field : Bytes → Value → Fields → Fields

abbrev pub of_list : List Value → Values
of_list [] = nil
of_list (v ∷ vs) = cons v (of_list vs)

abbrev pub pair : Value → Value → Value
pair a b = arr (cons a (cons b nil))

abbrev pub triple : Value → Value → Value → Value
triple a b c = arr (cons a (cons b (cons c nil)))

-- A map with one key.
abbrev pub single : Bytes → Value → Fields
single k v = field k v end

-- `m(key, val)`, and a literal map with the one key `key`.
abbrev pub m : String → Value → Value
m key v = obj (field (str key) v end)

abbrev pub is_nil : Value → Bool
is_nil null = true
is_nil _ = false

abbrev pub is_empty : Fields → Bool
is_empty end = true
is_empty (field k v fs) = false

-- `map[key]`, and the test `_, ok := map[key]`.
unfoldable pub get : Bytes → Fields → Option Value
get k end = none
get k (field j v fs) = if bytes_eq j k then some v else get k fs

abbrev pub has : Bytes → Fields → Bool
has k fs = elim (get k fs) [ none ↦ false | some v ↦ true ]

-- `map[key] = val`.
unfoldable pub put : Bytes → Value → Fields → Fields
put k v end = field k v end
put k v (field j w fs) = if bytes_eq j k then field j v fs else field j w (put k v fs)

-- `delete(map, key)`.
unfoldable pub delete : Bytes → Fields → Fields
delete k end = end
delete k (field j w fs) = let rest = delete k fs in if bytes_eq j k then rest else field j w rest

abbrev pub append_fields : Fields → Fields → Fields
append_fields end gs = gs
append_fields (field k v fs) gs = field k v (append_fields fs gs)

-- A write is read back, and no other key changes.
pub get-put :
    (k j : Bytes) (v : Value) (fs : Fields)
    → get j (put k v fs) ≡ (if bytes_eq k j then some v else get j fs)
unfolding get put
get-put k j v end = refl
get-put k j v (field i w fs) = ground (
  arith,
  bytes_eq→≡ i k,
  bytes_eq→≡ i j,
  bytes_eq→≡ k j,
  bytes_eq_refl i,
  bytes_eq_refl k,
  get-put k j v fs,
)
