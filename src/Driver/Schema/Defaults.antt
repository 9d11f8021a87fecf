-- ===== src/Driver/Schema/Defaults.antt =====
-- driver/schema.go: the rows of ApplyDefaults and ApplyOnUpdate.
use mongosql.Bytes.{str, bytes_eq_refl}
use mongosql.Bson.{obj}
use mongosql.Driver.Schema.{apply_on_update}
use mathlib.Core.Path.{subst}
use mongosql.Driver.Schema.{
  ColumnDef, TableSchema, eval_default, default_columns, apply_defaults, on_update_columns,
}
use mongosql.Prelude.{
  ◌&&◌, [], ◌∷◌, ◌≡◌, List, arith, true, false, inl, inr, Bool, some, ◌||◌, Option-cases,
}
use mongosql.Bytes.{Bytes, bytes_eq, bytes_eq→≡}
use mongosql.Result.{Result-cases, Result, ok}
use mongosql.Runtime.{Runtime}
use mongosql.Bson.{Value, Fields, has, get, put, get-put, time}

has-put : (k j : Bytes) (v : Value) (d : Fields) → has j (put k v d) ≡ (bytes_eq k j || has j d)
has-put k j v d = ground (arith, get-put k j v d)

-- A key that is there keeps its value where another one that is missing is written.
get-put_missing :
    (k j : Bytes) (v w : Value) (d : Fields)
    → has k d ≡ false
    → get j d ≡ some w
    → get j (put k v d) ≡ some w
get-put_missing k j v w d h e = ground (arith, get-put k j v d, bytes_eq→≡ k j)

-- Does the schema give the column a value of its own?
abbrev pub fills : Bytes → List ColumnDef → Bool
fills name [] = false
fills name (c ∷ cs) = (bytes_eq c.name name && (c.auto_increment || c.has_default)) || fills name cs

-- The row keeps what it gives, and the columns that the schema fills have a value.
abbrev pub IsFilled : List ColumnDef → Fields → Fields → Type 0
IsFilled cs given' filled =
    ((k : Bytes) (w : Value) → get k given' ≡ some w → get k filled ≡ some w)
    × ((k : Bytes) → fills k cs ≡ true → has k filled ≡ true)

-- One filled document for each given one, in their order.
pub data AreFilled (cs : List ColumnDef) : List Fields → List Fields → Type 0 where
  none_left : AreFilled cs [] []
  one_more :
      {d f : Fields} {ds fs : List Fields}
      → IsFilled cs d f
      → AreFilled cs ds fs
      → AreFilled cs (d ∷ ds) (f ∷ fs)

module _ (rt : Runtime) (Db : Type 0) (next : Db → Result (Value × Db)) where
  default_columns-keeps :
      (cs : List ColumnDef) (d : Fields) (db : Db) (r : Fields × Db) (k : Bytes) (w : Value)
      → default_columns rt Db next cs d db ≡ ok r
      → get k d ≡ some w
      → get k r.0 ≡ some w
  unfolding default_columns
  default_columns-keeps [] d db r k w e h = ground arith
  default_columns-keeps (c ∷ cs) d db r k w e h = elim (Result-cases (next db)) [
    | inl ((v, db'), given') ↦ ground (
      arith,
      default_columns-keeps cs d db r k w,
      default_columns-keeps cs (put c.name v d) db' r k w,
      default_columns-keeps cs (put c.name (eval_default rt c) d) db r k w,
      get-put_missing c.name k v w d,
      get-put_missing c.name k (eval_default rt c) w d,
    )
    | inr (x, failed) ↦ ground (
      arith,
      default_columns-keeps cs d db r k w,
      default_columns-keeps cs (put c.name (eval_default rt c) d) db r k w,
      get-put_missing c.name k (eval_default rt c) w d,
    )
  ]

  has-some : (k : Bytes) (d : Fields) → has k d ≡ true → (w : Value) × (get k d ≡ some w)
  has-some k d h = elim (Option-cases (get k d)) [
    | inl missing ↦ absurd (ground arith)
    | inr (w, e) ↦ (w, e)
  ]

  default_columns-keeps_key :
      (cs : List ColumnDef) (d : Fields) (db : Db) (r : Fields × Db) (k : Bytes)
      → default_columns rt Db next cs d db ≡ ok r
      → has k d ≡ true
      → has k r.0 ≡ true
  default_columns-keeps_key cs d db r k e h =
      let (w, there) = has-some k d h in ground (arith, default_columns-keeps cs d db r k w e there)

  default_columns-fills :
      (cs : List ColumnDef) (d : Fields) (db : Db) (r : Fields × Db) (k : Bytes)
      → default_columns rt Db next cs d db ≡ ok r
      → fills k cs ≡ true
      → has k r.0 ≡ true
  unfolding default_columns
  default_columns-fills [] d db r k e h = ground arith
  default_columns-fills (c ∷ cs) d db r k e h = elim (Result-cases (next db)) [
    | inl ((v, db'), given') ↦ ground (
      arith,
      default_columns-fills cs d db r k,
      default_columns-fills cs (put c.name v d) db' r k,
      default_columns-fills cs (put c.name (eval_default rt c) d) db r k,
      default_columns-keeps_key cs d db r k,
      default_columns-keeps_key cs (put c.name v d) db' r k,
      default_columns-keeps_key cs (put c.name (eval_default rt c) d) db r k,
      has-put c.name k v d,
      has-put c.name k (eval_default rt c) d,
      bytes_eq→≡ c.name k,
    )
    | inr (x, failed) ↦ ground (
      arith,
      default_columns-fills cs d db r k,
      default_columns-fills cs (put c.name (eval_default rt c) d) db r k,
      default_columns-keeps_key cs d db r k,
      default_columns-keeps_key cs (put c.name (eval_default rt c) d) db r k,
      has-put c.name k (eval_default rt c) d,
      bytes_eq→≡ c.name k,
    )
  ]

  apply_defaults-rows :
      (schema : TableSchema) (ds : List Fields) (db : Db) (r : List Fields × Db)
      → apply_defaults rt Db next schema ds db ≡ ok r
      → AreFilled schema.columns ds r.0
  unfolding apply_defaults
  apply_defaults-rows schema [] db r e =
      subst (AreFilled schema.columns []) (ground arith) none_left
  apply_defaults-rows schema (d ∷ ds) db r e =
      elim (Result-cases (default_columns rt Db next schema.columns d db)) [
        | inr (x, failed) ↦ absurd (ground arith)
        | inl ((f, db'), first) ↦ elim (Result-cases (apply_defaults rt Db next schema ds db')) [
          | inr (x, failed) ↦ absurd (ground arith)
          | inl ((fs, db''), others) ↦ subst (AreFilled schema.columns (d ∷ ds)) (ground arith) (
              one_more
                (
                  λ k w. default_columns-keeps schema.columns d db (f, db') k w first,
                  λ k. default_columns-fills schema.columns d db (f, db') k first,
                )
                (apply_defaults-rows schema ds db' (fs, db'') others))
        ]
      ]

-- The rows that ApplyDefaults returns are the given ones, in their order: every value that a row
-- gives is kept, and every column with AUTO_INCREMENT or a default has a value.
pub apply_defaults-AreFilled :
    (rt : Runtime) (Db : Type 0) (next : Db → Result (Value × Db)) (schema : TableSchema)
    (ds : List Fields) (db : Db) (r : List Fields × Db)
    → apply_defaults rt Db next schema ds db ≡ ok r
    → AreFilled schema.columns ds r.0
apply_defaults-AreFilled rt Db next schema ds db r e =
    apply_defaults-rows rt Db next schema ds db r e

on_update_columns-keeps :
    (rt : Runtime) (cs : List ColumnDef) (d : Fields) (k : Bytes) (w : Value)
    → get k d ≡ some w
    → get k (on_update_columns rt cs d) ≡ some w
unfolding on_update_columns
on_update_columns-keeps rt [] d k w h = h
on_update_columns-keeps rt (c ∷ cs) d k w h = ground (
  arith,
  on_update_columns-keeps rt cs d k w,
  on_update_columns-keeps rt cs (put c.name (time rt.now) d) k w,
  get-put_missing c.name k (time rt.now) w d,
)

-- ApplyOnUpdate changes nothing but `$set`, and there it keeps every value that the statement sets.
pub apply_on_update-keeps :
    (rt : Runtime) (schema : TableSchema) (update d : Fields) (k : Bytes) (w : Value)
    → get (str "$set") update ≡ some (obj d)
    → get k d ≡ some w
    → (d' : Fields) × (get (str "$set") (apply_on_update rt schema update) ≡ some (obj d'))
      × (get k d' ≡ some w)
      × ((j : Bytes)
          → bytes_eq (str "$set") j ≡ false
          → get j (apply_on_update rt schema update) ≡ get j update)
unfolding apply_on_update
apply_on_update-keeps rt schema update d k w e h = (
  on_update_columns rt schema.columns d,
  ground (
    arith,
    get-put (str "$set") (str "$set") (obj (on_update_columns rt schema.columns d)) update,
    bytes_eq_refl (str "$set"),
  ),
  on_update_columns-keeps rt schema.columns d k w h,
  λ j n.
      ground (arith, get-put (str "$set") j (obj (on_update_columns rt schema.columns d)) update),
)
