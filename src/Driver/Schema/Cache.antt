-- ===== src/Driver/Schema/Cache.antt =====
-- driver/schema.go: the cache of the schema store and the collections behind it.
use mongosql.Driver.Schema.{
  TableSchema, Table, Stored, find_schema, find_stored, without, stored_without, SchemaStore,
  cache_key, save, get_schema, delete_schema,
}
use mongosql.Prelude.{
  [], ◌∷◌, ◌≡◌, refl, List, arith, true, false, ◌⊎◌, inl, inr, Bool, some, none, Option-cases, ◌&&◌,
  not, ◌==◌,
}
use mongosql.Bytes.{Bytes, bytes_eq, bytes_eq→≡, bytes_eq_refl}

-- A name of a database has no dot.
abbrev pub dot_free : Bytes → Bool
dot_free [] = true
dot_free (c ∷ s) = not (c == b'.') && dot_free s

-- What the cache says of a table is what the collection of its database says.
unfoldable pub IsCoherent : SchemaStore → Type 0
IsCoherent ss =
    (db table : Bytes) (s : TableSchema)
    → dot_free db ≡ true
    → find_schema (cache_key db table) ss.cache ≡ some s
    → find_stored db table ss.stored ≡ some s

pub bytes_eq-cache_key :
    (d e x y : Bytes)
    → dot_free d ≡ true
    → dot_free e ≡ true
    → bytes_eq (cache_key d x) (cache_key e y) ≡ (bytes_eq d e && bytes_eq x y)
unfolding cache_key bytes_eq
bytes_eq-cache_key [] [] x y h k = ground arith
bytes_eq-cache_key [] (c ∷ e) x y h k = ground arith
bytes_eq-cache_key (c ∷ d) [] x y h k = ground arith
bytes_eq-cache_key (c ∷ d) (b ∷ e) x y h k = ground (arith, bytes_eq-cache_key d e x y)

pub find_schema-without :
    (key other : Bytes) (t : Table)
    → (bytes_eq key other ≡ true) ⊎ (find_schema other (without key t) ≡ find_schema other t)
unfolding find_schema without
find_schema-without key other [] = inr refl
find_schema-without key other ((k, s) ∷ t) =
    ground (arith, find_schema-without key other t, bytes_eq→≡ k key, bytes_eq→≡ k other)

pub find_schema-without_same : (key : Bytes) (t : Table) → find_schema key (without key t) ≡ none
unfolding find_schema without
find_schema-without_same key [] = refl
find_schema-without_same key ((k, s) ∷ t) = ground (arith, find_schema-without_same key t)

pub find_stored-without :
    (d e x y : Bytes) (r : Stored)
    → (bytes_eq d e && bytes_eq x y ≡ true)
      ⊎ (find_stored e y (stored_without d x r) ≡ find_stored e y r)
unfolding find_stored stored_without
find_stored-without d e x y [] = inr refl
find_stored-without d e x y (((a, t), s) ∷ r) = ground (
  arith,
  find_stored-without d e x y r,
  bytes_eq→≡ a d,
  bytes_eq→≡ a e,
  bytes_eq→≡ t x,
  bytes_eq→≡ t y,
)

pub save-IsCoherent :
    (written : Bool) (db : Bytes) (schema : TableSchema) (ss : SchemaStore)
    → dot_free db ≡ true
    → IsCoherent ss
    → IsCoherent (save written db schema ss).0
unfolding save find_schema find_stored IsCoherent
save-IsCoherent true db schema ss n h other table s m e =
    ground (arith, h other table s, bytes_eq-cache_key db other schema.table_name table)
save-IsCoherent false db schema ss n h other table s m e = h other table s m e

pub get_schema-IsCoherent :
    (reachable : Bool) (db name : Bytes) (ss : SchemaStore)
    → dot_free db ≡ true
    → IsCoherent ss
    → IsCoherent (get_schema reachable db name ss).0
unfolding get_schema find_schema IsCoherent
get_schema-IsCoherent reachable db name ss n h other table s m e = ground (
  arith,
  h other table s,
  bytes_eq-cache_key db other name table,
  bytes_eq→≡ name table,
  bytes_eq→≡ db other,
)

pub find_stored-without_same :
    (db table : Bytes) (r : Stored) → find_stored db table (stored_without db table r) ≡ none
unfolding find_stored stored_without
find_stored-without_same db table [] = refl
find_stored-without_same db table (((d, t), s) ∷ r) =
    ground (arith, find_stored-without_same db table r)

pub delete_schema-IsCoherent :
    (deleted : Bool) (db name : Bytes) (ss : SchemaStore)
    → IsCoherent ss
    → IsCoherent (delete_schema deleted db name ss)
unfolding delete_schema IsCoherent
delete_schema-IsCoherent deleted db name ss h other table s m e = ground (
  arith,
  h other table s,
  bytes_eq→≡ (cache_key db name) (cache_key other table),
  bytes_eq→≡ name table,
  bytes_eq→≡ db other,
  bytes_eq_refl (cache_key other table),
  find_schema-without (cache_key db name) (cache_key other table) ss.cache,
  find_stored-without db other name table ss.stored,
  find_schema-without_same (cache_key other table) ss.cache,
)

-- With a database that answers, a coherent cache is transparent: get_schema gives what the
-- collection holds.
pub get_schema-stored :
    (db name : Bytes) (ss : SchemaStore)
    → dot_free db ≡ true
    → IsCoherent ss
    → (get_schema true db name ss).1 ≡ find_stored db name ss.stored
unfolding get_schema IsCoherent
get_schema-stored db name ss n h = elim (Option-cases (find_schema (cache_key db name) ss.cache)) [
  | inl missing ↦ ground arith
  | inr (s, cached) ↦ ground (arith, h db name s)
]

-- The operations of a store on a database, each with the answer of the server.
pub data Operation : Type 0 where
  saves : Bool → Bytes → TableSchema → Operation
  reads deletes : Bool → Bytes → Bytes → Operation

abbrev pub database_of : Operation → Bytes
database_of (saves written db schema) = db
database_of (reads reachable db name) = db
database_of (deletes deleted db name) = db

abbrev pub all_dot_free : List Operation → Bool
all_dot_free [] = true
all_dot_free (o ∷ os) = dot_free (database_of o) && all_dot_free os

unfoldable pub perform : Operation → SchemaStore → SchemaStore
unfolding save get_schema delete_schema
perform (saves written db schema) ss = (save written db schema ss).0
perform (reads reachable db name) ss = (get_schema reachable db name ss).0
perform (deletes deleted db name) ss = delete_schema deleted db name ss

unfoldable pub perform_all : List Operation → SchemaStore → SchemaStore
unfolding perform
perform_all [] ss = ss
perform_all (o ∷ os) ss = perform_all os (perform o ss)

perform-IsCoherent :
    (o : Operation) (ss : SchemaStore)
    → dot_free (database_of o) ≡ true
    → IsCoherent ss
    → IsCoherent (perform o ss)
unfolding perform
perform-IsCoherent (saves written db schema) ss n h = save-IsCoherent written db schema ss n h
perform-IsCoherent (reads reachable db name) ss n h = get_schema-IsCoherent reachable db name ss n h
perform-IsCoherent (deletes deleted db name) ss n h = delete_schema-IsCoherent deleted db name ss h

perform_all-IsCoherent :
    (os : List Operation) (ss : SchemaStore)
    → all_dot_free os ≡ true
    → IsCoherent ss
    → IsCoherent (perform_all os ss)
unfolding perform_all
perform_all-IsCoherent [] ss n h = h
perform_all-IsCoherent (o ∷ os) ss n h =
    perform_all-IsCoherent os (perform o ss) (ground arith)
      (perform-IsCoherent o ss (ground arith) h)

-- A new store: nothing is cached yet.
abbrev pub opened : Stored → SchemaStore
opened stored = record { cache = []; stored = stored }

pub opened-IsCoherent : (stored : Stored) → IsCoherent (opened stored)
unfolding IsCoherent find_schema
opened-IsCoherent stored db table s n e = absurd (ground arith)

-- Whatever was saved, read and deleted since the store was opened, in databases whose names have
-- no dot, and whichever of these the server refused, a lookup that the server answers gives what
-- the collection holds: the cache never hides it.
pub get_schema-perform_all :
    (os : List Operation) (stored : Stored) (db name : Bytes)
    → all_dot_free os ≡ true
    → dot_free db ≡ true
    → (get_schema true db name (perform_all os (opened stored))).1
      ≡ find_stored db name (perform_all os (opened stored)).stored
get_schema-perform_all os stored db name n m =
    get_schema-stored db name (perform_all os (opened stored)) m
      (perform_all-IsCoherent os (opened stored) n (opened-IsCoherent stored))
