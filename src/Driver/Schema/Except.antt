-- ===== src/Driver/Schema/Except.antt =====
-- driver/schema.go: a schema store that is sound but for one table.
use mongosql.Bytes.{bytes_eq→≡, bytes_eq, Bytes}
use mongosql.Prelude.{◌&&◌, sym, subst, ◌∷◌, some, true, ◌≡◌, arith, false, Bool}
use mongosql.Driver.Schema.Cache.{IsCoherent, dot_free, find_stored-without, bytes_eq-cache_key}
use mongosql.Driver.Schema.{
  TableSchema, SchemaStore, find_schema, find_stored, save, get_schema, delete_schema, cache_key,
}
use mongosql.Prelude.{none, ◌&&◌}
use mongosql.Bytes.{bytes_eq_refl}
use mongosql.Driver.Schema.Cache.{find_schema-without, find_schema-without_same}
use mongosql.Driver.Schema.Named.{
  IsNamed, IsSound, IsNamed-push, IsNamed-without, get_schema-keeps_stored,
}

-- The store is sound but for what the cache has under the name of one table.
unfoldable pub IsSoundBut : Bytes → Bytes → SchemaStore → Type 0
IsSoundBut db table ss =
    IsNamed ss.stored
    × ((e y : Bytes) (r : TableSchema)
        → dot_free e ≡ true
        → (bytes_eq db e && bytes_eq table y) ≡ false
        → find_schema (cache_key e y) ss.cache ≡ some r
        → find_stored e y ss.stored ≡ some r)

pub IsSound-IsSoundBut : (db table : Bytes) (ss : SchemaStore) → IsSound ss → IsSoundBut db table ss
unfolding IsSound IsSoundBut IsCoherent
IsSound-IsSoundBut db table ss (c, m) = (m, λ e y r k x f. c e y r k f)

pub cached-IsSoundBut :
    (db table : Bytes) (s : TableSchema) (ss : SchemaStore)
    → dot_free db ≡ true
    → IsSoundBut db table ss
    → IsSoundBut db table (record ss { cache = (cache_key db table, s) ∷ ss.cache })
unfolding IsSoundBut find_schema
cached-IsSoundBut db table s ss n (m, c) =
    (m, λ e y r k x f. ground (arith, c e y r k x, x, f, bytes_eq-cache_key db e table y))

-- Once the schema of the table is written, the store is sound.
pub written-IsSound :
    (db table : Bytes) (s : TableSchema) (ss : SchemaStore)
    → dot_free db ≡ true
    → bytes_eq s.table_name table ≡ true
    → IsSoundBut db table ss
    → IsSound (save true db s ss).0
unfolding save IsSoundBut IsSound IsCoherent find_schema find_stored
written-IsSound db table s ss n named (m, c) = (
  λ e y r k f.
      ground
        (arith, c e y r k, bytes_eq→≡ s.table_name table, bytes_eq-cache_key db e s.table_name y),
  IsNamed-push db s ss.stored m,
)

pub save-IsSoundBut :
    (db table : Bytes) (s : TableSchema) (ss : SchemaStore)
    → dot_free db ≡ true
    → IsSoundBut db table ss
    → IsSoundBut db table (save true db s ss).0
unfolding save IsSoundBut find_schema find_stored
save-IsSoundBut db table s ss n (m, c) = (
  IsNamed-push db s ss.stored m,
  λ e y r k x f. ground (arith, c e y r k x, bytes_eq-cache_key db e s.table_name y),
)

delete_schema-IsNamed :
    (deleted : Bool) (db table : Bytes) (ss : SchemaStore)
    → IsNamed ss.stored
    → IsNamed (delete_schema deleted db table ss).stored
unfolding delete_schema
delete_schema-IsNamed true db table ss m = IsNamed-without db table ss.stored m
delete_schema-IsNamed false db table ss m = m

-- Once the table is deleted, the store is sound.
pub deleted-IsSound :
    (deleted : Bool) (db table : Bytes) (ss : SchemaStore)
    → dot_free db ≡ true
    → IsSoundBut db table ss
    → IsSound (delete_schema deleted db table ss)
unfolding delete_schema IsSoundBut IsSound IsCoherent
deleted-IsSound deleted db table ss n (m, c) = (
  λ e y r k f. ground (
    arith,
    c e y r k,
    f,
    bytes_eq-cache_key db e table y,
    bytes_eq→≡ (cache_key db table) (cache_key e y),
    bytes_eq_refl (cache_key e y),
    find_schema-without (cache_key db table) (cache_key e y) ss.cache,
    find_schema-without_same (cache_key e y) ss.cache,
    find_stored-without db e table y ss.stored,
    bytes_eq→≡ db e,
    bytes_eq→≡ table y,
  ),
  delete_schema-IsNamed deleted db table ss m,
)

-- Where the cache has nothing under the name, the store is sound.
uncached-IsSound :
    (db table : Bytes) (ss : SchemaStore)
    → dot_free db ≡ true
    → IsSoundBut db table ss
    → find_schema (cache_key db table) ss.cache ≡ none
    → IsSound ss
unfolding IsSoundBut IsSound IsCoherent
uncached-IsSound db table ss n (m, c) absent =
    (λ e y r k f. ground (arith, c e y r k, f, absent, bytes_eq→≡ db e, bytes_eq→≡ table y), m)

pub get_schema-IsSoundBut :
    (reachable : Bool) (db table : Bytes) (ss : SchemaStore)
    → dot_free db ≡ true
    → IsSoundBut db table ss
    → IsSoundBut db table (get_schema reachable db table ss).0
unfolding get_schema IsSoundBut find_schema
get_schema-IsSoundBut reachable db table ss n (m, c) = (
  subst IsNamed (sym (get_schema-keeps_stored reachable db table ss)) m,
  λ e y r k x f. ground (arith, c e y r k x, bytes_eq-cache_key db e table y),
)

get_schema-absent :
    (reachable : Bool) (db table : Bytes) (ss : SchemaStore)
    → (get_schema reachable db table ss).1 ≡ none
    → ((get_schema reachable db table ss).0 ≡ ss)
      × (find_schema (cache_key db table) ss.cache ≡ none)
unfolding get_schema
get_schema-absent reachable db table ss f = ground (arith, f)

-- A store in which the table is not found is sound.
pub absent-IsSound :
    (reachable : Bool) (db table : Bytes) (ss : SchemaStore)
    → dot_free db ≡ true
    → IsSoundBut db table ss
    → (get_schema reachable db table ss).1 ≡ none
    → IsSound (get_schema reachable db table ss).0
absent-IsSound reachable db table ss n but f =
    let (same, absent) = get_schema-absent reachable db table ss f in
    subst IsSound (sym same) (uncached-IsSound db table ss n but absent)
