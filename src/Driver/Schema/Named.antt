-- ===== src/Driver/Schema/Named.antt =====
-- driver/schema.go: the schemas of the collections and the names that they are stored under.
use mongosql.Bytes.{bytes_eq→≡, bytes_eq, Bytes}
use mongosql.Prelude.{[], sym, subst, ◌∷◌, some, true, ◌≡◌, arith, false, Bool}
use mongosql.Driver.Schema.Cache.{
  opened, opened-IsCoherent, find_stored-without_same, IsCoherent, dot_free, save-IsCoherent,
  get_schema-IsCoherent, delete_schema-IsCoherent, find_stored-without, bytes_eq-cache_key,
}
use mongosql.Driver.Schema.{
  TableSchema, SchemaStore, Stored, find_schema, find_stored, save, get_schema, delete_schema,
  stored_without, cache_key,
}

-- A schema is stored under the name of its table.
unfoldable pub IsNamed : Stored → Type 0
IsNamed stored =
    (db table : Bytes) (s : TableSchema)
    → find_stored db table stored ≡ some s
    → bytes_eq s.table_name table ≡ true

-- The cache is coherent, and the schemas are stored under their names.
unfoldable pub IsSound : SchemaStore → Type 0
IsSound ss = IsCoherent ss × IsNamed ss.stored

pub IsNamed-push :
    (db : Bytes) (s : TableSchema) (stored : Stored)
    → IsNamed stored
    → IsNamed (((db, s.table_name), s) ∷ stored)
unfolding IsNamed find_stored
IsNamed-push db s stored h e y r f = ground (arith, h e y r)

pub IsNamed-without :
    (db table : Bytes) (stored : Stored) → IsNamed stored → IsNamed (stored_without db table stored)
unfolding IsNamed
IsNamed-without db table stored h e y r f = ground (
  arith,
  h e y r,
  f,
  find_stored-without db e table y stored,
  find_stored-without_same db table stored,
  bytes_eq→≡ db e,
  bytes_eq→≡ table y,
)

pub save-IsSound :
    (written : Bool) (db : Bytes) (schema : TableSchema) (ss : SchemaStore)
    → dot_free db ≡ true
    → IsSound ss
    → IsSound (save written db schema ss).0
unfolding IsSound save
save-IsSound true db schema ss n (c, m) =
    (save-IsCoherent true db schema ss n c, IsNamed-push db schema ss.stored m)
save-IsSound false db schema ss n (c, m) = (c, m)

pub get_schema-keeps_stored :
    (reachable : Bool) (db table : Bytes) (ss : SchemaStore)
    → (get_schema reachable db table ss).0.stored ≡ ss.stored
unfolding get_schema
get_schema-keeps_stored reachable db table ss = ground arith

pub get_schema-IsSound :
    (reachable : Bool) (db table : Bytes) (ss : SchemaStore)
    → dot_free db ≡ true
    → IsSound ss
    → IsSound (get_schema reachable db table ss).0
unfolding IsSound
get_schema-IsSound reachable db table ss n (c, m) = (
  get_schema-IsCoherent reachable db table ss n c,
  subst IsNamed (sym (get_schema-keeps_stored reachable db table ss)) m,
)

pub delete_schema-IsSound :
    (deleted : Bool) (db table : Bytes) (ss : SchemaStore)
    → IsSound ss
    → IsSound (delete_schema deleted db table ss)
unfolding IsSound delete_schema
delete_schema-IsSound true db table ss (c, m) =
    (delete_schema-IsCoherent true db table ss c, IsNamed-without db table ss.stored m)
delete_schema-IsSound false db table ss (c, m) = (delete_schema-IsCoherent false db table ss c, m)

-- What Get finds has the name that it was asked for.
pub get_schema-named :
    (reachable : Bool) (db table : Bytes) (ss : SchemaStore) (s : TableSchema)
    → dot_free db ≡ true
    → IsSound ss
    → (get_schema reachable db table ss).1 ≡ some s
    → bytes_eq s.table_name table ≡ true
unfolding IsSound get_schema IsCoherent IsNamed
get_schema-named reachable db table ss s n (c, m) f =
    ground (arith, f, c db table s n, m db table s)

-- A schema that is changed in the cache and then written.
pub rewritten-IsSound :
    (db table : Bytes) (s : TableSchema) (ss : SchemaStore)
    → dot_free db ≡ true
    → bytes_eq s.table_name table ≡ true
    → IsSound ss
    → IsSound (save true db s (record ss { cache = (cache_key db table, s) ∷ ss.cache })).0
unfolding save IsSound IsCoherent find_schema find_stored
rewritten-IsSound db table s ss n named (c, m) = (
  λ e y r k f. ground (
    arith,
    c e y r k,
    bytes_eq→≡ s.table_name table,
    bytes_eq-cache_key db e s.table_name y,
    bytes_eq-cache_key db e table y,
  ),
  IsNamed-push db s ss.stored m,
)

-- A new store over no schemas.
pub opened-IsSound : IsSound (opened [])
unfolding IsSound IsNamed find_stored
opened-IsSound = (opened-IsCoherent [], λ db table s f. absurd (ground arith))
