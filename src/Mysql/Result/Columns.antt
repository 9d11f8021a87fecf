-- ===== src/Mysql/Result/Columns.antt =====
-- mysql/result.go: the columns that resultToMySQL collects from the rows.
use mongosql.Sel.Find.{id_key}
use mongosql.Bytes.{bytes_eq_refl, bytes_eq→≡, bytes_eq, Bytes}
use mongosql.Bson.{end, field, has, get, Fields}
use mongosql.Mysql.Result.{
  collect_columns, text_lt, among, add_keys, all_keys, insert_sorted, sort_strings, without_id,
  or_placeholder,
}
use mongosql.Prelude.{
  drop, ◌∙◌, ap, if◌then◌else◌, false, ◌||◌, ◌&&◌, not, ◌≡◌, true, Bool, ◌∷◌, refl, arith, [], List,
}

-- Does a row have the key?
unfoldable pub some_has : Bytes → List Fields → Bool
unfolding get
some_has k [] = false
some_has k (r ∷ rows) = has k r || some_has k rows

-- Each text is less than the next: so no text occurs twice.
unfoldable pub ascends : List Bytes → Bool
unfolding text_lt
ascends [] = true
ascends (k ∷ []) = true
ascends (k ∷ c ∷ cs) = text_lt k c && ascends (c ∷ cs)

unfoldable pub starts_with_id : List Bytes → Bool
unfolding bytes_eq
starts_with_id [] = false
starts_with_id (k ∷ ks) = bytes_eq k id_key

distinct : List Bytes → Bool
unfolding among
distinct [] = true
distinct (k ∷ ks) = not (among k ks) && distinct ks

text_lt-total : (s t : Bytes) → text_lt s t ≡ false → bytes_eq s t ≡ false → text_lt t s ≡ true
unfolding text_lt bytes_eq
text_lt-total [] [] h e = ground arith
text_lt-total [] (d ∷ t) h e = ground arith
text_lt-total (c ∷ s) [] h e = ground arith
text_lt-total (c ∷ s) (d ∷ t) h e = ground (arith, text_lt-total s t)

among_eq : (k c : Bytes) (ks : List Bytes) → bytes_eq k c ≡ true → among k ks ≡ among c ks
among_eq k c ks e = ground (arith, bytes_eq→≡ k c)

bytes_eq_sym : (k c : Bytes) → bytes_eq k c ≡ bytes_eq c k
unfolding bytes_eq
bytes_eq_sym [] [] = refl
bytes_eq_sym [] (d ∷ t) = refl
bytes_eq_sym (c ∷ s) [] = refl
bytes_eq_sym (c ∷ s) (d ∷ t) = ground (arith, bytes_eq_sym s t)

among-add_keys :
    (k : Bytes) (fs : Fields) (seen : List Bytes)
    → among k (add_keys fs seen) ≡ (has k fs || among k seen)
unfolding among add_keys get
among-add_keys k end seen = refl
among-add_keys k (field j v fs) seen =
    ground (arith, among-add_keys k fs seen, among-add_keys k fs (j ∷ seen), among_eq j k seen)

distinct-add_keys :
    (fs : Fields) (seen : List Bytes) → distinct seen ≡ true → distinct (add_keys fs seen) ≡ true
unfolding among add_keys distinct
distinct-add_keys end seen h = h
distinct-add_keys (field j v fs) seen h =
    ground (arith, distinct-add_keys fs seen, distinct-add_keys fs (j ∷ seen))

among-all_keys :
    (k : Bytes) (rows : List Fields) (seen : List Bytes)
    → among k (all_keys rows seen) ≡ (some_has k rows || among k seen)
unfolding all_keys some_has
among-all_keys k [] seen = refl
among-all_keys k (r ∷ rows) seen =
    ground (arith, among-all_keys k rows (add_keys r seen), among-add_keys k r seen)

distinct-all_keys :
    (rows : List Fields) (seen : List Bytes)
    → distinct seen ≡ true
    → distinct (all_keys rows seen) ≡ true
unfolding all_keys
distinct-all_keys [] seen h = h
distinct-all_keys (r ∷ rows) seen h =
    distinct-all_keys rows (add_keys r seen) (distinct-add_keys r seen h)

among-insert_sorted :
    (k c : Bytes) (cs : List Bytes) → among k (insert_sorted c cs) ≡ (bytes_eq c k || among k cs)
unfolding among insert_sorted
among-insert_sorted k c [] = refl
among-insert_sorted k c (d ∷ cs) = ground (arith, among-insert_sorted k c cs)

ascends-insert_sorted :
    (k : Bytes) (cs : List Bytes)
    → ascends cs ≡ true
    → among k cs ≡ false
    → ascends (insert_sorted k cs) ≡ true
unfolding ascends insert_sorted among
ascends-insert_sorted k [] h a = refl
ascends-insert_sorted k (c ∷ []) h a = ground (arith, text_lt-total c k)
ascends-insert_sorted k (c ∷ d ∷ cs) h a =
    ground (arith, text_lt-total c k, text_lt-total d k, ascends-insert_sorted k (d ∷ cs))

among-sort_strings : (k : Bytes) (cs : List Bytes) → among k (sort_strings cs) ≡ among k cs
unfolding sort_strings among
among-sort_strings k [] = refl
among-sort_strings k (c ∷ cs) =
    ground (arith, among-insert_sorted k c (sort_strings cs), among-sort_strings k cs)

ascends-sort_strings : (cs : List Bytes) → distinct cs ≡ true → ascends (sort_strings cs) ≡ true
unfolding sort_strings distinct ascends
ascends-sort_strings [] h = refl
ascends-sort_strings (c ∷ cs) h = ground (
  arith,
  ascends-insert_sorted c (sort_strings cs),
  among-sort_strings c cs,
  ascends-sort_strings cs,
)

among-without_id :
    (k : Bytes) (cs : List Bytes)
    → among k (without_id cs) ≡ (not (bytes_eq k id_key) && among k cs)
unfolding without_id among
among-without_id k [] = ground arith
among-without_id k (c ∷ cs) = ground (
  arith,
  among-without_id k cs,
  bytes_eq→≡ c k,
  bytes_eq→≡ c id_key,
  bytes_eq→≡ k id_key,
  bytes_eq_refl id_key,
)

distinct-without_id : (cs : List Bytes) → distinct cs ≡ true → distinct (without_id cs) ≡ true
unfolding without_id distinct
distinct-without_id [] h = refl
distinct-without_id (c ∷ cs) h = ground (arith, distinct-without_id cs, among-without_id c cs)

without_id_same : (cs : List Bytes) → among id_key cs ≡ false → without_id cs ≡ cs
unfolding without_id among
without_id_same [] h = refl
without_id_same (c ∷ cs) h = ground (arith, without_id_same cs)

among-or_placeholder : (j : Bytes) (cs : List Bytes) → among j cs ≡ true → or_placeholder cs ≡ cs
unfolding among
among-or_placeholder j [] h = absurd (ground arith)
among-or_placeholder j (c ∷ cs) h = refl

-- The columns before the placeholder is looked at.
abbrev ordered : List Fields → List Bytes
ordered rows =
    let seen = all_keys rows [] in
    let cols = sort_strings (without_id seen) in if among id_key seen then id_key ∷ cols else cols

among-ordered : (k : Bytes) (rows : List Fields) → among k (ordered rows) ≡ some_has k rows
unfolding among
among-ordered k rows = ground (
  arith,
  among-all_keys k rows [],
  among-all_keys id_key rows [],
  among-sort_strings k (without_id (all_keys rows [])),
  among-without_id k (all_keys rows []),
  bytes_eq→≡ id_key k,
  bytes_eq→≡ k id_key,
  bytes_eq_refl id_key,
)

without_id-ordered :
    (rows : List Fields) → without_id (ordered rows) ≡ sort_strings (without_id (all_keys rows []))
unfolding without_id
without_id-ordered rows = ground (
  arith,
  without_id_same (sort_strings (without_id (all_keys rows []))),
  among-sort_strings id_key (without_id (all_keys rows [])),
  among-without_id id_key (all_keys rows []),
  bytes_eq_refl id_key,
)

starts_with_id-among : (cs : List Bytes) → among id_key cs ≡ false → starts_with_id cs ≡ false
unfolding starts_with_id among
starts_with_id-among [] h = refl
starts_with_id-among (c ∷ cs) h = ground arith

starts_with_id-ordered : (rows : List Fields) → starts_with_id (ordered rows) ≡ some_has id_key rows
unfolding starts_with_id among
starts_with_id-ordered rows = ground (
  arith,
  among-all_keys id_key rows [],
  starts_with_id-among (sort_strings (without_id (all_keys rows []))),
  among-sort_strings id_key (without_id (all_keys rows [])),
  among-without_id id_key (all_keys rows []),
  bytes_eq_refl id_key,
)

among-drop : (k : Bytes) (cs : List Bytes) → among k cs ≡ false → among k (drop 1 cs) ≡ false
unfolding among
among-drop k [] h = h
among-drop k (c ∷ cs) h = ground arith

id_once-ordered : (rows : List Fields) → among id_key (drop 1 (ordered rows)) ≡ false
unfolding among
id_once-ordered rows = ground (
  arith,
  among-drop id_key (sort_strings (without_id (all_keys rows []))),
  among-sort_strings id_key (without_id (all_keys rows [])),
  among-without_id id_key (all_keys rows []),
  bytes_eq_refl id_key,
)

collect_columns-ordered :
    (rows : List Fields) (j : Bytes) → some_has j rows ≡ true → collect_columns rows ≡ ordered rows
unfolding collect_columns
collect_columns-ordered rows j h = among-or_placeholder j (ordered rows) (among-ordered j rows ∙ h)

-- Where some row has a key, the columns are exactly the keys of the rows; the columns but _id come
-- in strictly ascending order, so that none comes twice; and _id, where a row has it, comes first,
-- and nowhere else.
pub collect_columns-some_has :
    (rows : List Fields) (j : Bytes)
    → some_has j rows ≡ true
    → ((k : Bytes) → among k (collect_columns rows) ≡ some_has k rows)
      × (ascends (without_id (collect_columns rows)) ≡ true)
      × (starts_with_id (collect_columns rows) ≡ some_has id_key rows)
      × (among id_key (drop 1 (collect_columns rows)) ≡ false)
unfolding distinct
collect_columns-some_has rows j h = (
  λ k. ap (among k) (collect_columns-ordered rows j h) ∙ among-ordered k rows,
  ap (λ cs. ascends (without_id cs)) (collect_columns-ordered rows j h)
      ∙ ap ascends (without_id-ordered rows)
      ∙ ascends-sort_strings (without_id (all_keys rows []))
          (distinct-without_id (all_keys rows []) (distinct-all_keys rows [] refl)),
  ap starts_with_id (collect_columns-ordered rows j h) ∙ starts_with_id-ordered rows,
  ap (λ cs. among id_key (drop 1 cs)) (collect_columns-ordered rows j h) ∙ id_once-ordered rows,
)
