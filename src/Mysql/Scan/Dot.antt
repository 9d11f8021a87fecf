-- ===== src/Mysql/Scan/Dot.antt =====
-- mysql/ddl.go: splitDBTable, on the last dot of an identifier.
use mongosql.Mysql.Scan.{last_dot, split_db_table, quotes_and_space}
use mongosql.Prelude.{
  Bool, true, not, ◌==◌, ◌≡◌, ◌∙◌, refl, sym, ap, arith, [], ◌∷◌, ◌++◌, some, none, append_nil,
}
use mongosql.Bytes.{Bytes, elem, trim, trim_left, trim_right}
use mongosql.Bytes.Trim.{
  all, all-append, all_cut, none_cut, all-trim_right, trim_left-twice, trim_right-all_cut,
  trim_right-none_cut, trim_right-stops, trim-between, trim-stops,
}

abbrev pub no_dot : Bytes → Bool
no_dot = all (λ c. not (c == b'.'))

last_dot-no_dot : (s : Bytes) → no_dot s ≡ true → last_dot s ≡ none
unfolding last_dot
last_dot-no_dot [] h = refl
last_dot-no_dot (c ∷ s) h = ground (arith, last_dot-no_dot s)

last_dot-append : (s t : Bytes) → no_dot t ≡ true → last_dot (s ++ b'.' ∷ t) ≡ some (s, t)
unfolding last_dot
last_dot-append [] t h = ground (arith, last_dot-no_dot t)
last_dot-append (c ∷ s) t h = ground (arith, last_dot-append s t h)

-- Quotes and spaces, as they stand around the name of a database or a table.
abbrev pub are_quotes : Bytes → Bool
are_quotes = all_cut quotes_and_space

-- A name without quotes and spaces.
abbrev pub is_name : Bytes → Bool
is_name = none_cut quotes_and_space

are_quotes-no_dot : (s : Bytes) → are_quotes s ≡ true → no_dot s ≡ true
unfolding elem
are_quotes-no_dot [] h = refl
are_quotes-no_dot (c ∷ s) h = ground (arith, are_quotes-no_dot s)

-- What is left of a quoted table, once the quotes behind it are gone.
trim-half :
    (l b r : Bytes)
    → are_quotes l ≡ true
    → is_name b ≡ true
    → are_quotes r ≡ true
    → trim quotes_and_space (trim_right quotes_and_space (l ++ (b ++ r))) ≡ b
unfolding trim trim_left trim_right
trim-half l [] r h k m =
    ap (trim quotes_and_space)
      (trim_right-all_cut quotes_and_space l r m ∙ trim_right-all_cut quotes_and_space [] l h)
trim-half l (c ∷ b) r h k m =
    ap (trim quotes_and_space) (
      trim_right-stops quotes_and_space c l (b ++ r) (ground arith)
      ∙ ap (λ t. l ++ c ∷ t)
          (trim_right-all_cut quotes_and_space b r m
            ∙ (trim_right-none_cut quotes_and_space b (ground arith) ∙ sym (append_nil b))))
    ∙ trim-between quotes_and_space l (c ∷ b) [] h k refl

split_db_table-dot :
    (ident s t : Bytes)
    → last_dot (trim quotes_and_space ident) ≡ some (s, t)
    → split_db_table ident ≡ (trim quotes_and_space s, trim quotes_and_space t)
unfolding split_db_table
split_db_table-dot ident s t h = rw (h, split_db_table) refl

split_db_table-no_dot :
    (ident : Bytes)
    → last_dot (trim quotes_and_space ident) ≡ none
    → split_db_table ident ≡ ([], trim quotes_and_space ident)
unfolding split_db_table
split_db_table-no_dot ident h = rw (h, split_db_table) refl

-- What is left of a quoted database, once the quotes in front of it are gone.
trim-rest :
    (l a m : Bytes)
    → are_quotes l ≡ true
    → is_name a ≡ true
    → are_quotes m ≡ true
    → trim quotes_and_space (trim_left quotes_and_space (l ++ (a ++ m))) ≡ a
unfolding trim
trim-rest l a m h k j =
    ap (trim_right quotes_and_space) (trim_left-twice quotes_and_space (l ++ (a ++ m)))
    ∙ trim-between quotes_and_space l a m h k j

-- A table without dots, and a database in front of it with a dot in between, each with or without
-- quotes and spaces around it: splitDBTable gives the two names, and an empty database where there
-- is none. The database itself may have dots.
pub split_db_table-names :
    (l a m n b r : Bytes)
    → are_quotes l ≡ true
    → is_name a ≡ true
    → are_quotes m ≡ true
    → are_quotes n ≡ true
    → is_name b ≡ true
    → no_dot b ≡ true
    → are_quotes r ≡ true
    → (split_db_table ((l ++ (a ++ m)) ++ b'.' ∷ (n ++ (b ++ r))) ≡ (a, b))
      × (split_db_table (n ++ (b ++ r)) ≡ ([], b))
unfolding elem
split_db_table-names l a m n b r hl ha hm hn hb plain hr =
    let db = l ++ (a ++ m) in
    let table = n ++ (b ++ r) in
    let undotted : no_dot (trim_right quotes_and_space table) ≡ true =
      all-trim_right quotes_and_space (λ c. not (c == b'.')) table
        (ground (
          arith,
          all-append (λ c. not (c == b'.')) n (b ++ r),
          all-append (λ c. not (c == b'.')) b r,
          are_quotes-no_dot n hn,
          are_quotes-no_dot r hr,
        )) in
    let bare = trim-between quotes_and_space n b r hn hb hr in
    (
      split_db_table-dot (db ++ b'.' ∷ table) (trim_left quotes_and_space db)
            (trim_right quotes_and_space table)
            (ap last_dot (trim-stops quotes_and_space b'.' db table refl)
              ∙ last_dot-append (trim_left quotes_and_space db) (trim_right quotes_and_space table)
                  undotted)
          ∙ (ap (λ t. (t, trim quotes_and_space (trim_right quotes_and_space table)))
                (trim-rest l a m hl ha hm)
              ∙ ap (λ t. (a, t)) (trim-half n b r hn hb hr)),
      split_db_table-no_dot table (ap last_dot bare ∙ last_dot-no_dot b plain)
          ∙ ap (λ t. ([], t)) bare,
    )
