-- ===== src/Mysql/Comments.antt =====
-- mysql/handler.go: stripSQLComments.
pub mod Literal
use mongosql.Prelude.{
  ℕ, zero, suc, ◌+◌, Bool, false, ◌&&◌, ◌||◌, none, some, [], ◌∷◌, ◌++◌, ◌==◌, if◌then◌else◌,
  length, drop,
}
use mongosql.Bytes.{Bytes, index}

abbrev pub newline : ℕ
newline = 10

abbrev pub backslash : ℕ
backslash = 92

abbrev pub is_quote : ℕ → Bool
is_quote c = c == 39 || c == 34 || c == 96

-- The inner loop over a literal: what is copied, the closing quote included, and the rest.
unfoldable pub literal_part : ℕ → Bytes → Bytes × Bytes
literal_part q [] = ([], [])
literal_part q (c ∷ []) = (c ∷ [], [])
literal_part q (c ∷ d ∷ s) =
    let (escaped, after) = literal_part q s in
    let (copied, rest) = literal_part q (d ∷ s) in
    if c == backslash
    then (c ∷ d ∷ escaped, after)
    else if c == q
    then (c ∷ [], d ∷ s)
    else (c ∷ copied, rest)

abbrev pub next_is : ℕ → Bytes → Bool
next_is c [] = false
next_is c (d ∷ s) = d == c

-- The loop over the text. Each round consumes a byte at least, so the length is enough fuel.
unfoldable pub strip_loop : ℕ → Bytes → Bytes
unfolding literal_part index
strip_loop zero s = []
strip_loop (suc fuel) [] = []
strip_loop (suc fuel) (c ∷ s) =
    let after_block : Bytes = elim (index (drop 1 s) (b'*' ∷ b'/' ∷ [])) [
      | none ↦ []
      | some n ↦ 32 ∷ strip_loop fuel (drop (n + 2) (drop 1 s))
    ] in
    let after_line : Bytes = elim (index (c ∷ s) (newline ∷ [])) [
      | none ↦ []
      | some n ↦ strip_loop fuel (drop n (c ∷ s))
    ] in
    let after_literal = (c ∷ (literal_part c s).0) ++ strip_loop fuel (literal_part c s).1 in
    let after_byte = c ∷ strip_loop fuel s in
    if c == b'/' && next_is b'*' s
    then after_block
    else if (c == b'-' && next_is b'-' s) || c == b'#'
    then after_line
    else if is_quote c
    then after_literal
    else after_byte

unfoldable pub strip_sql_comments : Bytes → Bytes
unfolding strip_loop
strip_sql_comments s = strip_loop (length s) s
