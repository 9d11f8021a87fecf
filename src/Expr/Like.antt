-- ===== src/Expr/Like.antt =====
-- translator/internal/expr/expr.go: LikeToRegex.
pub mod Plain
use mongosql.Prelude.{ℕ, ◌+◌, ◌/◌, ◌%◌, [], ◌∷◌, ◌++◌, ltb, ◌==◌, if◌then◌else◌}
use mongosql.Bytes.{Bytes, elem}

-- `string(c)` of a byte is the UTF-8 text of the code point with that number.
unfoldable pub string_of_byte : ℕ → Bytes
string_of_byte c = if ltb c 128 then c ∷ [] else (192 + c / 64) ∷ (128 + c % 64) ∷ []

-- regexp.QuoteMeta puts a backslash before each of these.
abbrev pub specials : Bytes
specials =
    92 ∷ b'.' ∷ b'+' ∷ b'*' ∷ b'?' ∷ b'(' ∷ b')' ∷ b'|' ∷ b'[' ∷ b']' ∷ b'{' ∷ b'}' ∷ b'^' ∷ b'$'
    ∷ []

unfoldable pub quote_meta : Bytes → Bytes
unfolding elem
quote_meta [] = []
quote_meta (c ∷ s) = if elem c specials then 92 ∷ c ∷ quote_meta s else c ∷ quote_meta s

abbrev quoted : ℕ → Bytes
quoted c = quote_meta (string_of_byte c)

-- The loop over the pattern.
unfoldable pub like_loop : Bytes → Bytes
unfolding quote_meta string_of_byte
like_loop [] = []
like_loop (c ∷ []) =
    if c == b'%' then b'.' ∷ b'*' ∷ [] else if c == b'_' then b'.' ∷ [] else quoted c
like_loop (c ∷ d ∷ s) =
    let after = quoted d ++ like_loop s in
    let rest = like_loop (d ∷ s) in
    if c == 92
    then after
    else if c == b'%'
    then b'.' ∷ b'*' ∷ rest
    else if c == b'_'
    then b'.' ∷ rest
    else quoted c ++ rest

unfoldable pub like_to_regex : Bytes → Bytes
unfolding like_loop
like_to_regex pattern' = b'^' ∷ (like_loop pattern' ++ b'$' ∷ [])
