-- ===== src/Expr/Like/Plain.antt =====
-- translator/internal/expr/expr.go: the regular expression of a LIKE pattern without wildcards.
use mongosql.Expr.Like.{string_of_byte, quote_meta, like_loop, like_to_regex}
use mongosql.Prelude.{[], ◌∷◌, ◌++◌, ◌≡◌, refl, ap, arith, true, Bool, ◌&&◌, ◌||◌, not, ◌==◌, ltb}
use mongosql.Bytes.{Bytes}

-- ASCII bytes other than the wildcards and the escape.
abbrev pub is_plain_pattern : Bytes → Bool
is_plain_pattern [] = true
is_plain_pattern (c ∷ s) =
    (ltb c 128 && not (c == b'%' || c == b'_' || c == 92)) && is_plain_pattern s

like_loop-plain : (s : Bytes) → is_plain_pattern s ≡ true → like_loop s ≡ quote_meta s
unfolding like_loop quote_meta string_of_byte
like_loop-plain [] h = refl
like_loop-plain (c ∷ []) h = ground arith
like_loop-plain (c ∷ d ∷ s) h = ground (arith, like_loop-plain (d ∷ s))

-- LIKE of an ASCII text without wildcards and escapes compares with the whole text: the regular
-- expression is the quoted text between the anchors.
pub like_to_regex-plain :
    (s : Bytes) → is_plain_pattern s ≡ true → like_to_regex s ≡ b'^' ∷ (quote_meta s ++ b'$' ∷ [])
unfolding like_to_regex
like_to_regex-plain s h = ap (λ t. b'^' ∷ (t ++ b'$' ∷ [])) (like_loop-plain s h)
