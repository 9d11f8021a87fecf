-- ===== src/Mysql/Comments/Literal.antt =====
-- mysql/handler.go: stripSQLComments on literals, and on texts without comments.
use mongosql.Mysql.Comments.{
  next_is, is_quote, backslash, literal_part, strip_loop, strip_sql_comments,
}
use mongosql.Prelude.{
  sym, ◌∙◌, Bool-cases, inl, inr, false, Option, none, some, if◌then◌else◌, ℕ, zero, suc, ◌≤◌, [],
  ◌∷◌, ◌++◌, ◌≡◌, refl, ap, arith, true, length, length-append, Bool, ◌&&◌, ◌||◌, not, ◌==◌,
}
use mongosql.Bytes.{Bytes}

-- A literal and what follows it are, put together, the bytes that were there.
literal_part-append : (q : ℕ) (s : Bytes) → (literal_part q s).0 ++ (literal_part q s).1 ≡ s
unfolding literal_part
literal_part-append q [] = refl
literal_part-append q (c ∷ []) = refl
literal_part-append q (c ∷ d ∷ s) =
    ground (arith, literal_part-append q s, literal_part-append q (d ∷ s))

-- Does a comment begin here, with a slash and a star, two dashes or a hash?
abbrev begins_comment : ℕ → Bytes → Bool
begins_comment c s = (c == b'/' && next_is b'*' s) || (c == b'-' && next_is b'-' s) || c == b'#'

-- No comment begins outside the literals, read byte by byte: the state is the quote of the literal
-- that is open, if one is. In a literal a backslash and the byte behind it are one character.
abbrev pub comment_free_from : Option ℕ → Bytes → Bool
comment_free_from none [] = true
comment_free_from none (c ∷ s) =
    let in_literal = comment_free_from (some c) s in
    let outside = comment_free_from none s in
    if is_quote c then in_literal else not (begins_comment c s) && outside
comment_free_from (some q) [] = true
comment_free_from (some q) (c ∷ []) = true
comment_free_from (some q) (c ∷ d ∷ s) =
    let escaped = comment_free_from (some q) s in
    let closed = comment_free_from none (d ∷ s) in
    let goes_on = comment_free_from (some q) (d ∷ s) in
    if c == backslash then escaped else if c == q then closed else goes_on

abbrev pub comment_free : Bytes → Bool
comment_free s = comment_free_from none s

-- What follows a literal is free of comments where the text is.
literal_part-comment_free :
    (q : ℕ) (s : Bytes) → comment_free (literal_part q s).1 ≡ comment_free_from (some q) s
unfolding literal_part
literal_part-comment_free q [] = refl
literal_part-comment_free q (c ∷ []) = refl
literal_part-comment_free q (c ∷ d ∷ s) =
    ground (arith, literal_part-comment_free q s, literal_part-comment_free q (d ∷ s))

split_and : (a b : Bool) → (not a && b) ≡ true → (a ≡ false) × (b ≡ true)
split_and a b h = ground arith

strip_loop-quote :
    (fuel c : ℕ) (s : Bytes)
    → is_quote c ≡ true
    → strip_loop (suc fuel) (c ∷ s)
      ≡ c ∷ ((literal_part c s).0 ++ strip_loop fuel (literal_part c s).1)
unfolding strip_loop
strip_loop-quote fuel c s h = ground arith

strip_loop-byte :
    (fuel c : ℕ) (s : Bytes)
    → is_quote c ≡ false
    → begins_comment c s ≡ false
    → strip_loop (suc fuel) (c ∷ s) ≡ c ∷ strip_loop fuel s
unfolding strip_loop
strip_loop-byte fuel c s h k = ground arith

comment_free-quote :
    (c : ℕ) (s : Bytes)
    → is_quote c ≡ true
    → comment_free (c ∷ s) ≡ comment_free (literal_part c s).1
comment_free-quote c s h = rw h (sym (literal_part-comment_free c s))

comment_free-byte :
    (c : ℕ) (s : Bytes)
    → is_quote c ≡ false
    → comment_free (c ∷ s) ≡ (not (begins_comment c s) && comment_free s)
comment_free-byte c s h = rw h refl

strip_loop-comment_free :
    (fuel : ℕ) (s : Bytes) → length s ≤ fuel → comment_free s ≡ true → strip_loop fuel s ≡ s
unfolding strip_loop
strip_loop-comment_free zero [] h f = refl
strip_loop-comment_free zero (c ∷ s) h f = absurd (omega arith)
strip_loop-comment_free (suc fuel) [] h f = refl
strip_loop-comment_free (suc fuel) (c ∷ s) h f = elim (Bool-cases (is_quote c)) [
  | inl q ↦
      strip_loop-quote fuel c s q
      ∙ ap (λ t. c ∷ t)
          (ap (λ t. (literal_part c s).0 ++ t)
              (strip_loop-comment_free fuel (literal_part c s).1
                (omega (
                  arith,
                  ap length (literal_part-append c s),
                  length-append (literal_part c s).0 (literal_part c s).1,
                ))
                (sym (comment_free-quote c s q) ∙ f))
            ∙ literal_part-append c s)
  | inr q ↦
      let (begins, rest) =
        split_and (begins_comment c s) (comment_free s) (sym (comment_free-byte c s q) ∙ f) in
      strip_loop-byte fuel c s q begins
      ∙ ap (λ t. c ∷ t) (strip_loop-comment_free fuel s (omega arith) rest)
]

-- A statement in which no comment begins outside the literals is returned as it is, also where a
-- literal, closed or not, has what would begin a comment.
pub strip_sql_comments-comment_free : (s : Bytes) → comment_free s ≡ true → strip_sql_comments s ≡ s
unfolding strip_sql_comments
strip_sql_comments-comment_free s f = strip_loop-comment_free (length s) s (omega arith) f
