-- ===== src/Expr/Slice/Bounds.antt =====
-- translator/internal/expr/expr.go: the bounds of the functions that cut texts.
use mongosql.Prelude.Int.{negsuc}
use mongosql.Expr.Slice.{
  slice, substring_start, substring_end, eval_substring, func_substring, clamp_count, left, right,
  fill_loop, pad_string,
}
use mongosql.Prelude.Int.{pos, negsuc, add64, sub64}
use mongosql.Prelude.{
  ℕ, zero, suc, ◌+◌, ◌-◌, ◌^◌, ◌≤◌, ◌<◌, [], ◌∷◌, ◌++◌, ◌≡◌, refl, arith, Bool, some, length, take,
  drop, length-take, leb, length-drop, length-append, if◌then◌else◌, ap,
}
use mongosql.Result.{ok, err, panic}
use mongosql.Bytes.{Bytes}

add64-small : (a b : ℕ) → a + b < 2 ^ 63 → add64 (pos a) (pos b) ≡ pos (a + b)
unfolding add64
add64-small a b h = ground arith

sub64-small : (a b : ℕ) → b ≤ a → a < 2 ^ 63 → sub64 (pos a) (pos b) ≡ pos (a - b)
unfolding sub64
sub64-small a b h k = ground arith

take_all : (n : ℕ) (s : Bytes) → length s ≤ n → take n s ≡ s
take_all zero [] h = refl
take_all (suc n) [] h = refl
take_all zero (c ∷ s) h = absurd (omega arith)
take_all (suc n) (c ∷ s) h = ap (λ t. c ∷ t) (take_all n s (omega arith))

drop_all : (n : ℕ) (s : Bytes) → length s ≤ n → drop n s ≡ []
drop_all zero [] h = refl
drop_all (suc n) [] h = refl
drop_all zero (c ∷ s) h = absurd (omega arith)
drop_all (suc n) (c ∷ s) h = drop_all n s (omega arith)

take-drop : (n : ℕ) (s : Bytes) → take n s ++ drop n s ≡ s
take-drop zero s = refl
take-drop (suc n) [] = refl
take-drop (suc n) (c ∷ s) = ap (λ t. c ∷ t) (take-drop n s)

take-drop_past : (n k : ℕ) (s : Bytes) → length s ≤ k → take n (drop k s) ≡ []
take-drop_past n k s h = ground (arith, drop_all k s, take_all n [])

slice-pos :
    (s : Bytes) (a b : ℕ)
    → a ≤ b
    → b ≤ length s
    → slice s (pos a) (pos b) ≡ ok (take (b - a) (drop a s))
unfolding slice
slice-pos s a b h k = ground arith

length-drop_at : (a : ℕ) (s : Bytes) → length (drop a s) ≤ length s - a
length-drop_at a s = omega (arith, length-drop a s)

-- SUBSTRING of a text from the position p + 1 on, n bytes, where p + n stays below 2^63 - 1: what
-- is left of the text after p bytes, cut to n, also where the position or the length reaches
-- beyond the end.
pub eval_substring-take :
    (s : Bytes) (p n : ℕ)
    → p + n < 2 ^ 63 - 1
    → eval_substring s (pos (suc p)) (some (pos n)) ≡ ok (take n (drop p s))
unfolding eval_substring substring_start substring_end
eval_substring-take s p n h = ground (
  arith,
  sub64-small (suc p) 1,
  add64-small p n,
  slice-pos s p (length s),
  slice-pos s p (p + n),
  take-drop_past n p s,
  take_all n (drop p s),
  take_all (length s - p) (drop p s),
  length-drop_at p s,
)

-- With a negative length that does not reach before the text, of less than 2^63 bytes, SUBSTRING from a position inside
-- the text is the empty text where
-- evalSubstring evaluates it, and a panic where evalFunc does.
pub substring-negative_length :
    (s : Bytes) (p n : ℕ)
    → p < length s
    → length s < 2 ^ 63
    → suc n ≤ p
    → (eval_substring s (pos (suc p)) (some (negsuc n)) ≡ ok [])
      × (func_substring s (pos (suc p)) (some (negsuc n)) ≡ err panic)
unfolding eval_substring func_substring substring_start substring_end slice add64
substring-negative_length s p n h k l = ground (arith, sub64-small (suc p) 1)

-- LEFT of n bytes and RIGHT of the others, put together, are the text, where it has at least n
-- bytes and less than 2^63.
pub left-right :
    (s : Bytes) (n : ℕ)
    → n ≤ length s
    → length s < 2 ^ 63
    → (a b : Bytes) × (left s (pos n) ≡ ok a) × (right s (pos (length s - n)) ≡ ok b) × (a ++ b ≡ s)
unfolding left right clamp_count
left-right s n h k = (
  take n s,
  drop n s,
  ground (arith, slice-pos s 0 n),
  ground (
    arith,
    slice-pos s n (length s),
    sub64-small (length s) (length s - n),
    take_all (length s - n) (drop n s),
    length-drop_at n s,
  ),
  take-drop n s,
)

fill_loop-length :
    (fuel need c : ℕ) (pad so_far : Bytes)
    → need ≤ fuel + length so_far
    → need ≤ length (fill_loop fuel need (c ∷ pad) so_far)
unfolding fill_loop
fill_loop-length zero need c pad so_far h = omega arith
fill_loop-length (suc fuel) need c pad so_far h =
    ground
      (arith, fill_loop-length fuel need c pad (so_far ++ c ∷ pad), length-append so_far (c ∷ pad))

-- The bytes that LPAD and RPAD add, where `need` are missing.
abbrev fill : ℕ → Bytes → Bytes
fill need pad = take need (fill_loop need need pad [])

length-fill : (need c : ℕ) (pad : Bytes) → length (fill need (c ∷ pad)) ≡ need
unfolding fill_loop
length-fill need c pad = omega (
  arith,
  length-take need (fill_loop need need (c ∷ pad) []),
  fill_loop-length need need c pad [],
)

abbrev padded : Bytes → ℕ → Bytes → Bool → Bytes
padded s n pad on_left =
    if leb n (length s)
    then take n s
    else if on_left
    then fill (n - length s) pad ++ s
    else s ++ fill (n - length s) pad

length-padded :
    (s : Bytes) (n c : ℕ) (pad : Bytes) (on_left : Bool) → length (padded s n (c ∷ pad) on_left) ≡ n
length-padded s n c pad on_left = ground (
  arith,
  length-take n s,
  length-fill (n - length s) c pad,
  length-append s (fill (n - length s) (c ∷ pad)),
  length-append (fill (n - length s) (c ∷ pad)) s,
)

pad_string-padded :
    (s : Bytes) (n c : ℕ) (pad : Bytes) (on_left : Bool)
    → pad_string s (pos n) (c ∷ pad) on_left ≡ ok (padded s n (c ∷ pad) on_left)
unfolding pad_string slice
pad_string-padded s n c pad on_left =
    ground (arith, fill_loop-length (n - length s) (n - length s) c pad [])

-- LPAD and RPAD to n bytes, with a pad that is not empty, give a text of n bytes, whether the
-- text is shorter or longer: the loop that builds the fill ends and reaches far enough.
pub length-pad_string :
    (s : Bytes) (n c : ℕ) (pad : Bytes) (on_left : Bool)
    → (out : Bytes) × (pad_string s (pos n) (c ∷ pad) on_left ≡ ok out) × (length out ≡ n)
length-pad_string s n c pad on_left =
    (_, pad_string-padded s n c pad on_left, length-padded s n c pad on_left)

-- LPAD and RPAD to a negative number of bytes panic, whatever the text and the pad are.
pub pad_string-negative :
    (s pad : Bytes) (n : ℕ) (on_left : Bool) → pad_string s (negsuc n) pad on_left ≡ err panic
unfolding pad_string slice
pad_string-negative s pad n on_left = ground arith
