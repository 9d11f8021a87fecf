-- ===== src/Expr/Slice.antt =====
-- translator/internal/expr/expr.go: the functions that cut texts (evalSubstring, padString, and the
-- SUBSTRING, LEFT and RIGHT branches of evalFunc). Positions count bytes.
pub mod Bounds
use mongosql.Prelude.{
  ℕ, zero, suc, ◌-◌, ◌*◌, ◌^◌, Bool, true, false, ◌||◌, Option, none, some, [], ◌∷◌, ◌++◌, ltb,
  if◌then◌else◌, length, take, drop,
}
use mongosql.Prelude.Int.{ℤ, pos, add64, sub64, ltb_ℤ, leb_ℤ, pos_part, negative}
use mongosql.Bytes.{Bytes}
use mongosql.Result.{panic, Result, ok, err, ◌>>=◌}

-- `s[a:b]`: a panic unless 0 ≤ a ≤ b ≤ len(s).
unfoldable pub slice : Bytes → ℤ → ℤ → Result Bytes
slice s a b =
    if negative a || ltb_ℤ b a || ltb_ℤ (pos (length s)) b
    then err panic
    else ok (take (pos_part b - pos_part a) (drop (pos_part a) s))

-- From a 1-based position, counted from the end where it is negative, to an offset.
unfoldable pub substring_start : Bytes → ℤ → ℤ
unfolding add64 sub64
substring_start s start =
    if ltb_ℤ (pos 0) start
    then sub64 start (pos 1)
    else if ltb_ℤ start (pos 0)
    then (let back = add64 (pos (length s)) start in if ltb_ℤ back (pos 0) then pos 0 else back)
    else start

abbrev at_most : ℤ → ℤ → ℤ
at_most limit n = if ltb_ℤ limit n then limit else n

-- `end = start + length`, cut at the end of the text.
unfoldable pub substring_end : Bytes → ℤ → Option ℤ → ℤ
unfolding add64
substring_end s start none = pos (length s)
substring_end s start (some len) = at_most (pos (length s)) (add64 start len)

-- evalSubstring, once its arguments are converted.
unfoldable pub eval_substring : Bytes → ℤ → Option ℤ → Result Bytes
unfolding slice substring_start substring_end
eval_substring s pos' len =
    let start = substring_start s pos' in
    let stop = substring_end s start len in
    if leb_ℤ (pos (length s)) start
    then ok []
    else slice s start (if ltb_ℤ stop start then start else stop)

-- The SUBSTRING branch of evalFunc: there `end` is not raised to `start`.
unfoldable pub func_substring : Bytes → ℤ → Option ℤ → Result Bytes
unfolding slice substring_start substring_end
func_substring s pos' len =
    let start = substring_start s pos' in
    if leb_ℤ (pos (length s)) start then ok [] else slice s start (substring_end s start len)

-- A count between 0 and the length of the text.
unfoldable pub clamp_count : Bytes → ℤ → ℤ
clamp_count s n = at_most (pos (length s)) (if ltb_ℤ n (pos 0) then pos 0 else n)

unfoldable pub left : Bytes → ℤ → Result Bytes
unfolding slice clamp_count
left s n = slice s (pos 0) (clamp_count s n)

unfoldable pub right : Bytes → ℤ → Result Bytes
unfolding slice clamp_count sub64
right s n = slice s (sub64 (pos (length s)) (clamp_count s n)) (pos (length s))

-- `for fill.Len() < need { fill.WriteString(pad) }`; each round of a pad that is not empty adds
-- a byte, so `need` rounds are enough.
unfoldable pub fill_loop : ℕ → ℕ → Bytes → Bytes → Bytes
fill_loop zero need pad fill = fill
fill_loop (suc fuel) need pad fill =
    let rest = fill_loop fuel need pad (fill ++ pad) in
    if ltb (length fill) need then rest else fill

abbrev is_blank : Bytes → Bool
is_blank [] = true
is_blank (_ ∷ _) = false

unfoldable pub pad_string : Bytes → ℤ → Bytes → Bool → Result Bytes
unfolding slice fill_loop
pad_string s n pad on_left =
    if leb_ℤ n (pos (length s)) then slice s (pos 0) n else if is_blank pad then ok s else do
      let need = pos_part n - length s
      out ← slice (fill_loop need need pad []) (pos 0) (pos need)
      ok (if on_left then out ++ s else s ++ out)

-- strings.Repeat panics where the result is longer than an int can say.
unfoldable pub repeat : ℕ → Bytes → Bytes
repeat zero s = []
repeat (suc n) s = s ++ repeat n s

unfoldable pub strings_repeat : Bytes → ℤ → Result Bytes
unfolding repeat
strings_repeat s n =
    let out = repeat (pos_part n) s in
    if negative n || ltb (2 ^ 63 - 1) (length s * pos_part n) then err panic else ok out
