-- ===== src/Expr/Number.antt =====
-- strconv.ParseInt(s, 10, 64) and strconv.FormatInt(n, 10), as the conversions of
-- translator/internal/expr use them.
use mongosql.Prelude.{
  ℕ, zero, suc, ◌+◌, ◌-◌, ◌*◌, ◌/◌, ◌%◌, ◌^◌, Bool, true, false, ◌&&◌, [], ◌∷◌, ltb, leb, ◌==◌,
  if◌then◌else◌,
}
use mongosql.Prelude.Int.{ℤ, pos, negsuc, neg}
use mongosql.Bytes.{Bytes}

pub data Parsed : Type 0 where
  parsed : ℕ → Parsed
  syntax_error range_error : Parsed

abbrev pub is_digit : ℕ → Bool
is_digit c = leb 48 c && leb c 57

-- The loop of strconv.ParseUint: it stops at the first byte that is no digit, or where the number
-- leaves uint64.
unfoldable pub parse_digits : ℕ → Bytes → Parsed
parse_digits n [] = parsed n
parse_digits n (c ∷ s) =
    let n' = n * 10 + (c - 48) in
    let rest = parse_digits n' s in
    if is_digit c then (if leb (2 ^ 64) n' then range_error else rest) else syntax_error

unfoldable pub parse_uint : Bytes → Parsed
unfolding parse_digits
parse_uint [] = syntax_error
parse_uint (c ∷ s) = parse_digits 0 (c ∷ s)

-- The number, and whether there was no error. Out of range the nearest number comes back.
abbrev pub in_range : Bool → Parsed → ℤ × Bool
in_range minus syntax_error = (pos 0, false)
in_range minus range_error = (if minus then neg (pos (2 ^ 63)) else pos (2 ^ 63 - 1), false)
in_range minus (parsed n) =
    if minus
    then (if ltb (2 ^ 63) n then (neg (pos (2 ^ 63)), false) else (neg (pos n), true))
    else if leb (2 ^ 63) n
    then (pos (2 ^ 63 - 1), false)
    else (pos n, true)

unfoldable pub parse_int : Bytes → ℤ × Bool
unfolding parse_uint
parse_int [] = (pos 0, false)
parse_int (c ∷ s) =
    if c == b'-'
    then in_range true (parse_uint s)
    else if c == b'+'
    then in_range false (parse_uint s)
    else in_range false (parse_uint (c ∷ s))

-- The decimal digits of `n` before `acc`. Twenty digits are enough for a uint64.
unfoldable pub decimal : ℕ → ℕ → Bytes → Bytes
decimal zero n acc = acc
decimal (suc fuel) n acc =
    let acc' = (48 + n % 10) ∷ acc in
    let rest = decimal fuel (n / 10) acc' in if ltb n 10 then acc' else rest

unfoldable pub format_int : ℤ → Bytes
unfolding decimal
format_int (pos n) = decimal 20 n []
format_int (negsuc n) = b'-' ∷ decimal 20 (suc n) []
