-- ===== src/Prelude/Int.antt =====
-- Signed integers over the native numbers, and the wrap-around of int64.
use mongosql.Prelude.{ℕ, suc, ◌+◌, ◌-◌, ◌*◌, ◌/◌, ◌%◌, ◌^◌, Bool, ltb, leb, ◌==◌, if◌then◌else◌}

-- `negsuc n` is -(n + 1).
pub data ℤ : Type 0 where
  pos : ℕ → ℤ
  negsuc : ℕ → ℤ

abbrev pub pos_part : ℤ → ℕ
pos_part (pos n) = n
pos_part (negsuc n) = 0

abbrev pub neg_part : ℤ → ℕ
neg_part (pos n) = 0
neg_part (negsuc n) = suc n

-- a - b, as an integer.
abbrev pub sub_ℕ : ℕ → ℕ → ℤ
sub_ℕ a b = if leb b a then pos (a - b) else negsuc (b - a - 1)

-- The value of `n` mod 2 ^ 64 as a two's complement number.
abbrev pub signed : ℕ → ℤ
signed n = if ltb n (2 ^ 63) then pos n else negsuc (2 ^ 64 - 1 - n)

-- The bit pattern of an integer.
abbrev pub word : ℤ → ℕ
word (pos n) = n % 2 ^ 64
word (negsuc n) = 2 ^ 64 - 1 - n % 2 ^ 64

-- int64 arithmetic: the results wrap around.
unfoldable pub add64 : ℤ → ℤ → ℤ
add64 a b = signed ((word a + word b) % 2 ^ 64)

unfoldable pub sub64 : ℤ → ℤ → ℤ
sub64 a b = signed ((word a + (2 ^ 64 - word b)) % 2 ^ 64)

unfoldable pub mul64 : ℤ → ℤ → ℤ
mul64 a b = signed (word a * word b % 2 ^ 64)

abbrev pub neg : ℤ → ℤ
neg a = sub_ℕ (neg_part a) (pos_part a)

abbrev pub magnitude : ℤ → ℕ
magnitude a = pos_part a + neg_part a

abbrev pub negative : ℤ → Bool
negative (pos n) = Bool.false
negative (negsuc n) = Bool.true

abbrev xor : Bool → Bool → Bool
xor a b = if a then (if b then Bool.false else Bool.true) else b

-- Go's `/` and `%` on int64 round towards zero; the divisor is not 0. The one quotient that
-- overflows, -2^63 / -1, wraps around.
unfoldable pub quot64 : ℤ → ℤ → ℤ
quot64 a b =
    let q = magnitude a / magnitude b in
    signed (word (if xor (negative a) (negative b) then neg (pos q) else pos q))

unfoldable pub rem64 : ℤ → ℤ → ℤ
rem64 a b = let r = magnitude a % magnitude b in if negative a then neg (pos r) else pos r

abbrev pub ltb_ℤ : ℤ → ℤ → Bool
ltb_ℤ a b = ltb (pos_part a + neg_part b) (pos_part b + neg_part a)

abbrev pub leb_ℤ : ℤ → ℤ → Bool
leb_ℤ a b = leb (pos_part a + neg_part b) (pos_part b + neg_part a)

abbrev pub is_zero : ℤ → Bool
is_zero (pos n) = n == 0
is_zero (negsuc n) = Bool.false
