-- ===== src/Samples/Go.antt =====
-- A runtime for concrete runs: ASCII case mapping, and whole numbers in place of float64.
use mongosql.Runtime.{Runtime}
use mongosql.Expr.Number.{parse_int, format_int}
use mongosql.Prelude.Int.{pos, signed, word, sub64, add64, mul64, quot64, rem64, ltb_ℤ, leb_ℤ}
use mongosql.Prelude.{ℕ, ◌+◌, ◌-◌, ◌&&◌, leb, ◌==◌, if◌then◌else◌, map, []}

upper_byte : ℕ → ℕ
upper_byte c = if leb b'a' c && leb c b'z' then c - 32 else c

lower_byte : ℕ → ℕ
lower_byte c = if leb b'A' c && leb c b'Z' then c + 32 else c

unfoldable pub go : Runtime
unfolding upper_byte lower_byte parse_int format_int sub64 add64 mul64 quot64 rem64
go = record {
  now = pos 0;
  format_date = format_int;
  format_clock = format_int;
  format_datetime = format_int;
  unix = λ t. t;
  from_unix = λ t. t;
  parse_float = λ s. let (n, valid) = parse_int s in (word n, valid);
  format_float = λ f. format_int (signed f);
  float_of_int = word;
  int_of_float = signed;
  float_neg = λ f. word (sub64 (pos 0) (signed f));
  float_add = λ a b. word (add64 (signed a) (signed b));
  float_sub = λ a b. word (sub64 (signed a) (signed b));
  float_mul = λ a b. word (mul64 (signed a) (signed b));
  float_div = λ a b. word (quot64 (signed a) (signed b));
  float_lt = λ a b. ltb_ℤ (signed a) (signed b);
  float_le = λ a b. leb_ℤ (signed a) (signed b);
  float_is_zero = λ f. f == 0;
  float_ceil = λ f. f;
  float_floor = λ f. f;
  float_mod = λ a b. word (rem64 (signed a) (signed b));
  float_pow = λ a b. a;
  to_upper = map upper_byte;
  to_lower = map lower_byte;
  trim_space = λ s. s;
  replace_all = λ s a b. s;
  reverse_runes = λ s. s;
  sprint = λ v. [];
  uuid = [];
}
