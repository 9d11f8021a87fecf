-- ===== src/Runtime.antt =====
-- What the program takes from Go's standard library and is not written out in the model: the
-- clock, the float64 operations, number and time formatting, and Unicode case mapping.
-- A float64 is its 64 bits.
use mongosql.Prelude.{ℕ, Bool}
use mongosql.Prelude.Int.{ℤ}
use mongosql.Bytes.{Bytes}
use mongosql.Bson.{Value}

pub record Runtime : Type 0 where
  -- time.Now().UTC(), and time.Time's Format and Unix
  pub now : ℤ
  pub format_date : ℤ → Bytes
  pub format_clock : ℤ → Bytes
  pub format_datetime : ℤ → Bytes
  pub unix : ℤ → ℤ
  pub from_unix : ℤ → ℤ
  -- strconv: the number, and whether there was no error
  pub parse_float : Bytes → ℕ × Bool
  pub format_float : ℕ → Bytes
  -- float64
  pub float_of_int : ℤ → ℕ
  pub int_of_float : ℕ → ℤ
  pub float_neg : ℕ → ℕ
  pub float_add : ℕ → ℕ → ℕ
  pub float_sub : ℕ → ℕ → ℕ
  pub float_mul : ℕ → ℕ → ℕ
  pub float_div : ℕ → ℕ → ℕ
  pub float_lt : ℕ → ℕ → Bool
  pub float_le : ℕ → ℕ → Bool
  pub float_is_zero : ℕ → Bool
  pub float_ceil : ℕ → ℕ
  pub float_floor : ℕ → ℕ
  pub float_mod : ℕ → ℕ → ℕ
  pub float_pow : ℕ → ℕ → ℕ
  -- strings and fmt
  pub to_upper : Bytes → Bytes
  pub to_lower : Bytes → Bytes
  pub trim_space : Bytes → Bytes
  pub replace_all : Bytes → Bytes → Bytes → Bytes
  pub reverse_runes : Bytes → Bytes
  pub sprint : Value → Bytes
  pub uuid : Bytes
