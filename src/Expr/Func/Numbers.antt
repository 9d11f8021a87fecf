-- ===== src/Expr/Func/Numbers.antt =====
-- translator/internal/expr/expr.go, evalFunc: the numeric functions.
use mongosql.Expr.Func.Arguments.{need, arg}
use mathlib.Core.List.{[]}
use Prim.Native.Nat.{Ordering, zero, suc, ℕ}
use mongosql.Prelude.Int.{pos, ltb_ℤ, rem64, pos_part, sub64, ℤ}
use mongosql.Prelude.{◌&&◌, [], if◌then◌else◌, ◌∷◌, ℕ, List}
use mongosql.Expr.Convert.{
  int_of, float_of, sign_eq, Sign, to_float64, is_integer_value, compare_any,
}
use mongosql.Bytes.{Bytes, one_of}
use mongosql.Runtime.{Runtime}
use mongosql.Result.{◌>>=◌, Result, ok, err}
use mongosql.Bson.{Value, null, int64, float64}

abbrev Args : Type 0
Args = List Value

module _ (rt : Runtime) where
  -- GREATEST and LEAST: a later argument wins only where it is strictly beyond.
  unfoldable pub extreme : Sign → Value → Args → Value
  unfolding compare_any
  extreme wanted best [] = best
  extreme wanted best (v ∷ vs) =
      extreme wanted (if sign_eq (compare_any rt v best) wanted then v else best) vs

  unfoldable pub abs_value : Value → Value
  unfolding sub64
  abs_value (int64 n) = int64 (if ltb_ℤ n (pos 0) then sub64 (pos 0) n else n)
  abs_value (float64 f) = float64 (if rt.float_lt f 0 then rt.float_neg f else f)
  abs_value v = v

  -- `for i := 0; i < decimals; i++ { mult *= 10 }`, from 1.0.
  unfoldable pub power_of_ten : ℕ → ℕ → ℕ
  power_of_ten zero mult = mult
  power_of_ten (suc n) mult = power_of_ten n (rt.float_mul mult 0x4024000000000000)

  -- ROUND: half a unit away from zero, then cut; 0x3FE0000000000000 is 0.5.
  unfoldable pub round_float : ℕ → ℤ → ℕ
  unfolding power_of_ten
  round_float f decimals =
      let mult = power_of_ten (pos_part decimals) 0x3FF0000000000000 in
      let scaled = rt.float_mul f mult in
      let half : ℕ = 0x3FE0000000000000 in
      let shifted =
        if rt.float_le 0 f then rt.float_add scaled half else rt.float_sub scaled half in
      rt.float_div (rt.float_of_int (rt.int_of_float shifted)) mult

  -- MOD: the operands go through float64 on the integer branch too.
  unfoldable pub mod_value : Value → Value → Value
  unfolding is_integer_value rem64 float_of
  mod_value a b =
      let af = float_of rt a in
      let bf = float_of rt b in
      if rt.float_is_zero bf
      then null
      else if is_integer_value a && is_integer_value b
      then int64 (rem64 (rt.int_of_float af) (rt.int_of_float bf))
      else float64 (rt.float_mod af bf)

  abbrev on_float : (ℕ → Value) → Args → Result Value
  on_float f args = do v ← arg 0 args; x ← to_float64 rt v; ok (f x)

  unfoldable pub numeric_func : Bytes → Args → Result Value → Result Value
  unfolding one_of arg abs_value round_float mod_value float_of int_of extreme to_float64
  numeric_func name args otherwise =
      if one_of name ("ABS" ∷ [])
      then need 1 "ABS: missing argument" args (do v ← arg 0 args; ok (abs_value v))
      else if one_of name ("CEIL" ∷ "CEILING" ∷ [])
      then on_float (λ f. int64 (rt.int_of_float (rt.float_ceil f))) args
      else if one_of name ("FLOOR" ∷ [])
      then on_float (λ f. int64 (rt.int_of_float (rt.float_floor f))) args
      else if one_of name ("ROUND" ∷ [])
      then on_float
          (λ f. float64 (round_float f (elim (arg 1 args) [ ok v ↦ int_of rt v | err e ↦ pos 0 ])))
          args
      else if one_of name ("MOD" ∷ [])
      then need 2 "MOD: 2 args required" args
          (do a ← arg 0 args; b ← arg 1 args; ok (mod_value a b))
      else if one_of name ("POW" ∷ "POWER" ∷ [])
      then need 2 "POW: 2 args required" args (do
        a ← arg 0 args
        b ← arg 1 args
        ok (float64 (rt.float_pow (float_of rt a) (float_of rt b))))
      else if one_of name ("GREATEST" ∷ [])
      then elim args [ [] ↦ ok null | v ∷ vs ↦ ok (extreme Ordering.gt v vs) ]
      else if one_of name ("LEAST" ∷ [])
      then elim args [ [] ↦ ok null | v ∷ vs ↦ ok (extreme Ordering.lt v vs) ]
      else otherwise
