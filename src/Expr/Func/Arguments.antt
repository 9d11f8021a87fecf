-- ===== src/Expr/Func/Arguments.antt =====
-- translator/internal/expr/expr.go, evalFunc: the argument list.
use mathlib.Core.List.{[]}
use Prim.Native.Nat.{zero, suc, ℕ}
use mongosql.Prelude.{
  some, length, none, [], if◌then◌else◌, ltb, ◌∷◌, String, Option, ℕ, Bool, List,
}
use mongosql.Bytes.{Bytes}
use mongosql.Result.{map_ok, panic, Result, ok, err, fail}
use mongosql.Bson.{Value}

abbrev pub Args : Type 0
Args = List Value

-- The bytes that LTRIM and RTRIM cut.
abbrev pub blanks : Bytes
blanks = 32 ∷ 9 ∷ 10 ∷ 13 ∷ []

abbrev pub too_few : ℕ → Args → Bool
too_few n args = ltb (length args) n

-- `args[i]`: a panic where there is no such argument.
unfoldable pub arg : ℕ → Args → Result Value
arg i [] = err panic
arg zero (v ∷ vs) = ok v
arg (suc i) (v ∷ vs) = arg i vs

-- `fmt.Errorf(...)` unless there are `n` arguments.
abbrev pub need {ℓ} : {A : Type ℓ} → ℕ → String → Args → Result A → Result A
need n why args rest = if too_few n args then fail why else rest

abbrev pub optional {ℓ} : {A : Type ℓ} → (Value → Result A) → Args → ℕ → Result (Option A)
optional f args i = elim (arg i args) [ err e ↦ ok none | ok v ↦ map_ok some (f v) ]
