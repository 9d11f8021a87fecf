-- ===== src/Result.antt =====
-- Go's (value, error) results. The text of an error is its format string: the values that the
-- verbs %T, %s and %w stand for are left out, but for the wrapped error. `panic` is a run-time
-- panic: an index or a slice out of range.
use mongosql.Prelude.{arith, inr, inl, ◌⊎◌, refl, ◌≡◌, String}
use mongosql.Bytes.{Bytes}

pub data Error : Type 0 where
  message : String → Error
  panic : Error
  wrapped : String → Error → Error
  -- an error of the MongoDB driver or the SQL parser, with its text
  reported : Bytes → Error
  -- mysql.NewError with the name of its code
  mysql_error : String → Error → Error

pub data Result {ℓ} (A : Type ℓ) : Type ℓ where
  ok : A → Result A
  err : Error → Result A

infixl 5 ◌>>=◌
abbrev pub ◌>>=◌ {ℓ κ} : {A : Type ℓ} {B : Type κ} → Result A → (A → Result B) → Result B
ok a >>= f = f a
err e >>= f = err e

abbrev pub fail {ℓ} : {A : Type ℓ} → String → Result A
fail s = err (message s)

-- `fmt.Errorf("...: %w", err)`.
abbrev pub wrap {ℓ} : {A : Type ℓ} → String → Result A → Result A
wrap s (ok a) = ok a
wrap s (err e) = err (wrapped s e)

abbrev pub map_ok {ℓ κ} : {A : Type ℓ} {B : Type κ} → (A → B) → Result A → Result B
map_ok f (ok a) = ok (f a)
map_ok f (err e) = err e

pub Result-cases {ℓ} :
    {A : Type ℓ} (r : Result A) → ((a : A) × (r ≡ ok a)) ⊎ ((e : Error) × (r ≡ err e))
Result-cases (ok a) = inl (a, refl)
Result-cases (err e) = inr (e, refl)

-- Where the result is a value, `P` holds of it.
abbrev pub Ensures {ℓ κ} : {A : Type ℓ} → (A → Type κ) → Result A → Type (ℓ ⊔ κ)
Ensures {A = A} P r = (a : A) → r ≡ ok a → P a

pub bind-Ensures {ℓ κ μ} :
    {A : Type ℓ} {B : Type κ} (P : B → Type μ) (r : Result A) (f : A → Result B)
    → ((a : A) → Ensures P (f a))
    → Ensures P (r >>= f)
bind-Ensures P (ok a) f h b e = h a b e
bind-Ensures P (err x) f h b e = absurd (ground arith)
