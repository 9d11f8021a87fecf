-- ===== src/Mysql/Show/Answers.antt =====
-- mysql/meta.go: handleShow always answers.
use mongosql.Client.{Client}
use mongosql.Prelude.Int.{pos}
use mongosql.Mysql.Result.{Wire}
use mongosql.Prelude.{
  refl, ◌&&◌, ltb, Bool, take, inr, drop, inl, Option-cases, [], ◌≤◌, ◌∷◌, String, some, ◌≡◌, arith,
  ◌-◌, ◌+◌, ℕ, length, true,
}
use mongosql.Runtime.{Runtime}
use mongosql.Result.{◌>>=◌, err, ok, Result}
use mongosql.Bytes.{str, Bytes, has_prefix, index}
use mongosql.Mysql.Show.{
  nothing, variables_shown, table_statement, database_statement, tables, databases, canned, Shown,
  extract_table_name, shown_reply, handle_show, first_case, shows,
}
use mongosql.Expr.Slice.{slice}

abbrev pub is_ascii : Bytes → Bool
is_ascii [] = true
is_ascii (c ∷ s) = ltb c 128 && is_ascii s

-- ToUpper keeps the length of ASCII texts, in which it only changes letters to letters.
abbrev pub KeepsLength : Runtime → Type 0
KeepsLength rt = (s : Bytes) → is_ascii s ≡ true → length (rt.to_upper s) ≡ length s

-- There is a value: neither an error nor a panic.
unfoldable pub IsOk {ℓ} : {A : Type ℓ} → Result A → Type 0
IsOk (ok a) = Unit
IsOk (err e) = ⊥

has_prefix-length : (s p : Bytes) → has_prefix s p ≡ true → length p ≤ length s
unfolding has_prefix
has_prefix-length s [] h = omega arith
has_prefix-length [] (p ∷ ps) h = absurd (ground arith)
has_prefix-length (c ∷ s) (p ∷ ps) h = ground (arith, has_prefix-length s ps)

index-length : (s p : Bytes) (n : ℕ) → index s p ≡ some n → n + length p ≤ length s
unfolding index
index-length [] p n h = ground (arith, has_prefix-length [] p)
index-length (c ∷ s) p n h = elim (Option-cases (index s p)) [
  | inl e ↦ ground (arith, e, has_prefix-length (c ∷ s) p)
  | inr (m, e) ↦ ground (arith, e, has_prefix-length (c ∷ s) p, index-length s p m)
]

slice_within :
    (s : Bytes) (a b : ℕ)
    → a ≤ b
    → b ≤ length s
    → slice s (pos a) (pos b) ≡ ok (take (b - a) (drop a s))
unfolding slice
slice_within s a b h k = ground arith

bind-IsOk {ℓ κ} :
    {A : Type ℓ} {B : Type κ} (r : Result A) (f : A → B) → IsOk r → IsOk (r >>= (λ a. ok (f a)))
unfolding IsOk
bind-IsOk (ok a) f h = tt
bind-IsOk (err e) f h = absurd h

module _ (rt : Runtime) (keeps : KeepsLength rt) where
  extract_table_name-IsOk :
      (q : Bytes) (prefix : String)
      → is_ascii q ≡ true
      → is_ascii (str prefix) ≡ true
      → IsOk (extract_table_name rt q prefix)
  unfolding extract_table_name IsOk
  extract_table_name-IsOk q prefix h k =
      elim (Option-cases (index (rt.to_upper q) (rt.to_upper (str prefix)))) [
        | inl e ↦ rw (e, extract_table_name) tt
        | inr (n, e) ↦
            rw
              (
                e,
                slice_within q (n + length (str prefix)) (length q)
                    (omega (
                      arith,
                      index-length (rt.to_upper q) (rt.to_upper (str prefix)) n e,
                      keeps q h,
                      keeps (str prefix) k,
                    ))
                    (omega arith),
                extract_table_name,
              )
              tt
      ]

  module _ (wire : Wire) (client : Client) where
    shown_reply-IsOk :
        (a : Shown) (q rest current db : Bytes) (w : client.World)
        → is_ascii q ≡ true
        → IsOk (shown_reply rt wire client a q rest current db w)
    unfolding shown_reply IsOk str
    shown_reply-IsOk databases q rest current db w h = tt
    shown_reply-IsOk tables q rest current db w h = tt
    shown_reply-IsOk database_statement q rest current db w h = tt
    shown_reply-IsOk table_statement q rest current db w h =
        bind-IsOk (extract_table_name rt q "SHOW CREATE TABLE") _
          (extract_table_name-IsOk q "SHOW CREATE TABLE" h refl)
    shown_reply-IsOk variables_shown q rest current db w h = tt
    shown_reply-IsOk nothing q rest current db w h = tt
    shown_reply-IsOk (canned cols []) q rest current db w h = tt
    shown_reply-IsOk (canned cols (c ∷ cs)) q rest current db w h = tt

    -- Where ToUpper keeps the length of ASCII texts, every SHOW statement in ASCII is answered,
    -- whatever stands behind the word and whatever the server says: never with an error, and never
    -- with a panic.
    pub handle_show-IsOk :
        (q upper current db : Bytes) (w : client.World)
        → is_ascii q ≡ true
        → IsOk (handle_show rt wire client q upper current db w)
    unfolding handle_show IsOk
    handle_show-IsOk q upper current db w h =
        elim (Option-cases (first_case (rt.trim_space (drop 4 upper)) shows)) [
          | inl e ↦ rw (e, handle_show) tt
          | inr (a, e) ↦
              rw (e, handle_show)
                (shown_reply-IsOk a q (rt.trim_space (drop 4 upper)) current db w h)
        ]
