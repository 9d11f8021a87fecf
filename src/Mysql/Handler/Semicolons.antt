-- ===== src/Mysql/Handler/Semicolons.antt =====
-- mysql/handler.go: the loop that takes trailing semicolons off a query.
use mongosql.Mysql.Comments.{strip_sql_comments}
use mongosql.Prelude.{
  length-take, take, ap, inr, inl, Bool-cases, ◌∷◌, ◌≤◌, if◌then◌else◌, true, false, length, zero,
  refl, suc, arith, [], ◌≡◌, ◌-◌, ℕ,
}
use mongosql.Bytes.{Bytes, bytes_eq}
use mongosql.Runtime.{Runtime}
use mongosql.Mysql.Handler.{strip_semicolons, statement_of}
use mongosql.Mysql.System.{ends_with}

-- TrimSpace does not make a text longer.
abbrev pub Shortens : Runtime → Type 0
Shortens rt = (s : Bytes) → length (rt.trim_space s) ≤ length s

module _ (rt : Runtime) (shortens : Shortens rt) where
  length-ends_with : (s : Bytes) → ends_with s (b';' ∷ []) ≡ true → 1 ≤ length s
  unfolding bytes_eq
  length-ends_with [] h = absurd (ground arith)
  length-ends_with (c ∷ s) h = omega arith

  -- What a round leaves is shorter.
  length-round :
      (fuel : ℕ) (s : Bytes)
      → length s ≤ suc fuel
      → length (rt.trim_space (take (length s - 1) s)) ≤ fuel
  length-round fuel s h =
      omega (arith, shortens (take (length s - 1) s), length-take (length s - 1) s)

  strip_semicolons-ends_with :
      (fuel : ℕ) (s : Bytes)
      → length s ≤ fuel
      → ends_with (strip_semicolons rt fuel s) (b';' ∷ []) ≡ false
  unfolding strip_semicolons
  strip_semicolons-ends_with zero s h = ground (arith, length-ends_with s)
  strip_semicolons-ends_with (suc fuel) s h = elim (Bool-cases (ends_with s (b';' ∷ []))) [
    | inl e ↦ rw e (
        strip_semicolons-ends_with fuel (rt.trim_space (take (length s - 1) s))
          (length-round fuel s h))
    | inr e ↦ ground (arith, e)
  ]

  strip_semicolons-enough :
      (fuel more : ℕ) (s : Bytes)
      → length s ≤ fuel
      → length s ≤ more
      → strip_semicolons rt fuel s ≡ strip_semicolons rt more s
  unfolding strip_semicolons
  strip_semicolons-enough zero zero s h k = refl
  strip_semicolons-enough zero (suc more) s h k = ground (arith, length-ends_with s)
  strip_semicolons-enough (suc fuel) zero s h k = ground (arith, length-ends_with s)
  strip_semicolons-enough (suc fuel) (suc more) s h k =
      ap (λ r. if ends_with s (b';' ∷ []) then r else s)
        (strip_semicolons-enough fuel more (rt.trim_space (take (length s - 1) s))
          (length-round fuel s h) (length-round more s k))

  -- Where TrimSpace makes no text longer, the loop has ended when it has run as often as the text
  -- has bytes: the statement that it leaves has no trailing semicolon, and with more rounds it is
  -- the same.
  pub statement_of-strip_semicolons :
      (query : Bytes) (more : ℕ)
      → length (rt.trim_space (strip_sql_comments query)) ≤ more
      → (ends_with (statement_of rt query) (b';' ∷ []) ≡ false)
        × (strip_semicolons rt more (rt.trim_space (strip_sql_comments query))
            ≡ statement_of rt query)
  unfolding statement_of
  statement_of-strip_semicolons query more h =
      let q = rt.trim_space (strip_sql_comments query) in
      (
        strip_semicolons-ends_with (length q) q (omega arith),
        strip_semicolons-enough more (length q) q h (omega arith),
      )
