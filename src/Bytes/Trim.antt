-- ===== src/Bytes/Trim.antt =====
-- strings.Trim: what it takes off a text, and what it leaves.
use mathlib.Core.List.{reverse, reverse-append, reverse-reverse}
use mongosql.Bytes.{Bytes, elem, trim, trim_left, trim_right}
use mongosql.Prelude.{
  ℕ, Bool, true, false, not, ◌&&◌, [], ◌∷◌, ◌++◌, ◌≡◌, ◌∙◌, refl, sym, ap, arith, append_assoc,
  append_nil,
}

abbrev pub all : (ℕ → Bool) → Bytes → Bool
all p [] = true
all p (c ∷ s) = p c && all p s

pub all-append : (p : ℕ → Bool) (s t : Bytes) → all p (s ++ t) ≡ (all p s && all p t)
all-append p [] t = refl
all-append p (c ∷ s) t = ground (arith, all-append p s t)

all-reverse : (p : ℕ → Bool) (s : Bytes) → all p (reverse s) ≡ all p s
all-reverse p [] = refl
all-reverse p (c ∷ s) =
    ap (all p) (reverse-append (c ∷ []) s)
    ∙ ground (arith, all-append p (reverse s) (c ∷ []), all-reverse p s)

reverse-around : (c : ℕ) (s t : Bytes) → reverse (s ++ c ∷ t) ≡ reverse t ++ c ∷ reverse s
reverse-around c s t =
    reverse-append s (c ∷ t)
    ∙ (ap (λ u. u ++ reverse s) (reverse-append (c ∷ []) t)
        ∙ append_assoc (reverse t) (c ∷ []) (reverse s))

-- Is every byte cut off, or none?
abbrev pub all_cut : Bytes → Bytes → Bool
all_cut cut = all (λ c. elem c cut)

abbrev pub none_cut : Bytes → Bytes → Bool
none_cut cut = all (λ c. not (elem c cut))

module _ (cut : Bytes) where
  trim_left-all_cut :
      (l s : Bytes) → all_cut cut l ≡ true → trim_left cut (l ++ s) ≡ trim_left cut s
  unfolding trim_left
  trim_left-all_cut [] s h = refl
  trim_left-all_cut (c ∷ l) s h = ground (arith, trim_left-all_cut l s)

  trim_left-none_cut : (s : Bytes) → none_cut cut s ≡ true → trim_left cut s ≡ s
  unfolding trim_left
  trim_left-none_cut [] h = refl
  trim_left-none_cut (c ∷ s) h = ground arith

  pub trim_left-twice : (s : Bytes) → trim_left cut (trim_left cut s) ≡ trim_left cut s
  unfolding trim_left
  trim_left-twice [] = refl
  trim_left-twice (c ∷ s) = ground (arith, trim_left-twice s)

  -- Nothing is taken off behind a byte that stays.
  trim_left-stops :
      (c : ℕ) (s t : Bytes)
      → elem c cut ≡ false
      → trim_left cut (s ++ c ∷ t) ≡ trim_left cut s ++ c ∷ t
  unfolding trim_left
  trim_left-stops c [] t h = ground arith
  trim_left-stops c (d ∷ s) t h = ground (arith, trim_left-stops c s t h)

  all-trim_left : (p : ℕ → Bool) (s : Bytes) → all p s ≡ true → all p (trim_left cut s) ≡ true
  unfolding trim_left
  all-trim_left p [] h = refl
  all-trim_left p (c ∷ s) h = ground (arith, all-trim_left p s)

  pub all-trim_right : (p : ℕ → Bool) (s : Bytes) → all p s ≡ true → all p (trim_right cut s) ≡ true
  unfolding trim_right
  all-trim_right p s h =
      all-reverse p (trim_left cut (reverse s)) ∙ all-trim_left p (reverse s) (all-reverse p s ∙ h)

  pub trim_right-all_cut :
      (s r : Bytes) → all_cut cut r ≡ true → trim_right cut (s ++ r) ≡ trim_right cut s
  unfolding trim_right
  trim_right-all_cut s r h =
      ap (λ t. reverse (trim_left cut t)) (reverse-append s r)
      ∙ ap reverse (trim_left-all_cut (reverse r) (reverse s) (all-reverse (λ c. elem c cut) r ∙ h))

  pub trim_right-none_cut : (s : Bytes) → none_cut cut s ≡ true → trim_right cut s ≡ s
  unfolding trim_right
  trim_right-none_cut s h =
      ap reverse (trim_left-none_cut (reverse s) (all-reverse (λ c. not (elem c cut)) s ∙ h))
      ∙ reverse-reverse s

  pub trim_right-stops :
      (c : ℕ) (s t : Bytes)
      → elem c cut ≡ false
      → trim_right cut (s ++ c ∷ t) ≡ s ++ c ∷ trim_right cut t
  unfolding trim_right
  trim_right-stops c s t h =
      ap (λ u. reverse (trim_left cut u)) (reverse-around c s t)
      ∙ (ap reverse (trim_left-stops c (reverse t) (reverse s) h)
          ∙ (reverse-around c (trim_left cut (reverse t)) (reverse s)
              ∙ ap (λ u. u ++ c ∷ reverse (trim_left cut (reverse t))) (reverse-reverse s)))

  -- A text without cut bytes, between bytes that are cut off.
  pub trim-between :
      (l a r : Bytes)
      → all_cut cut l ≡ true
      → none_cut cut a ≡ true
      → all_cut cut r ≡ true
      → trim cut (l ++ (a ++ r)) ≡ a
  unfolding trim
  trim-between l [] r h k m =
      ap (trim_right cut) (trim_left-all_cut l r h)
      ∙ ap (trim_right cut) (ap (trim_left cut) (sym (append_nil r)) ∙ trim_left-all_cut r [] m)
  trim-between l (c ∷ a) r h k m =
      ap (trim_right cut) (trim_left-all_cut l (c ∷ (a ++ r)) h)
      ∙ (ap (trim_right cut) (trim_left-stops c [] (a ++ r) (ground arith))
          ∙ (trim_right-all_cut (c ∷ a) r m ∙ trim_right-none_cut (c ∷ a) k))

  -- A byte that stays parts what is taken off on its two sides.
  pub trim-stops :
      (c : ℕ) (s t : Bytes)
      → elem c cut ≡ false
      → trim cut (s ++ c ∷ t) ≡ trim_left cut s ++ c ∷ trim_right cut t
  unfolding trim
  trim-stops c s t h =
      ap (trim_right cut) (trim_left-stops c s t h) ∙ trim_right-stops c (trim_left cut s) t h
