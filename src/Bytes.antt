-- ===== src/Bytes.antt =====
-- Go strings as byte lists, and the routines of Go's `strings` package that the program uses.
pub mod Trim
use Prim.Native.Char.{code}
use mathlib.Core.List.{reverse}
use mongosql.Prelude.{
  ℕ, suc, String, ◌≡◌, refl, ◌↔◌, Bool, true, false, ◌&&◌, ◌||◌, Option, none, some, List, [], ◌∷◌,
  ◌++◌, arith, ◌==◌, if◌then◌else◌,
}

abbrev pub Bytes : Type 0
Bytes = List ℕ

-- The bytes of an ASCII text.
unfoldable pub str : String → Bytes
str String.[] = []
str (String.◌∷◌ c s) = code c ∷ str s

-- `a == b` on strings.
unfoldable pub bytes_eq : Bytes → Bytes → Bool
bytes_eq [] [] = true
bytes_eq (a ∷ x) (b ∷ y) = (a == b) && bytes_eq x y
bytes_eq [] (b ∷ y) = false
bytes_eq (a ∷ x) [] = false

pub bytes_eq→≡ : (x y : Bytes) → bytes_eq x y ≡ true → x ≡ y
unfolding bytes_eq
bytes_eq→≡ [] [] h = refl
bytes_eq→≡ (a ∷ x) (b ∷ y) h = ground (arith, bytes_eq→≡ x y)
bytes_eq→≡ [] (b ∷ y) h = ground arith
bytes_eq→≡ (a ∷ x) [] h = ground arith

pub bytes_eq_refl : (x : Bytes) → bytes_eq x x ≡ true
unfolding bytes_eq
bytes_eq_refl [] = refl
bytes_eq_refl (a ∷ x) = ground (arith, bytes_eq_refl x)

pub bytes_eq_iff : (x y : Bytes) → (bytes_eq x y ≡ true) ↔ (x ≡ y)
bytes_eq_iff x y = (bytes_eq→≡ x y, λ e. ground (arith, bytes_eq_refl x))

-- Is the text one of the listed ones? The labels of a `case`.
unfoldable pub one_of : Bytes → List String → Bool
unfolding bytes_eq str
one_of x [] = false
one_of x (s ∷ ss) = bytes_eq x (str s) || one_of x ss

unfoldable pub elem : ℕ → Bytes → Bool
elem c [] = false
elem c (b ∷ bs) = (c == b) || elem c bs

-- `strings.HasPrefix`.
unfoldable pub has_prefix : Bytes → Bytes → Bool
has_prefix s [] = true
has_prefix [] (p ∷ ps) = false
has_prefix (c ∷ s) (p ∷ ps) = (c == p) && has_prefix s ps

-- `strings.Index`: the position of the first occurrence.
unfoldable pub index : Bytes → Bytes → Option ℕ
unfolding has_prefix
index [] sub = if has_prefix [] sub then some 0 else none
index (c ∷ s) sub =
    if has_prefix (c ∷ s) sub
    then some 0
    else elim (index s sub) [ none ↦ none | some n ↦ some (suc n) ]

-- `strings.Contains`.
unfoldable pub contains : Bytes → Bytes → Bool
unfolding index
contains s sub = elim (index s sub) [ none ↦ false | some n ↦ true ]

-- `strings.TrimLeft` with a set of ASCII bytes.
unfoldable pub trim_left : Bytes → Bytes → Bytes
unfolding elem
trim_left cutset [] = []
trim_left cutset (c ∷ s) = if elem c cutset then trim_left cutset s else c ∷ s

unfoldable pub trim_right : Bytes → Bytes → Bytes
unfolding trim_left
trim_right cutset s = reverse (trim_left cutset (reverse s))

-- `strings.Trim`.
unfoldable pub trim : Bytes → Bytes → Bytes
unfolding trim_left trim_right
trim cutset s = trim_right cutset (trim_left cutset s)

-- `strings.Join`.
unfoldable pub join : Bytes → List Bytes → Bytes
join sep [] = []
join sep (x ∷ []) = x
join sep (x ∷ y ∷ r) = x ++ (sep ++ join sep (y ∷ r))

attach : ℕ → List Bytes → List Bytes
attach c [] = (c ∷ []) ∷ []
attach c (p ∷ ps) = (c ∷ p) ∷ ps

-- `strings.Split` by one byte.
unfoldable pub split_on : ℕ → Bytes → List Bytes
unfolding attach
split_on sep [] = [] ∷ []
split_on sep (c ∷ s) = if c == sep then [] ∷ split_on sep s else attach c (split_on sep s)

-- `strings.ReplaceAll` of one byte by one byte.
unfoldable pub replace_byte : ℕ → ℕ → Bytes → Bytes
replace_byte old new [] = []
replace_byte old new (c ∷ s) = (if c == old then new else c) ∷ replace_byte old new s
