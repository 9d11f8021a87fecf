-- ===== src/Mysql/Scan/RoundTrip.antt =====
-- mysql/meta.go: what splitTopLevel cuts, put together again.
use mongosql.Mysql.Scan.{Splitter, split_step, split_loop, split_top_level, fresh}
use mongosql.Prelude.{append_assoc, ℕ, [], ◌∷◌, ◌++◌, ◌≡◌, refl, List, arith, true, false, ◌⊎◌}
use mongosql.Bytes.{Bytes}

-- Every part with the separator behind it.
abbrev pub terminated : ℕ → List Bytes → Bytes
terminated sep [] = []
terminated sep (p ∷ ps) = p ++ sep ∷ terminated sep ps

-- A byte either ends the segment, and is the separator, or is added to it.
split_step-segment :
    (sep : ℕ) (st : Splitter) (c : ℕ)
    → (((split_step sep st c).1 ≡ true) × ((split_step sep st c).0.segment ≡ []) × (c ≡ sep))
      ⊎ (((split_step sep st c).1 ≡ false)
          × ((split_step sep st c).0.segment ≡ st.segment ++ c ∷ []))
unfolding split_step
split_step-segment sep st c = ground arith

terminated-split_loop :
    (sep : ℕ) (st : Splitter) (s : Bytes)
    → terminated sep (split_loop sep st s) ≡ st.segment ++ (s ++ sep ∷ [])
unfolding split_loop
terminated-split_loop sep st [] = refl
terminated-split_loop sep st (c ∷ s) = ground (
  arith,
  split_step-segment sep st c,
  terminated-split_loop sep (split_step sep st c).0 s,
  append_assoc st.segment (c ∷ []) (s ++ sep ∷ []),
)

-- No byte is lost or moved: the parts of a text, each with the separator behind it, are the text
-- with the separator behind it.
pub terminated-split_top_level :
    (s : Bytes) (sep : ℕ) → terminated sep (split_top_level s sep) ≡ s ++ sep ∷ []
unfolding split_top_level
terminated-split_top_level s sep = terminated-split_loop sep fresh s
