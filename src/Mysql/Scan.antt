-- ===== src/Mysql/Scan.antt =====
-- mysql/meta.go: hasTopLevelFrom, isSQLBoundary and splitTopLevel; mysql/ddl.go: firstIdent and
-- splitDBTable; mysql/alter.go: cleanIdent.
pub mod RoundTrip
pub mod Dot
use mongosql.Runtime.{Runtime}
use mongosql.Mysql.Comments.{backslash, is_quote}
use mongosql.Prelude.{
  drop, List, length, if◌then◌else◌, false, zero, Option, Bool, not, [], some, ℕ, none, ◌&&◌, ◌++◌,
  ◌==◌, ◌+◌, ◌∷◌, ◌-◌, suc, true,
}
use mongosql.Bytes.{trim, has_prefix, elem, Bytes}

unfoldable pub is_sql_boundary : ℕ → Bool
unfolding elem
is_sql_boundary b = elem b (32 ∷ 9 ∷ 10 ∷ 13 ∷ b'(' ∷ b')' ∷ b',' ∷ b';' ∷ [])

-- The loop that skips a quoted segment.
unfoldable pub skip_quoted : ℕ → Bytes → Bytes
skip_quoted q [] = []
skip_quoted q (c ∷ []) = []
skip_quoted q (c ∷ d ∷ s) =
    let after = skip_quoted q s in
    let rest = skip_quoted q (d ∷ s) in
    if c == backslash then after else if c == q then d ∷ s else rest

abbrev boundary_at : Bytes → Bool
boundary_at [] = true
boundary_at (c ∷ s) = is_sql_boundary c

abbrev from_word : Bytes
from_word = b'F' ∷ b'R' ∷ b'O' ∷ b'M' ∷ []

-- The depth of parentheses after a byte: it does not fall below 0.
abbrev deepen : ℕ → ℕ → ℕ
deepen c depth = if c == b'(' then depth + 1 else if c == b')' then depth - 1 else depth

-- `prev_ok` tells whether the byte before, if any, is a boundary.
unfoldable pub from_loop : ℕ → ℕ → Bool → Bytes → Bool
unfolding is_sql_boundary skip_quoted has_prefix
from_loop zero depth prev_ok s = false
from_loop (suc fuel) depth prev_ok [] = false
from_loop (suc fuel) depth prev_ok (c ∷ s) =
    let after_quoted = from_loop fuel depth false (skip_quoted c s) in
    let after_byte = from_loop fuel (deepen c depth) (is_sql_boundary c) s in
    if is_quote c
    then after_quoted
    else if (deepen c depth == 0)
        && has_prefix (c ∷ s) from_word
        && prev_ok
        && boundary_at (drop 4 (c ∷ s))
    then true
    else after_byte

unfoldable pub has_top_level_from : Bytes → Bool
unfolding from_loop
has_top_level_from body = from_loop (length body) 0 true body

-- The state of splitTopLevel: the parentheses opened and closed (depth is their difference), the
-- open quote, the byte before, and the segment read so far, from `start` on.
pub record Splitter : Type 0 where
  pub opened : ℕ
  pub closed : ℕ
  pub quote : Option ℕ
  pub escaped : Bool
  pub segment : Bytes

-- One byte: the new state, and whether the byte ends the segment.
unfoldable pub split_step : ℕ → Splitter → ℕ → Splitter × Bool
split_step sep st c =
    let seen : Splitter = record st { escaped = c == backslash; segment = st.segment ++ c ∷ [] } in
    elim st.quote [
      | some q ↦ (if (c == q) && not st.escaped then record seen { quote = none } else seen, false)
      | none ↦
          if is_quote c
          then (record seen { quote = some c }, false)
          else if c == b'('
          then (record seen { opened = st.opened + 1 }, false)
          else if c == b')'
          then (record seen { closed = st.closed + 1 }, false)
          else if (c == sep) && (st.opened == st.closed)
          then (record st { escaped = c == backslash; segment = [] }, true)
          else (seen, false)
    ]

unfoldable pub split_loop : ℕ → Splitter → Bytes → List Bytes
unfolding split_step
split_loop sep st [] = st.segment ∷ []
split_loop sep st (c ∷ s) =
    let (st', cut) = split_step sep st c in
    let rest = split_loop sep st' s in if cut then st.segment ∷ rest else rest

abbrev pub fresh : Splitter
fresh = record { opened = 0; closed = 0; quote = none; escaped = false; segment = [] }

unfoldable pub split_top_level : Bytes → ℕ → List Bytes
unfolding split_loop
split_top_level s sep = split_loop sep fresh s

abbrev pub quotes_and_space : Bytes
quotes_and_space = 96 ∷ 34 ∷ 39 ∷ 32 ∷ []

-- The token up to the first of these bytes.
unfoldable pub take_token : Bytes → Bytes
unfolding elem
take_token [] = []
take_token (c ∷ s) =
    if elem c (32 ∷ 9 ∷ 10 ∷ 13 ∷ b'(' ∷ b';' ∷ b',' ∷ []) then [] else c ∷ take_token s

unfoldable pub first_ident : Runtime → Bytes → Bytes
unfolding take_token trim
first_ident rt s = trim (quotes_and_space ++ b';' ∷ []) (take_token (rt.trim_space s))

-- The text before and after the last dot.
unfoldable pub last_dot : Bytes → Option (Bytes × Bytes)
last_dot [] = none
last_dot (c ∷ s) = elim (last_dot s) [
  | some (a, b) ↦ some (c ∷ a, b)
  | none ↦ if c == b'.' then some ([], s) else none
]

unfoldable pub split_db_table : Bytes → Bytes × Bytes
unfolding trim last_dot
split_db_table ident = elim (last_dot (trim quotes_and_space ident)) [
  | some (a, b) ↦ (trim quotes_and_space a, trim quotes_and_space b)
  | none ↦ ([], trim quotes_and_space ident)
]

unfoldable pub clean_ident : Runtime → Bytes → Bytes
unfolding trim
clean_ident rt s = trim quotes_and_space (rt.trim_space s)
