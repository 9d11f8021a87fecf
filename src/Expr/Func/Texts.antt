-- ===== src/Expr/Func/Texts.antt =====
-- translator/internal/expr/expr.go, evalFunc: the functions on texts.
use mongosql.Expr.Func.Arguments.{blanks, arg, need}
use mongosql.Expr.Slice.{pad_string, strings_repeat, right, substring_start, func_substring, left}
use mathlib.Core.List.{drop, []}
use mongosql.Prelude.Int.{leb_ℤ, pos, ltb_ℤ, ℤ}
use mongosql.Prelude.{
  false, true, some, length, none, ◌++◌, [], if◌then◌else◌, ◌∷◌, String, Bool, List,
}
use mongosql.Expr.Convert.{to_int64, to_string}
use mongosql.Bytes.{join, trim_right, str, trim_left, Bytes, one_of}
use mongosql.Runtime.{Runtime}
use mongosql.Result.{wrap, ◌>>=◌, map_ok, panic, Result, ok, err}
use mongosql.Bson.{is_nil, Value, null, int64, text}

abbrev Args : Type 0
Args = List Value

module _ (rt : Runtime) where
  -- CONCAT: NULL as soon as one argument is.
  unfoldable pub concat_values : Bytes → Args → Value
  unfolding to_string
  concat_values out [] = text out
  concat_values out (null ∷ vs) = null
  concat_values out (v ∷ vs) = concat_values (out ++ to_string rt v) vs

  -- The parts of CONCAT_WS: the arguments that are not NULL.
  unfoldable pub concat_parts : Args → List Bytes
  unfolding to_string
  concat_parts [] = []
  concat_parts (null ∷ vs) = concat_parts vs
  concat_parts (v ∷ vs) = to_string rt v ∷ concat_parts vs

  abbrev text_result : Result Bytes → Result Value
  text_result = map_ok text

  -- The functions that map the text of their first argument.
  abbrev on_text : String → (Bytes → Value) → Args → Result Value
  on_text why f args = need 1 why args (do v ← arg 0 args; ok (f (to_string rt v)))

  unfoldable pub case_func : Bytes → Args → Result Value → Result Value
  unfolding one_of arg to_string trim_left trim_right concat_values concat_parts join str
  case_func name args otherwise =
      if one_of name ("UPPER" ∷ "UCASE" ∷ [])
      then on_text "UPPER: missing argument" (λ s. text (rt.to_upper s)) args
      else if one_of name ("LOWER" ∷ "LCASE" ∷ [])
      then on_text "LOWER: missing argument" (λ s. text (rt.to_lower s)) args
      else if one_of name ("LENGTH" ∷ "CHAR_LENGTH" ∷ "CHARACTER_LENGTH" ∷ [])
      then on_text "LENGTH: missing argument" (λ s. int64 (pos (length s))) args
      else if one_of name ("TRIM" ∷ [])
      then on_text "TRIM: missing argument" (λ s. text (rt.trim_space s)) args
      else if one_of name ("LTRIM" ∷ [])
      then on_text "LTRIM: missing argument" (λ s. text (trim_left blanks s)) args
      else if one_of name ("RTRIM" ∷ [])
      then on_text "RTRIM: missing argument" (λ s. text (trim_right blanks s)) args
      else if one_of name ("CONCAT" ∷ [])
      then ok (concat_values [] args)
      else if one_of name ("CONCAT_WS" ∷ [])
      then need 2 "CONCAT_WS: at least 2 args required" args (elim args [
        | [] ↦ err panic
        | v ∷ vs ↦ if is_nil v then ok null else ok (text (join (to_string rt v) (concat_parts vs)))
      ])
      else otherwise

  -- The third argument of SUBSTRING is read only where the text is not exhausted.
  unfoldable pub substring_with : Bytes → ℤ → Args → Result Value
  unfolding func_substring substring_start to_int64
  substring_with s start [] = text_result (func_substring s start none)
  substring_with s start (v ∷ _) =
      if leb_ℤ (pos (length s)) (substring_start s start) then ok (text []) else do
        len ← wrap "SUBSTRING length: %w" (to_int64 rt v)
        text_result (func_substring s start (some len))

  abbrev with_count : (Bytes → ℤ → Result Bytes) → Args → Result Value
  with_count f args = do
    s ← arg 0 args
    v ← arg 1 args
    n ← to_int64 rt v
    text_result (f (to_string rt s) n)

  abbrev with_pad : Bool → Args → Result Value
  with_pad on_left args = do
    s ← arg 0 args
    v ← arg 1 args
    n ← to_int64 rt v
    pad ← arg 2 args
    text_result (pad_string (to_string rt s) n (to_string rt pad) on_left)

  unfoldable pub cut_func : Bytes → Args → Result Value → Result Value
  unfolding one_of arg to_string to_int64 substring_with left right strings_repeat pad_string
  cut_func name args otherwise =
      if one_of name ("SUBSTRING" ∷ "SUBSTR" ∷ "MID" ∷ [])
      then need 2 "SUBSTRING: at least 2 args required" args (do
        s ← arg 0 args
        from ← arg 1 args
        start ← wrap "SUBSTRING start: %w" (to_int64 rt from)
        substring_with (to_string rt s) start (drop 2 args))
      else if one_of name ("REPLACE" ∷ [])
      then need 3 "REPLACE: 3 args required" args (do
        s ← arg 0 args
        old ← arg 1 args
        new ← arg 2 args
        ok (text (rt.replace_all (to_string rt s) (to_string rt old) (to_string rt new))))
      else if one_of name ("REVERSE" ∷ [])
      then on_text "REVERSE: missing argument" (λ s. text (rt.reverse_runes s)) args
      else if one_of name ("LEFT" ∷ [])
      then need 2 "LEFT: 2 args required" args (with_count left args)
      else if one_of name ("RIGHT" ∷ [])
      then need 2 "RIGHT: 2 args required" args (with_count right args)
      else if one_of name ("REPEAT" ∷ [])
      then need 2 "REPEAT: 2 args required" args
          (with_count (λ s n. strings_repeat s (if ltb_ℤ n (pos 0) then pos 0 else n)) args)
      else if one_of name ("LPAD" ∷ [])
      then need 3 "LPAD: 3 args required" args (with_pad true args)
      else if one_of name ("RPAD" ∷ [])
      then need 3 "RPAD: 3 args required" args (with_pad false args)
      else otherwise
