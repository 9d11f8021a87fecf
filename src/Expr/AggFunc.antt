-- ===== src/Expr/AggFunc.antt =====
-- translator/internal/expr/agg_expr.go: translateFuncExpr, once the arguments are translated.
use mongosql.Prelude.{drop, [], ◌∷◌, if◌then◌else◌}
use mongosql.Bytes.{Bytes, one_of, str}
use mongosql.Prelude.Int.{negsuc, pos}
use mongosql.Result.{err, ok, ◌>>=◌, fail, Result}
use mongosql.Expr.Func.Arguments.{Args, arg, need}
use mongosql.Bson.{
  Value, null, int64, float64, text, arr, obj, m, pair, triple, of_list, end, field,
}

abbrev pub ten_to : Value → Value
ten_to d = m "$pow" (pair (int64 (pos 10)) d)

-- An operator on the first argument.
abbrev on_first : (Value → Value) → Args → Result Value
on_first f args = do v ← arg 0 args; ok (f v)

abbrev on_two : (Value → Value → Value) → Args → Result Value
on_two f args = do a ← arg 0 args; b ← arg 1 args; ok (f a b)

abbrev on_three : (Value → Value → Value → Value) → Args → Result Value
on_three f args = do a ← arg 0 args; b ← arg 1 args; c ← arg 2 args; ok (f a b c)

-- CONCAT_WS: the separator stands before each part but the first.
unfoldable pub intersperse : Value → Args → Args
intersperse sep [] = []
intersperse sep (v ∷ []) = v ∷ []
intersperse sep (v ∷ w ∷ vs) = v ∷ sep ∷ intersperse sep (w ∷ vs)

-- "effectively to end of string"
abbrev pub far : Value
far = int64 (pos 1000000)

abbrev third_or : Value → Args → Value
third_or d args = elim (arg 2 args) [ ok v ↦ v | err e ↦ d ]

abbrev second_or : Value → Args → Value
second_or d args = elim (arg 1 args) [ ok v ↦ v | err e ↦ d ]

-- ROUND: sign(x) * floor(|x| * 10^d + 0.5) / 10^d.
unfoldable pub round_expr : Value → Value → Value
unfolding str
round_expr x d =
    let mult = ten_to d in
    let scaled =
      m "$add" (pair (m "$multiply" (pair (m "$abs" x) mult)) (float64 0x3FE0000000000000)) in
    let floored = m "$floor" scaled in
    let sign =
      m "$cond" (triple (m "$lt" (pair x (int64 (pos 0)))) (int64 (negsuc 0)) (int64 (pos 1))) in
    m "$divide" (pair (m "$multiply" (pair sign floored)) mult)

unfoldable pub agg_text_func : Bytes → Args → Result Value → Result Value
unfolding one_of str arg intersperse
agg_text_func name args otherwise =
    if one_of name ("UPPER" ∷ "UCASE" ∷ [])
    then on_first (m "$toUpper") args
    else if one_of name ("LOWER" ∷ "LCASE" ∷ [])
    then on_first (m "$toLower") args
    else if one_of name ("CONCAT" ∷ [])
    then ok (m "$concat" (arr (of_list args)))
    else if one_of name ("CONCAT_WS" ∷ [])
    then need 2 "CONCAT_WS requires at least 2 args" args
        (do sep ← arg 0 args; ok (m "$concat" (arr (of_list (intersperse sep (drop 1 args))))))
    else if one_of name ("SUBSTRING" ∷ "SUBSTR" ∷ "MID" ∷ [])
    then need 2 "SUBSTRING requires at least 2 args" args (
        on_two
          (λ s from.
            m "$substrCP"
              (triple s (m "$subtract" (pair from (int64 (pos 1)))) (third_or far args)))
          args)
    else if one_of name ("LENGTH" ∷ "CHAR_LENGTH" ∷ "CHARACTER_LENGTH" ∷ [])
    then on_first (m "$strLenCP") args
    else if one_of name ("TRIM" ∷ [])
    then on_first (λ v. m "$trim" (m "input" v)) args
    else if one_of name ("LTRIM" ∷ [])
    then on_first (λ v. m "$ltrim" (m "input" v)) args
    else if one_of name ("RTRIM" ∷ [])
    then on_first (λ v. m "$rtrim" (m "input" v)) args
    else if one_of name ("REPLACE" ∷ [])
    then need 3 "REPLACE requires 3 args" args (
        on_three
          (λ a b c.
            m "$replaceAll" (
              obj (field (str "input") a (field (str "find") b (field (str "replacement") c end)))))
          args)
    else if one_of name ("LEFT" ∷ [])
    then need 2 "LEFT requires 2 args" args
        (on_two (λ s n. m "$substrCP" (triple s (int64 (pos 0)) n)) args)
    else if one_of name ("RIGHT" ∷ [])
    then need 2 "RIGHT requires 2 args" args
        (on_two (λ s n. m "$substrCP" (triple s (m "$subtract" (pair (m "$strLenCP" s) n)) n)) args)
    else if one_of name ("REVERSE" ∷ [])
    then on_first
        (λ s. m "$reduce" (
          obj (
            field (str "input") (m "$reverseArray" (m "$split" (pair s (text [])))) (
              field (str "initialValue") (text []) (
                field (str "in") (m "$concat" (pair (text (str "$$value")) (text (str "$$this"))))
                  end)))))
        args
    else otherwise

unfoldable pub agg_number_func : Bytes → Args → Result Value → Result Value
unfolding one_of str arg round_expr
agg_number_func name args otherwise =
    if one_of name ("ABS" ∷ [])
    then on_first (m "$abs") args
    else if one_of name ("CEIL" ∷ "CEILING" ∷ [])
    then on_first (m "$ceil") args
    else if one_of name ("FLOOR" ∷ [])
    then on_first (m "$floor") args
    else if one_of name ("ROUND" ∷ [])
    then on_first (λ x. round_expr x (second_or (int64 (pos 0)) args)) args
    else if one_of name ("MOD" ∷ [])
    then need 2 "MOD requires 2 args" args (on_two (λ a b. m "$mod" (pair a b)) args)
    else if one_of name ("POW" ∷ "POWER" ∷ [])
    then need 2 "POW requires 2 args" args (on_two (λ a b. m "$pow" (pair a b)) args)
    else if one_of name ("SQRT" ∷ [])
    then on_first (m "$sqrt") args
    else if one_of name ("LOG" ∷ "LN" ∷ [])
    then on_first (m "$ln") args
    else if one_of name ("LOG10" ∷ [])
    then on_first (m "$log10") args
    else if one_of name ("LOG2" ∷ [])
    then on_first (λ x. m "$log" (pair x (int64 (pos 2)))) args
    else if one_of name ("EXP" ∷ [])
    then on_first (m "$exp") args
    else otherwise

unfoldable pub agg_other_func : Bytes → Args → Result Value → Result Value
unfolding one_of str arg
agg_other_func name args otherwise =
    if one_of name ("IF" ∷ [])
    then need 3 "IF requires 3 args" args (on_three (λ a b c. m "$cond" (triple a b c)) args)
    else if one_of name ("IFNULL" ∷ [])
    then need 2 "IFNULL requires 2 args" args (on_two (λ a b. m "$ifNull" (pair a b)) args)
    else if one_of name ("COALESCE" ∷ [])
    then ok (m "$ifNull" (arr (of_list args)))
    else if one_of name ("NULLIF" ∷ [])
    then need 2 "NULLIF requires 2 args" args
        (on_two (λ a b. m "$cond" (triple (m "$eq" (pair a b)) null a)) args)
    else if one_of name ("CAST" ∷ "CONVERT" ∷ [])
    then elim args [ [] ↦ ok null | v ∷ _ ↦ ok v ]
    else if one_of name ("NOW" ∷ "CURRENT_TIMESTAMP" ∷ "SYSDATE" ∷ [])
    then ok (text (str "$$NOW"))
    else if one_of name ("YEAR" ∷ [])
    then on_first (m "$year") args
    else if one_of name ("MONTH" ∷ [])
    then on_first (m "$month") args
    else if one_of name ("DAY" ∷ "DAYOFMONTH" ∷ [])
    then on_first (m "$dayOfMonth") args
    else if one_of name ("HOUR" ∷ [])
    then on_first (m "$hour") args
    else if one_of name ("MINUTE" ∷ [])
    then on_first (m "$minute") args
    else if one_of name ("SECOND" ∷ [])
    then on_first (m "$second") args
    else if one_of name ("TO_STRING" ∷ [])
    then on_first (m "$toString") args
    else if one_of name ("TO_INT" ∷ "TO_INTEGER" ∷ [])
    then on_first (m "$toInt") args
    else if one_of name ("TO_DOUBLE" ∷ "TO_FLOAT" ∷ [])
    then on_first (m "$toDouble") args
    else otherwise

-- `name` is in upper case.
unfoldable pub agg_func : Bytes → Args → Result Value
unfolding agg_text_func agg_number_func agg_other_func
agg_func name args = agg_text_func name args (
    agg_number_func name args
      (agg_other_func name args (fail "unsupported function in expression: %s")))
