-- ===== src/Expr/Func/Others.antt =====
-- translator/internal/expr/expr.go, evalFunc: dates, conditionals and the session's values.
use mongosql.Expr.Func.Arguments.{need, arg}
use mathlib.Core.List.{[]}
use Prim.Native.Nat.{Ordering}
use mongosql.Prelude.Int.{pos}
use mongosql.Prelude.{[], if◌then◌else◌, ◌∷◌, Bool, List}
use mongosql.Expr.Convert.{is_truthy, sign_eq, to_int64, compare_any}
use mongosql.Bytes.{str, Bytes, one_of}
use mongosql.Runtime.{Runtime}
use mongosql.Result.{wrap, ◌>>=◌, Result, ok, fail}
use mongosql.Bson.{is_nil, Value, null, int64, text, time}

abbrev Args : Type 0
Args = List Value

module _ (rt : Runtime) where
  abbrev pub date_text : Value
  date_text = text (rt.format_date rt.now)

  abbrev pub clock_text : Value
  clock_text = text (rt.format_clock rt.now)

  unfoldable pub eval_cur_time_func : Bytes → Value
  unfolding one_of
  eval_cur_time_func name =
      if one_of name ("CURDATE" ∷ "CURRENT_DATE" ∷ "UTC_DATE" ∷ [])
      then date_text
      else if one_of name ("CURTIME" ∷ "CURRENT_TIME" ∷ "UTC_TIME" ∷ [])
      then clock_text
      else time rt.now

  -- The branches of the switch, in the source's order; `otherwise` is what comes below.
  unfoldable pub time_func : Bytes → Args → Result Value → Result Value
  unfolding one_of arg to_int64
  time_func name args otherwise =
      if one_of name (
        "NOW" ∷ "CURRENT_TIMESTAMP" ∷ "LOCALTIMESTAMP" ∷ "LOCALTIME" ∷ "SYSDATE" ∷ "UTC_TIMESTAMP"
        ∷ [])
      then ok (time rt.now)
      else if one_of name ("CURDATE" ∷ "CURRENT_DATE" ∷ "UTC_DATE" ∷ [])
      then ok date_text
      else if one_of name ("CURTIME" ∷ "CURRENT_TIME" ∷ "UTC_TIME" ∷ [])
      then ok clock_text
      else if one_of name ("UNIX_TIMESTAMP" ∷ [])
      then elim args [
        | [] ↦ ok (int64 (rt.unix rt.now))
        | v ∷ _ ↦ elim v [
          | time t ↦ ok (int64 (rt.unix t))
          | _ ↦ fail "UNIX_TIMESTAMP: argument must be a time"
        ]
      ]
      else if one_of name ("FROM_UNIXTIME" ∷ [])
      then need 1 "FROM_UNIXTIME: missing argument" args (do
        v ← arg 0 args
        ts ← wrap "FROM_UNIXTIME: %w" (to_int64 rt v)
        ok (time (rt.from_unix ts)))
      else if one_of name ("DATE" ∷ [])
      then need 1 "DATE: missing argument" args (do
        v ← arg 0 args
        elim v [ time t ↦ ok (text (rt.format_date t)) | other ↦ ok (text (rt.sprint other)) ])
      else otherwise

  abbrev truth : Bool → Value
  truth b = int64 (if b then pos 1 else pos 0)

  -- IFNULL and COALESCE.
  unfoldable pub first_value : Args → Value
  first_value [] = null
  first_value (null ∷ vs) = first_value vs
  first_value (v ∷ vs) = v

  unfoldable pub conditional_func : Bytes → Args → Result Value → Result Value
  unfolding one_of arg first_value compare_any is_truthy
  conditional_func name args otherwise =
      if one_of name ("IFNULL" ∷ "COALESCE" ∷ [])
      then ok (first_value args)
      else if one_of name ("NULLIF" ∷ [])
      then need 2 "NULLIF: 2 args required" args (do
        a ← arg 0 args
        b ← arg 1 args
        ok (if sign_eq (compare_any rt a b) Ordering.eq then null else a))
      else if one_of name ("IF" ∷ [])
      then need 3 "IF: 3 args required" args (do
        test ← arg 0 args
        a ← arg 1 args
        b ← arg 2 args
        ok (if is_truthy rt test then a else b))
      else if one_of name ("ISNULL" ∷ [])
      then elim args [ [] ↦ ok null | v ∷ _ ↦ ok (truth (is_nil v)) ]
      else otherwise

  unfoldable pub misc_func : Bytes → Args → Result Value → Result Value
  unfolding one_of str
  misc_func name args otherwise =
      if one_of name ("UUID" ∷ [])
      then ok (text rt.uuid)
      else if one_of name ("DATABASE" ∷ "SCHEMA" ∷ [])
      then ok (text [])
      else if one_of name ("USER" ∷ "CURRENT_USER" ∷ "SESSION_USER" ∷ "SYSTEM_USER" ∷ [])
      then ok (text (str "root@localhost"))
      else if one_of name ("VERSION" ∷ [])
      then ok (text (str "8.0.0-mongodb-sql-driver"))
      else if one_of name ("CONNECTION_ID" ∷ [])
      then ok (int64 (pos 1))
      else if one_of name ("LAST_INSERT_ID" ∷ "ROW_COUNT" ∷ "FOUND_ROWS" ∷ [])
      then ok (int64 (pos 0))
      else if one_of name ("CAST" ∷ "CONVERT" ∷ [])
      then elim args [ [] ↦ ok null | v ∷ _ ↦ ok v ]
      else otherwise
