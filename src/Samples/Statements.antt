-- ===== src/Samples/Statements.antt =====
-- Statements for translator/internal/sel and translator/internal/write, and the theorems at them.
use mongosql.Write.Constants.{rows_columns, value_docs-constant}
use mongosql.Sel.Aggregate.{aggregate_columns}
use mongosql.Sel.Aggregate.Columns.{gives_all, shows_all, aggregate_columns-shows_all}
use mongosql.Samples.Go.{go}
use mongosql.Sel.Plan.{SelectPlan, Select, FindStmt, find_stmt}
use mongosql.Sel.Translate.{render, translate, plan, plan_from, where_filter}
use mongosql.Sel.Translate.Distinct.{translate-distinct}
use mongosql.Sel.Source.{
  extract_from_plan, source_ref_from_aliased_table, field_ref_from_expr, field_ref_from_col_name,
}
use mongosql.Sel.Items.{plan_select_items, plan_items, plan_item, is_agg_expr}
use mongosql.Sel.Limits.{build_sort, build_limit}
use mongosql.Sel.Plan.{table, aliased_expr}
use mongosql.Sel.Find.{build_find, build_find_projection, distinct_path}
use mongosql.Sel.Aggregate.{build_aggregate}
use mongosql.Sel.Translate.Empty.{render-empty, statically_empty}
use mongosql.Write.{value_docs, row_doc, update_doc, set_doc, insert_select_of}
use mongosql.Expr.Columns.All.{some_column}
use mongosql.Write.Documents.{
  set_columns, column_of, text_of, update_doc-dollar, value_docs-has_all, each_has_all,
  value_docs-length, update_doc-pipeline, insert_select_of-empty, rows_fit,
}
use mongosql.Expr.Eval.{value}
use mongosql.Expr.Columns.{has_column_ref, col_name_with_main}
use mongosql.Expr.Agg.{to_agg_expr, value_or_agg_expr}
use mongosql.Prelude.{[], ◌∷◌, ◌≡◌, refl, true, false, some, none, List, length}
use mongosql.Prelude.Int.{pos}
use mongosql.Bytes.{Bytes, str}
use mongosql.Bson.{Fields, field, end, int, has, bool, obj, text, put}
use mongosql.Ast.{Expr}
use mongosql.Ast
use mongosql.Sel.Plan.{SelectItem, AggFunc, ItemKind}
use mongosql.Vitess.{Vitess}

-- A parser whose trees are left as they are.
abbrev pub vitess : Vitess
vitess = record {
  print = λ e. [];
  map_columns = λ f e. e;
  visit = λ test e. [];
  replace = λ test f e. e;
}

-- SELECT * FROM t LIMIT 0
abbrev select_none : Select
select_none = record {
  from = [];
  select_exprs = none;
  where_expr = none;
  group_by = none;
  having = none;
  order_by = [];
  limit = none;
  distinct = false;
}

abbrev plan_none : SelectPlan
plan_none = record {
  raw = select_none;
  main_source = record { database = []; collection = b't' ∷ []; alias = []; explicit_as = false };
  joins = [];
  items = [];
  filter = end;
  sort = none;
  limit = pos 0;
  offset = pos 0;
  has_limit = true;
  distinct = false;
  has_star = true;
  has_agg = false;
  use_aggregation = false;
}

abbrev find_none : FindStmt
find_none = record {
  collection = b't' ∷ [];
  filter = end;
  projection = some (field (b'_' ∷ b'i' ∷ b'd' ∷ []) (int (pos 0)) end);
  sort = none;
  limit = pos 0;
  skip = pos 0;
  distinct = [];
  empty = true;
}

render-empty_example : statically_empty (find_stmt find_none) ≡ true
unfolding render build_find build_find_projection distinct_path
render-empty_example = render-empty go vitess plan_none (find_stmt find_none) refl

abbrev yes : Expr
yes = Ast.bool_val true

value_docs-length_example :
    (length (field (b'a' ∷ []) (bool true) end ∷ []) ≡ length ((yes ∷ []) ∷ []))
    × (rows_fit ((b'a' ∷ []) ∷ []) ((yes ∷ []) ∷ []) ≡ true)
unfolding value_docs row_doc value_or_agg_expr put value has_column_ref
value_docs-length_example =
    value_docs-length go ((b'a' ∷ []) ∷ []) ((yes ∷ []) ∷ [])
      (field (b'a' ∷ []) (bool true) end ∷ []) refl

-- SET a = b
abbrev copied : List (Bytes × Expr)
copied = (b'a' ∷ [], Ast.col (record { qualifier = []; name = b'b' ∷ [] })) ∷ []

abbrev copied_doc : Fields
copied_doc =
    field (str "$set") (obj (field (b'a' ∷ []) (text (b'$' ∷ b'b' ∷ [])) end))
      (field (str "$pipeline") (bool true) end)

update_doc-pipeline_example : has (str "$pipeline") copied_doc ≡ some_column (set_columns copied)
unfolding update_doc set_doc value_or_agg_expr put has_column_ref to_agg_expr col_name_with_main
update_doc-pipeline_example = update_doc-pipeline go copied copied_doc refl

insert_select_of-empty_example :
    insert_select_of [] [] [] (find_stmt (record find_none { empty = true }))
    ≡ insert_select_of [] [] [] (find_stmt (record find_none { empty = false }))
insert_select_of-empty_example = insert_select_of-empty [] [] [] find_none

update_doc-dollar_example :
    update_doc go
      ((b'a' ∷ [], column_of (b'b' ∷ [])) ∷ (b'c' ∷ [], text_of (b'$' ∷ b'x' ∷ [])) ∷ [])
    ≡ update_doc go ((b'a' ∷ [], column_of (b'b' ∷ [])) ∷ (b'c' ∷ [], column_of (b'x' ∷ [])) ∷ [])
update_doc-dollar_example = update_doc-dollar go (b'a' ∷ []) (b'b' ∷ []) (b'c' ∷ []) (b'x' ∷ [])

value_docs-has_all_example :
    each_has_all ((b'a' ∷ []) ∷ []) (field (b'a' ∷ []) (bool true) end ∷ []) ≡ true
unfolding value_docs row_doc value_or_agg_expr put value has_column_ref
value_docs-has_all_example =
    value_docs-has_all go ((b'a' ∷ []) ∷ []) ((yes ∷ []) ∷ [])
      (field (b'a' ∷ []) (bool true) end ∷ []) refl

-- SELECT _id FROM t
abbrev listed : SelectItem
listed = record {
  kind = ItemKind.field_item;
  field = some (record { source_alias = []; parts = (b'_' ∷ b'i' ∷ b'd' ∷ []) ∷ [] });
  agg = none;
  alias = [];
  raw_expr = Ast.null_val;
}

abbrev id_col : Expr
id_col = Ast.col (record { qualifier = []; name = b'_' ∷ b'i' ∷ b'd' ∷ [] })

-- _id in a select list
abbrev id_item : SelectItem
id_item = record {
  kind = ItemKind.field_item;
  field = some (record { source_alias = []; parts = (b'_' ∷ b'i' ∷ b'd' ∷ []) ∷ [] });
  agg = none;
  alias = [];
  raw_expr = id_col;
}

-- SELECT _id, _id FROM t
abbrev select_two : Select
select_two = record {
  from = table [] (b't' ∷ []) [] ∷ [];
  select_exprs = some (aliased_expr id_col [] ∷ aliased_expr id_col [] ∷ []);
  where_expr = none;
  group_by = none;
  having = none;
  order_by = [];
  limit = none;
  distinct = false;
}

abbrev plan_two : SelectPlan
plan_two = record {
  raw = select_two;
  main_source = record {
    database = [];
    collection = b't' ∷ [];
    alias = b't' ∷ [];
    explicit_as = false;
  };
  joins = [];
  items = id_item ∷ id_item ∷ [];
  filter = end;
  sort = none;
  limit = pos 0;
  offset = pos 0;
  has_limit = false;
  distinct = false;
  has_star = false;
  has_agg = false;
  use_aggregation = false;
}

translate-distinct_example :
    translate go vitess (record select_two { distinct = true }) ≡ build_aggregate go vitess plan_two
unfolding plan plan_from extract_from_plan source_ref_from_aliased_table plan_select_items
    plan_items plan_item is_agg_expr field_ref_from_expr field_ref_from_col_name where_filter
    build_sort build_limit
translate-distinct_example = translate-distinct go vitess select_two plan_two refl refl

-- COUNT(*) AS n
abbrev counted : SelectItem
counted = record {
  kind = ItemKind.aggregate_item;
  field = none;
  agg =
      some (record {
        func = AggFunc.count;
        arg = none;
        arg_expr = none;
        star = true;
        distinct = false;
      });
  alias = b'n' ∷ [];
  raw_expr = Ast.count_star;
}

value_docs-constant_example : rows_columns ((yes ∷ []) ∷ []) ≡ []
unfolding value_docs row_doc value_or_agg_expr put value has_column_ref
value_docs-constant_example =
    value_docs-constant go ((b'a' ∷ []) ∷ []) ((yes ∷ []) ∷ [])
      (field (b'a' ∷ []) (bool true) end ∷ []) refl

aggregate_columns-shows_all_example :
    (shows_all (counted ∷ []) [] (aggregate_columns (counted ∷ []) [] end end).0 ≡ true)
    × (gives_all (counted ∷ []) [] (aggregate_columns (counted ∷ []) [] end end).1 ≡ true)
aggregate_columns-shows_all_example = aggregate_columns-shows_all (counted ∷ []) [] end end
