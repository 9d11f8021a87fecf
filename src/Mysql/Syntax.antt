-- ===== src/Mysql/Syntax.antt =====
-- The part of the vitess syntax tree (package sqlparser) that mysql/ddl.go and mysql/alter.go read.
-- An identifier is the text that its `String()` gives.
use mongosql.Prelude.{Bool, Option, List}
use mongosql.Bytes.{Bytes}
use mongosql.Ast.{Expr}

-- ColumnType.Options.
pub record ColumnOptions : Type 0 where
  pub null : Option Bool
  pub autoincrement : Bool
  pub default : Option Expr
  pub on_update : Option Expr

-- ColumnDefinition.
pub record ColumnSpec : Type 0 where
  pub name : Bytes
  pub type : Bytes
  pub options : Option ColumnOptions

pub data IndexType : Type 0 where
  index_type_primary index_type_unique other_index_type : IndexType

-- IndexDefinition: its Info, and the names of its columns.
pub record IndexSpec : Type 0 where
  pub name : Bytes
  pub type : IndexType
  pub columns : List Bytes

pub record TableSpec : Type 0 where
  pub columns : List ColumnSpec
  pub indexes : List IndexSpec

pub data AlterOption : Type 0 where
  add_columns : List ColumnSpec → AlterOption
  drop_column : Bytes → AlterOption
  modify_column : ColumnSpec → AlterOption
  change_column : Bytes → ColumnSpec → AlterOption
  add_index_definition : IndexSpec → AlterOption
  -- whether the type of the key is PrimaryKeyType
  drop_key : Bool → Bytes → AlterOption
  rename_table_name : Bytes → AlterOption
  other_option : AlterOption

-- What Parse gives for a statement of the data definition language.
pub data Ddl : Type 0 where
  create_table : Bytes → Option TableSpec → Ddl
  alter_table : Bytes → List AlterOption → Ddl
  rename_table : List (Bytes × Bytes) → Ddl
  create_database : Bytes → Ddl
  other_ddl : Ddl
