-- ===== src/Lib.antt =====
-- A model of mongosql: SQL statements translated into MongoDB filters, pipelines and updates.
--
-- The program and this library. A statement goes from the MySQL protocol handler (mysql/) through
-- the driver (driver/) to the translator (translator/), whose result the driver runs on MongoDB.
--   Expr    translator/internal/expr: the evaluation of constants (Value, evalFunc: Expr.Eval,
--           Expr.Func, Expr.Slice, Expr.Convert, Expr.Number), aggregation expressions (ToAggExpr:
--           Expr.Agg, Expr.AggFunc), column names (Expr.Columns), LIKE patterns (Expr.Like), and
--           the filters of WHERE (TranslateWhere, negateWhere: Expr.Where).
--   Sel     translator/internal/sel: Plan (Sel.Source, Sel.Items, Sel.Limits, Sel.Translate), the
--           find statement (buildFind: Sel.Find) and the pipeline (buildAggregate: Sel.Join,
--           Sel.Group, Sel.Having, Sel.Aggregate). The types of translator/plan and translator/stmt
--           are in Sel.Plan.
--   Write   translator/internal/write and translator/translator.go: INSERT, UPDATE, DELETE, and the
--           dispatch on the parsed statement.
--   Driver  driver/schema.go: the schema store with its cache, defaults and ON UPDATE columns
--           (Driver.Schema); driver/driver.go: the functions that run a statement (Driver.Exec).
--   Mysql   mysql/handler.go: comments (Mysql.Comments) and the handler of a connection
--           (Mysql.Handler); mysql/meta.go: the search for FROM and the splitting of lists
--           (Mysql.Scan), the dispatch (Mysql.Meta), SHOW (Mysql.Show) and the system values
--           (Mysql.System); mysql/ddl.go and mysql/alter.go: schemas and indexes (Mysql.Define),
--           CREATE, DROP and TRUNCATE (Mysql.Ddl), ALTER and RENAME (Mysql.Alter);
--           mysql/result.go (Mysql.Result); mysql/main.go: the connections (Mysql.Sessions).
--   Client  the calls of the MongoDB driver that mysql/ and driver/ make.
-- A function of the source has its name in snake case (evalSubstring is eval_substring); a branch
-- of a long function is a definition of its own, named for what it does.
--
-- What is modelled how. A Go string is a list of bytes; an int64 keeps its wrap-around written out
-- (Prelude.Int); a (value, error) result is a Result, where `panic` stands for a run-time panic and
-- the text of an error is its format string. An interface{} is a Value of Bson; a map is the list
-- of its writes. The tree of the vitess parser is Ast and Sel.Plan; the parser's own functions are
-- the record Vitess, and Go's clock, float64 operations and formatting are the record Runtime.
-- The MongoDB driver is the record Client, over a type World of what the server holds; the table
-- schemas, which the program reads back, are kept beside it in the schema store. A cached schema is
-- shared: a handler that changes it in place changes the entry of the cache (Mysql.Alter.Options).
-- The encoder of result sets is the record Wire, and the order of a map's iteration a function.
-- MongoDB's documented answers to filters are the record Mongo, and the meaning of conditions in
-- MySQL's three-valued logic is Sql. Samples has instances of all of them.
--
-- Fuel. strip_loop and from_loop consume a byte in every round and start with the length of the
-- text; fill_loop adds a byte in every round and starts with the number of bytes that it needs;
-- strip_semicolons takes a byte off in every round and starts with the length of the text; decimal
-- writes at most 20 digits, which is enough for a uint64. Every other recursion is structural.
--
-- Not modelled: the start-up, listener, authentication and shutdown of mysql/main.go, the opening
-- and closing of the client (Connect, New, Close of driver/driver.go), time limits and log lines,
-- the lock of the schema cache, statements on the collections that the program keeps for itself
-- (_table_schemas, _auto_increment), statements of two connections at the same time, and the
-- examples and tests. The counters that an INSERT has moved before its defaults fail are lost in
-- the model.
pub mod Prelude
pub mod Bytes
pub mod Ast
pub mod Bson
pub mod Client
pub mod Result
pub mod Runtime
pub mod Expr
pub mod Mongo
pub mod Sql
pub mod Samples
pub mod Sel
pub mod Vitess
pub mod Write
pub mod Driver
pub mod Mysql
