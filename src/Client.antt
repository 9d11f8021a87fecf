-- ===== src/Client.antt =====
-- The MongoDB driver (go.mongodb.org/mongo-driver), which is no part of the repository: the calls
-- that the program makes of it. `World` is what the server holds, but for the table schemas, which
-- the schema store keeps. A call that writes gives the world after it, also where it fails.
use mongosql.Prelude.{Bool, Option, List, ℕ}
use mongosql.Prelude.Int.{ℤ}
use mongosql.Bytes.{Bytes}
use mongosql.Result.{Result}
use mongosql.Bson.{Value, Fields}

-- options.Find(): what is not set is `none`.
pub record FindOptions : Type 0 where
  pub projection : Option Fields
  pub sort : Option Fields
  pub limit : Option ℤ
  pub skip : Option ℤ

-- The update of UpdateMany: a document, or a pipeline of one $set stage.
pub data Change : Type 0 where
  document : Fields → Change
  set_stage : Fields → Change

-- mongo.IndexModel: the columns, each ascending, the name and the unique option.
pub record IndexModel : Type 0 where
  pub keys : List Bytes
  pub name : Bytes
  pub unique : Bool

-- The first arguments are the database and the collection. `find` and `aggregate` also read the
-- cursor to its end.
pub record Client : Type 1 where
  pub World : Type 0
  pub find : Bytes → Bytes → Fields → FindOptions → World → Result (List Fields)
  pub distinct : Bytes → Bytes → Bytes → Fields → World → Result (List Value)
  pub aggregate : Bytes → Bytes → List Fields → World → Result (List Fields)
  pub insert_many : Bytes → Bytes → List Fields → World → Result (List Value) × World
  -- The matched and the modified documents.
  pub update_many : Bytes → Bytes → Fields → Change → World → Result (ℕ × ℕ) × World
  pub delete_many : Bytes → Bytes → Fields → World → Result ℕ × World
  -- Whether UpdateOne, FindOne and DeleteOne on the collection _table_schemas succeed.
  pub writes_schema : Bytes → Bytes → World → Bool
  pub reads_schema : Bytes → Bytes → World → Bool
  pub deletes_schema : Bytes → Bytes → World → Bool
  -- NextAutoIncrement; DeleteOne of a counter; its copy under another name.
  pub next_auto_increment : Bytes → Bytes → World → Result (Value × World)
  pub delete_counter : Bytes → Bytes → World → World
  pub move_counter : Bytes → Bytes → Bytes → World → World
  pub database_names : World → Result (List Bytes)
  pub collection_names : Bytes → World → Result (List Bytes)
  -- ListCollectionNames with a filter on the name.
  pub collections_named : Bytes → Bytes → World → Result (List Bytes)
  pub create_collection : Bytes → Bytes → World → Result (Unit {0}) × World
  pub drop_collection : Bytes → Bytes → World → Result (Unit {0}) × World
  pub rename_collection : Bytes → Bytes → Bytes → World → Result (Unit {0}) × World
  pub drop_database : Bytes → World → Result (Unit {0}) × World
  pub create_index : Bytes → Bytes → IndexModel → World → Result Bytes × World
  pub drop_index : Bytes → Bytes → Bytes → World → Result (Unit {0}) × World
