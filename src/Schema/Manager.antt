-- ===== src/Schema/Manager.antt =====
-- What the migrations of migration/src call of sea_orm_migration: the definitions of tables, indexes
-- and foreign keys, and the manager that sends them to the database.
use hoopoe.Base.{ℕ, Text, List, Bool, true, false, ◌≡◌, text_eq, Outcome}

pub data ColumnType : Type 0 where
  integer big_integer string boolean json timestamp timestamp_with_time_zone : ColumnType
  char_len : ℕ → ColumnType

pub data ColumnOption : Type 0 where
  not_null auto_increment primary_key default_false default_current_timestamp : ColumnOption

pub record ColumnDef : Type 0 where
  pub name : Text
  pub type : ColumnType
  pub options : List ColumnOption

abbrev pub column : Text → ColumnType → List ColumnOption → ColumnDef
column name type options = record { name = name; type = type; options = options }

-- All are made `if_not_exists`.
pub record TableCreate : Type 0 where
  pub table : Text
  pub cols : List ColumnDef

pub record IndexCreate : Type 0 where
  pub name : Text
  pub table : Text
  pub col : Text

-- `on_delete` and `on_update` cascade.
pub record ForeignKeyCreate : Type 0 where
  pub name : Text
  pub from_table : Text
  pub from_col : Text
  pub to_table : Text
  pub to_col : Text

-- Each call gives the database after it, and whether it answered Ok.
pub record SchemaManager : Type 1 where
  pub Database : Type 0
  pub has_table : Text → Database → Bool
  pub create_table : TableCreate → Database → Database × Bool
  pub drop_table : Text → Database → Database × Bool
  pub create_index : IndexCreate → Database → Database × Bool
  pub create_foreign_key : ForeignKeyCreate → Database → Database × Bool
  pub execute_unprepared : Text → Database → Database × Bool

-- What the documentation says: a table that was just made can be dropped and leaves nothing, its
-- indexes and keys go with it, and a call touches only the table that it names.
pub record ManagerLaws (M : SchemaManager) : Type 0 where
  pub drop-create_table :
      (t : TableCreate) (db : M.Database)
      → M.has_table t.table db ≡ false
      → M.drop_table t.table (M.create_table t db).0 ≡ (db, true)
  pub drop-create_index :
      (i : IndexCreate) (db : M.Database)
      → M.drop_table i.table (M.create_index i db).0 ≡ M.drop_table i.table db
  pub drop-create_foreign_key :
      (k : ForeignKeyCreate) (db : M.Database)
      → M.drop_table k.from_table (M.create_foreign_key k db).0 ≡ M.drop_table k.from_table db
  pub has-create_table :
      (name : Text) (t : TableCreate) (db : M.Database)
      → text_eq t.table name ≡ false
      → M.has_table name (M.create_table t db).0 ≡ M.has_table name db
  pub has-create_index :
      (name : Text) (i : IndexCreate) (db : M.Database)
      → M.has_table name (M.create_index i db).0 ≡ M.has_table name db

-- One migration: what it makes of the database, and whether it answers Ok; it may panic.
pub record Migration (Database : Type 0) : Type 0 where
  pub up : Database → Outcome (Database × Bool)
  pub down : Database → Outcome (Database × Bool)
