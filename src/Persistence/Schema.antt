-- ===== src/Persistence/Schema.antt =====
-- persistence/models.py and persistence/migrations: the declarations of tables, as SQLAlchemy takes
-- them: what a table is called, holds and refers to.
pub mod Models
pub mod Migration
pub mod Storing
use portfolio_manager.Base.{
  Bool, List, Option, String, Text, [], codes, false, map, none, some, true, ℕ, ◌∷◌,
}

-- `Uuid`, `String(n)`, `DateTime(timezone=True)`, `Integer` and `LargeBinary`
pub data ColumnType : Type 0 where
  uuid date_time integer large_binary : ColumnType
  string : ℕ → ColumnType

pub record Reference : Type 0 where
  pub table : Text
  pub columns : List Text
  pub ondelete : Option Text

pub record Column : Type 0 where
  pub name : Text
  pub kind : ColumnType
  pub primary_key : Bool
  pub nullable : Bool
  pub unique : Bool
  pub index : Bool
  pub foreign_key : Option Reference

pub record ForeignKeyConstraint : Type 0 where
  pub name : Option Text
  pub columns : List Text
  pub reference : Reference

pub record UniqueConstraint : Type 0 where
  pub name : Text
  pub columns : List Text

pub record Table : Type 0 where
  pub name : Text
  pub columns : List Column
  pub foreign_keys : List ForeignKeyConstraint
  pub uniques : List UniqueConstraint

-- `Column(name, kind, nullable=False)`, `Column(name, kind, primary_key=True)` and
-- `Column(name, kind)`
abbrev pub not_null : String → ColumnType → Column
not_null name kind = record {
  name = codes name;
  kind = kind;
  primary_key = false;
  nullable = false;
  unique = false;
  index = false;
  foreign_key = none;
}

abbrev pub primary : String → ColumnType → Column
primary name kind = record {
  name = codes name;
  kind = kind;
  primary_key = true;
  nullable = false;
  unique = false;
  index = false;
  foreign_key = none;
}

abbrev pub null : String → ColumnType → Column
null name kind = record {
  name = codes name;
  kind = kind;
  primary_key = false;
  nullable = true;
  unique = false;
  index = false;
  foreign_key = none;
}

-- `ForeignKey("table.column")` and, with `ondelete="CASCADE"`, of several columns.
abbrev pub to_column : String → String → Reference
to_column table column = record {
  table = codes table;
  columns = codes column ∷ [];
  ondelete = none;
}

abbrev pub cascading : Reference → Reference
cascading reference = record reference { ondelete = some (codes "CASCADE") }

-- The reference that both tables of a connection's data hold.
abbrev pub to_connection : Reference
to_connection = cascading (record {
  table = codes "broker_connections";
  columns = codes "tenant_id" ∷ codes "id" ∷ [];
  ondelete = none;
})

abbrev pub of_connection : String → ForeignKeyConstraint
of_connection name = record {
  name = some (codes name);
  columns = codes "tenant_id" ∷ codes "connection_id" ∷ [];
  reference = to_connection;
}

abbrev pub unique_over : String → List String → UniqueConstraint
unique_over name columns = record { name = codes name; columns = map codes columns }
