-- ===== src/Schema.antt =====
-- The tables of the authentication service, as the ORM declares them and as the migration makes them:
-- libs/domain/orm/base.py and libs/domain/orm/auth/*.py, and migrations/versions/0002_create_auth_tables.py.
-- What a column of a type takes, and which values are equal, is PostgreSQL's and a parameter.
pub mod Declared
pub mod Migrated
pub mod Agreement
use Prim.Native.String.{◌++◌}
use mmo_backend_server.Prelude.{
  ℕ, String, Bool, true, false, not, ◌&&◌, ◌||◌, Option, none, some, List, [], ◌∷◌, ◌==◌, any,
}

pub data ColumnType : Type 0 where
  big_integer integer text citext boolean jsonb date_time uuid inet : ColumnType
  string : Option ℕ → ColumnType
  enumeration : String → List String → ColumnType

pub record Column : Type 0 where
  pub name : String
  pub type : ColumnType
  pub nullable : Bool

-- A primary key or a unique constraint.
pub record Key : Type 0 where
  pub name : String
  pub is_primary : Bool
  pub columns : List String

pub record ForeignKey : Type 0 where
  pub name : String
  pub column : String
  pub target : String
  pub ondelete_cascade : Bool

pub record Table : Type 0 where
  pub name : String
  pub schema : String
  pub columns : List Column
  pub keys : List Key
  pub foreign_keys : List ForeignKey

-- The naming convention of libs/domain/orm/base.py.
unfoldable pub pk_name : String → String
pk_name table = "pk_" ++ table

unfoldable pub uq_name : String → String → String
uq_name table column = "uq_" ++ table ++ "_" ++ column

unfoldable pub fk_name : String → String → String → String
fk_name table column referred = "fk_" ++ table ++ "_" ++ column ++ "_" ++ referred

abbrev pub required : String → ColumnType → Column
required name type = record { name = name; type = type; nullable = false }

abbrev pub optional : String → ColumnType → Column
optional name type = record { name = name; type = type; nullable = true }

abbrev pub primary : String → String → Key
primary table column = record { name = pk_name table; is_primary = true; columns = column ∷ [] }

abbrev pub unique : String → String → Key
unique table column = record {
  name = uq_name table column;
  is_primary = false;
  columns = column ∷ [];
}

-- `ForeignKey("auth.accounts.id", ondelete="CASCADE")`
abbrev pub account_key : String → ForeignKey
account_key table = record {
  name = fk_name table "account_id" "accounts";
  column = "account_id";
  target = "auth.accounts.id";
  ondelete_cascade = true;
}
