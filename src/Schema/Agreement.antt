-- ===== src/Schema/Agreement.antt =====
-- The ORM and the migration declare the same tables.
use mmo_backend_server.Prelude.{
  arith, String, ◌≡◌, refl, ap, Bool, true, false, not, ◌&&◌, ◌||◌, Option, none, some, List, [],
  ◌∷◌, ◌==◌, any, if◌then◌else◌,
}
use mmo_backend_server.Prelude.Dict.{Dict, lookup}
use mmo_backend_server.Schema.{
  ColumnType, text, string, Column, Key, ForeignKey, Table, pk_name, uq_name, fk_name,
}
use mmo_backend_server.Schema.Declared
use mmo_backend_server.Schema.Migrated

-- A database: which values a column of a type takes, which values are equal, and whether a row of a
-- table has a value in the column that a foreign key names.
pub record Server (Value : Type 0) : Type 0 where
  pub takes : ColumnType → Value → Bool
  pub equal : Value → Value → Bool
  pub refers : String → Value → Bool

-- PostgreSQL: `VARCHAR` without a length takes what `TEXT` takes.
abbrev pub AnyLength : {Value : Type 0} → Server Value → Type 0
AnyLength {Value} server = (v : Value) → server.takes (string none) v ≡ server.takes text v

only_primary : List Key → List Key
only_primary [] = []
only_primary (k ∷ ks) = let rest = only_primary ks in if k.is_primary then k ∷ rest else rest

unfoldable pub primary_keys : Table → List Key
unfolding only_primary
primary_keys t = only_primary t.keys

module _ {Value : Type 0} (server : Server Value) where
  abbrev pub takes_cell : Column → Option Value → Bool
  takes_cell c none = c.nullable
  takes_cell c (some v) = server.takes c.type v

  -- Every column takes what the row has for it.
  unfoldable pub fits : List Column → Dict Value → Bool
  fits [] row = true
  fits (c ∷ cs) row = let rest = fits cs row in takes_cell c (lookup c.name row) && rest

  -- NULL is equal to nothing.
  abbrev pub equal_cells : Option Value → Option Value → Bool
  equal_cells (some v) (some w) = server.equal v w
  equal_cells _ _ = false

  unfoldable pub agree : List String → Dict Value → Dict Value → Bool
  agree [] row other = true
  agree (c ∷ cs) row other =
      let rest = agree cs row other in equal_cells (lookup c row) (lookup c other) && rest

  abbrev pub dangles : Option Value → String → Bool
  dangles none target = false
  dangles (some v) target = not (server.refers target v)

  -- Whether inserting a row into a table with these rows violates the constraint with this name.
  unfoldable pub violates : Table → List (Dict Value) → Dict Value → String → Bool
  violates t rows row name =
      any (λ (k : Key). k.name == name && any (agree k.columns row) rows) t.keys
      || any (λ (f : ForeignKey). f.name == name && dangles (lookup f.column row) f.target)
          t.foreign_keys

  -- Two declarations of one table: of the same name and schema, with the same primary key and the
  -- same foreign keys, ON DELETE included; they let the same rows in, and refuse the others by the
  -- same constraints.
  pub record SameTable (t u : Table) : Type 0 where
    pub name : t.name ≡ u.name
    pub schema : t.schema ≡ u.schema
    pub primary_key : primary_keys t ≡ primary_keys u
    pub foreign_keys : t.foreign_keys ≡ u.foreign_keys
    pub columns : (row : Dict Value) → fits t.columns row ≡ fits u.columns row
    pub constraints :
        (rows : List (Dict Value)) (row : Dict Value) (name : String)
        → violates t rows row name ≡ violates u rows row name

or_swap : (a b c : Bool) → a || (b || (c || false)) ≡ a || (c || (b || false))
or_swap a b c = ground arith

module _ {Value : Type 0} (server : Server Value) (any_length : AnyLength server) where
  same_cell :
      (name : String) (nullable : Bool) (o : Option Value)
      → takes_cell server (record { name = name; type = string none; nullable = nullable }) o
        ≡ takes_cell server (record { name = name; type = text; nullable = nullable }) o
  same_cell name nullable none = refl
  same_cell name nullable (some v) = any_length v

  -- The three tables that the ORM declares, accounts, credentials and refresh tokens, are those that
  -- the migration creates: by name and schema, primary key, and foreign keys with what they do on a
  -- deletion. A row fits the columns of the one just if it fits those of the other, and an insertion
  -- violates the same constraints by name. A `VARCHAR` without a length takes what a `TEXT` takes.
  pub declared-SameTable :
      SameTable server Declared.accounts Migrated.accounts
      × SameTable server Declared.credentials Migrated.credentials
      × SameTable server Declared.refresh_tokens Migrated.refresh_tokens
  unfolding fits violates primary_keys pk_name uq_name fk_name
  declared-SameTable = (
    record {
      name = refl;
      schema = refl;
      primary_key = refl;
      foreign_keys = refl;
      columns = λ row. rw (same_cell "avatar" true (lookup "avatar" row)) refl;
      constraints = λ rows row name.
          ap (λ b. b || false)
            (or_swap ("pk_accounts" == name && any (agree server ("id" ∷ []) row) rows)
              ("uq_accounts_username" == name && any (agree server ("username" ∷ []) row) rows)
              ("uq_accounts_email" == name && any (agree server ("email" ∷ []) row) rows));
    },
    record {
      name = refl;
      schema = refl;
      primary_key = refl;
      foreign_keys = refl;
      columns = λ row. refl;
      constraints = λ rows row name. refl;
    },
    record {
      name = refl;
      schema = refl;
      primary_key = refl;
      foreign_keys = refl;
      columns = λ row.
          rw (same_cell "token_hash" false (lookup "token_hash" row))
            (rw (same_cell "user_agent" true (lookup "user_agent" row)) refl);
      constraints = λ rows row name. refl;
    },
  )
