-- ===== src/Tests/Schema.antt =====
-- Rows of texts, in a server that checks the values of enumerations.
use mmo_backend_server.Prelude.{String, ◌≡◌, refl, Bool, true, false, List, [], ◌∷◌, ◌==◌, any}
use mmo_backend_server.Schema.{ColumnType, enumeration}
use mmo_backend_server.Schema.Declared
use mmo_backend_server.Schema.Migrated
use mmo_backend_server.Schema.Agreement.{Server, fits, violates, SameTable, declared-SameTable}

abbrev takes : ColumnType → String → Bool
takes (enumeration name members) v = any (λ m. m == v) members
takes _ v = true

abbrev server : Server String
server = record { takes = takes; equal = λ v w. v == w; refers = λ target v. v == "1" }

-- A second token with the key of the first.
repeated_key :
    violates server Declared.refresh_tokens
      (((("jti", "k") ∷ [])) ∷ [])
      (("jti", "k") ∷ [])
      "uq_refresh_tokens_jti"
    ≡ true
unfolding violates mmo_backend_server.Schema.Agreement.agree mmo_backend_server.Schema.uq_name
    mmo_backend_server.Schema.pk_name mmo_backend_server.Schema.fk_name
    mmo_backend_server.Prelude.Dict.lookup
repeated_key = refl

declared-SameTable_example :
    SameTable server Declared.accounts Migrated.accounts
    × SameTable server Declared.credentials Migrated.credentials
    × SameTable server Declared.refresh_tokens Migrated.refresh_tokens
declared-SameTable_example = declared-SameTable server (λ v. refl)
