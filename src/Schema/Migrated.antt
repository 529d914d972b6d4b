-- ===== src/Schema/Migrated.antt =====
-- migrations/versions/0002_create_auth_tables.py: the tables that `upgrade` creates.
use mmo_backend_server.Prelude.{true, false, some, [], ◌∷◌}
use mmo_backend_server.Schema.{
  big_integer, integer, text, citext, boolean, jsonb, date_time, uuid, inet, string, enumeration,
  Table,
}

abbrev pub accounts : Table
accounts = record {
  name = "accounts";
  schema = "auth";
  columns =
      record { name = "id"; type = big_integer; nullable = false }
      ∷ record { name = "username"; type = string (some 50); nullable = false }
      ∷ record { name = "email"; type = citext; nullable = true }
      ∷ record { name = "avatar"; type = text; nullable = true }
      ∷ record { name = "locale"; type = string (some 10); nullable = true }
      ∷ record { name = "region"; type = string (some 20); nullable = true }
      ∷ record {
        name = "status";
        type = enumeration "account_status_enum" ("ACTIVE" ∷ "BANNED" ∷ "DELETED" ∷ []);
        nullable = false;
      }
      ∷ record {
        name = "role";
        type = enumeration "account_role_enum" ("USER" ∷ "ADMIN" ∷ []);
        nullable = false;
      }
      ∷ record { name = "twofa_enabled"; type = boolean; nullable = false }
      ∷ record { name = "linked_platforms"; type = jsonb; nullable = false }
      ∷ record { name = "created_at"; type = date_time; nullable = false }
      ∷ record { name = "updated_at"; type = date_time; nullable = false }
      ∷ [];
  keys =
      record { name = "pk_accounts"; is_primary = true; columns = "id" ∷ [] }
      ∷ record { name = "uq_accounts_email"; is_primary = false; columns = "email" ∷ [] }
      ∷ record { name = "uq_accounts_username"; is_primary = false; columns = "username" ∷ [] }
      ∷ [];
  foreign_keys = [];
}

abbrev pub credentials : Table
credentials = record {
  name = "credentials";
  schema = "auth";
  columns =
      record { name = "account_id"; type = big_integer; nullable = false }
      ∷ record { name = "password_hash"; type = text; nullable = false }
      ∷ record { name = "password_updated_at"; type = date_time; nullable = false }
      ∷ record { name = "twofa_secret"; type = text; nullable = true }
      ∷ record { name = "last_login_at"; type = date_time; nullable = true }
      ∷ record { name = "failed_attempts"; type = integer; nullable = false }
      ∷ record { name = "locked_until"; type = date_time; nullable = true }
      ∷ [];
  keys = record { name = "pk_credentials"; is_primary = true; columns = "account_id" ∷ [] } ∷ [];
  foreign_keys =
      record {
        name = "fk_credentials_account_id_accounts";
        column = "account_id";
        target = "auth.accounts.id";
        ondelete_cascade = true;
      }
      ∷ [];
}

abbrev pub refresh_tokens : Table
refresh_tokens = record {
  name = "refresh_tokens";
  schema = "auth";
  columns =
      record { name = "id"; type = big_integer; nullable = false }
      ∷ record { name = "account_id"; type = big_integer; nullable = false }
      ∷ record { name = "jti"; type = uuid; nullable = false }
      ∷ record { name = "token_hash"; type = text; nullable = false }
      ∷ record { name = "user_agent"; type = text; nullable = true }
      ∷ record { name = "ip"; type = inet; nullable = true }
      ∷ record { name = "created_at"; type = date_time; nullable = false }
      ∷ record { name = "expires_at"; type = date_time; nullable = false }
      ∷ record { name = "revoked_at"; type = date_time; nullable = true }
      ∷ [];
  keys =
      record { name = "pk_refresh_tokens"; is_primary = true; columns = "id" ∷ [] }
      ∷ record { name = "uq_refresh_tokens_jti"; is_primary = false; columns = "jti" ∷ [] }
      ∷ [];
  foreign_keys =
      record {
        name = "fk_refresh_tokens_account_id_accounts";
        column = "account_id";
        target = "auth.accounts.id";
        ondelete_cascade = true;
      }
      ∷ [];
}
