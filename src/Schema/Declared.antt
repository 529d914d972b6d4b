-- ===== src/Schema/Declared.antt =====
-- libs/domain/orm/auth/account.py, credentials.py and refresh_token.py: the declarative classes.
-- A column with `Mapped[str]` and no type is a string of any length.
use mmo_backend_server.Prelude.{none, some, [], ◌∷◌}
use mmo_backend_server.Schema.{
  big_integer, integer, text, citext, boolean, jsonb, date_time, uuid, inet, string, enumeration,
  Table, required, optional, primary, unique, account_key,
}

abbrev pub accounts : Table
accounts = record {
  name = "accounts";
  schema = "auth";
  columns =
      required "id" big_integer
      ∷ required "username" (string (some 50))
      ∷ optional "email" citext
      ∷ optional "avatar" (string none)
      ∷ optional "locale" (string (some 10))
      ∷ optional "region" (string (some 20))
      ∷ required "status" (enumeration "account_status_enum" ("ACTIVE" ∷ "BANNED" ∷ "DELETED" ∷ []))
      ∷ required "role" (enumeration "account_role_enum" ("USER" ∷ "ADMIN" ∷ []))
      ∷ required "twofa_enabled" boolean
      ∷ required "linked_platforms" jsonb
      ∷ required "created_at" date_time
      ∷ required "updated_at" date_time
      ∷ [];
  keys = primary "accounts" "id" ∷ unique "accounts" "username" ∷ unique "accounts" "email" ∷ [];
  foreign_keys = [];
}

abbrev pub credentials : Table
credentials = record {
  name = "credentials";
  schema = "auth";
  columns =
      required "account_id" big_integer
      ∷ required "password_hash" text
      ∷ required "password_updated_at" date_time
      ∷ optional "twofa_secret" text
      ∷ optional "last_login_at" date_time
      ∷ required "failed_attempts" integer
      ∷ optional "locked_until" date_time
      ∷ [];
  keys = primary "credentials" "account_id" ∷ [];
  foreign_keys = account_key "credentials" ∷ [];
}

-- The type of a foreign key without one is the referred column's.
abbrev pub refresh_tokens : Table
refresh_tokens = record {
  name = "refresh_tokens";
  schema = "auth";
  columns =
      required "id" big_integer
      ∷ required "account_id" big_integer
      ∷ required "jti" uuid
      ∷ required "token_hash" (string none)
      ∷ optional "user_agent" (string none)
      ∷ optional "ip" inet
      ∷ required "created_at" date_time
      ∷ required "expires_at" date_time
      ∷ optional "revoked_at" date_time
      ∷ [];
  keys = primary "refresh_tokens" "id" ∷ unique "refresh_tokens" "jti" ∷ [];
  foreign_keys = account_key "refresh_tokens" ∷ [];
}
