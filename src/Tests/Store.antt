-- ===== src/Tests/Store.antt =====
-- A database that is two lists of rows, seen and stored: it meets the contract that the
-- theorems about the authentication service rely on.
use mmo_backend_server.Prelude.{
  ℕ, ◌+◌, ◌≡◌, refl, Bool, true, false, Option, none, some, List, [], ◌∷◌, ◌++◌, map, ◌==◌, ◌||◌,
  arith, nat_eq, any, if◌then◌else◌, runtime_error, unique_violation, Result, ok, raised,
}
use mmo_backend_server.Repository.{Account, Credentials, NewAccount, RefreshToken, Orm}
use mmo_backend_server.Repository.Contract.{Contract, Tables, Found, revoke_row}

pub record Db : Type 0 where
  pub stored : Tables
  pub seen : Tables

-- The first row that meets a test.
abbrev pub first : {A : Type 0} → (A → Bool) → List A → Option A
first p [] = none
first p (x ∷ xs) = if p x then some x else first p xs

among : {A : Type 0} (q : A → Bool) (x : A) (xs : List A) → any q xs ≡ true → any q (x ∷ xs) ≡ true
among q x xs h = ground arith

-- The first of two rows, if it passes, or what the search answers about the rest.
first_of-Found :
    {A : Type 0} (p : A → Bool) (x : A) (xs : List A) (b : Bool) (o : Option A)
    → p x ≡ b
    → Found p xs (ok o)
    → Found p (x ∷ xs) (ok (if b then some x else o))
first_of-Found p x xs true o h f = (h, λ q passes. ground arith)
first_of-Found p x xs false none h f = ground arith
first_of-Found p x xs false (some y) h (passes, others) =
    (passes, λ q passed. among q x xs (others q passed))

first-Found : {A : Type 0} (p : A → Bool) (rows : List A) → Found p rows (ok (first p rows))
first-Found p [] = refl
first-Found p (x ∷ xs) = first_of-Found p x xs (p x) (first p xs) refl (first-Found p xs)

abbrev seeing : Db → Tables → Db
seeing db t = record db { seen = t }

abbrev set_tokens : Db → List RefreshToken → Db
set_tokens db rows = seeing db (record db.seen { tokens = rows })

abbrev account_with : ℕ → Account → Bool
account_with id a = nat_eq a.id id

abbrev found_or_raised : Option Account → Result Account
found_or_raised none = raised runtime_error
found_or_raised (some a) = ok a

abbrev new_account : NewAccount → ℕ → Account
new_account a id = record {
  id = id;
  username = a.username;
  email = a.email;
  status = a.status;
  role = a.role;
  credentials = a.credentials;
}

abbrev credentials_of : Option Account → Option Credentials
credentials_of none = none
credentials_of (some a) = a.credentials

abbrev count_accounts : List Account → ℕ
count_accounts [] = 0
count_accounts (a ∷ others) = count_accounts others + 1

-- With a way to read the account of a token.
abbrev pub orm_with : (RefreshToken → Db → Result Account) → Orm Db
orm_with load = record {
  begin = λ db. (ok tt, seeing db db.stored);
  close = λ db. (ok tt, seeing db db.stored);
  commit = λ db. (ok tt, record db { stored = db.seen });
  rollback = λ db. (ok tt, seeing db db.stored);
  select_account = λ p db. (ok (first p db.seen.accounts), db);
  select_token = λ p db. (ok (first p db.seen.tokens), db);
  select_credentials =
      λ id db. (ok (credentials_of (first (account_with id) db.seen.accounts)), db);
  add_account = λ a db.
      if any (λ b. b.username == a.username || b.email == a.email) db.seen.accounts
      then (raised unique_violation, db)
      else (
        ok tt,
        seeing db (record db.seen {
          accounts = db.seen.accounts ++ new_account a (count_accounts db.seen.accounts + 1) ∷ [];
        }),
      );
  added_account =
      λ a db. (found_or_raised (first (λ b. b.username == a.username) db.seen.accounts), db);
  add_token = λ t db.
      if any (λ r. r.jti == t.jti) db.seen.tokens
      then (raised unique_violation, db)
      else (ok tt, set_tokens db (db.seen.tokens ++ t ∷ []));
  set_revoked_at = λ t now db. (ok tt, set_tokens db (map (revoke_row t.jti now) db.seen.tokens));
  set_last_login_at = λ id now db. (ok tt, db);
  account_of = λ t db. (load t db, db);
}

pub contract_with : (load : RefreshToken → Db → Result Account) → Contract (orm_with load)
contract_with load = record {
  seen = λ db. db.seen;
  stored = λ db. db.stored;
  begin_stored = λ db. refl;
  begin_seen = λ db e. refl;
  close_stored = λ db. refl;
  commit_ok = λ db e. refl;
  commit_raised = λ db e h. cc;
  rollback_stored = λ db. refl;
  select_account_found = λ p db. first-Found p db.seen.accounts;
  select_account_seen = λ p db. refl;
  select_account_stored = λ p db. refl;
  select_token_found = λ p db. first-Found p db.seen.tokens;
  select_token_seen = λ p db. refl;
  select_token_stored = λ p db. refl;
  select_credentials_stored = λ id db. refl;
  account_of_seen = λ t db. refl;
  account_of_stored = λ t db. refl;
  added_account_stored = λ a db. refl;
  add_account_stored = λ a db. ground arith;
  add_token_stored = λ t db. ground arith;
  add_token_seen = λ t db e. ground arith;
  add_token_fresh = λ t db e. ground arith;
  set_revoked_at_stored = λ t now db. refl;
  set_revoked_at_seen = λ t now db e. refl;
  set_last_login_at_stored = λ id now db. refl;
  select_credentials_seen = λ id db. refl;
  added_account_seen = λ a db. refl;
  add_account_seen = λ a db e. ground arith;
  set_last_login_at_seen = λ id now db e. refl;
  commit_seen = λ db e. refl;
}

-- The account is read from its table.
abbrev load_account : RefreshToken → Db → Result Account
load_account t db = found_or_raised (first (account_with t.account_id) db.seen.accounts)

abbrev pub orm : Orm Db
orm = orm_with load_account

pub contract : Contract orm
contract = contract_with load_account
