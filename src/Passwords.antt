-- ===== src/Passwords.antt =====
-- apps/auth_svc/utils/password_manager.py: hashing passwords and refresh tokens.
-- bcrypt, SHA-256 and UTF-8 are the parameter `Hashing`; passwords that cannot be encoded raise.
use mmo_backend_server.Prelude.{String, ℕ, Bool, true, Result, ok, raised, ◌≡◌, refl, ap, ◌∙◌}
use mmo_backend_server.AuthService.{PasswordManager}

-- `salt` is what `gensalt` draws for a number of rounds.
pub record Hashing (Bytes : Type 0) : Type 0 where
  pub encode : String → Result Bytes
  pub decode : Bytes → Result String
  pub gensalt : ℕ → Result Bytes
  pub hashpw : Bytes → Bytes → Result Bytes
  pub checkpw : Bytes → Bytes → Result Bool
  pub sha256_hexdigest : String → String

abbrev pub chain : {A B : Type 0} → Result A → (A → Result B) → Result B
chain (ok a) f = f a
chain (raised e) f = raised e

module _ {Bytes : Type 0} (h : Hashing Bytes) (rounds : ℕ) where
  unfoldable pub hash_password : String → Result String
  hash_password password =
      chain (h.encode password)
        (λ pwd_bytes. chain (h.gensalt rounds) (λ salt. chain (h.hashpw pwd_bytes salt) h.decode))

  unfoldable pub verify_password : String → String → Result Bool
  verify_password plain_password hashed_password =
      chain (h.encode plain_password) (λ password_bytes.
        chain (h.encode hashed_password)
          (λ hashed_password_bytes. h.checkpw password_bytes hashed_password_bytes))

  -- The manager that the authentication service is given.
  abbrev pub password_manager : PasswordManager
  password_manager = record {
    hash_password = hash_password;
    verify_password = verify_password;
    hash_refresh_token = h.sha256_hexdigest;
  }

-- UTF-8 reads back what it wrote, and bcrypt accepts the password that it hashed.
pub record HashingLaw {Bytes : Type 0} (h : Hashing Bytes) : Type 0 where
  pub encode_decode : (b : Bytes) (s : String) → h.decode b ≡ ok s → h.encode s ≡ ok b
  pub checkpw_hashpw : (p salt b : Bytes) → h.hashpw p salt ≡ ok b → h.checkpw p b ≡ ok true

chain-eq-ok :
    {A B : Type 0} (r : Result A) (f : A → Result B) {b : B}
    → chain r f ≡ ok b
    → (a : A) × (r ≡ ok a) × (f a ≡ ok b)
chain-eq-ok (ok a) f e = (a, refl, e)
chain-eq-ok (raised x) f e = cc

chain-of-ok : {A B : Type 0} (r : Result A) (f : A → Result B) {a : A} → r ≡ ok a → chain r f ≡ f a
chain-of-ok r f e = ap (λ x. chain x f) e

module _ {Bytes : Type 0} (h : Hashing Bytes) (law : HashingLaw h) (rounds : ℕ) where
  -- A password verifies against its own hash. UTF-8 and bcrypt meet their law.
  pub verify_password-hash_password :
      (password hashed : String)
      → hash_password h rounds password ≡ ok hashed
      → verify_password h rounds password hashed ≡ ok true
  unfolding hash_password verify_password
  verify_password-hash_password password hashed e =
      let (pwd, encoded, e1) = chain-eq-ok (h.encode password) _ e in
      let (salt, drawn, e2) = chain-eq-ok (h.gensalt rounds) _ e1 in
      let (bytes, made, read) = chain-eq-ok (h.hashpw pwd salt) h.decode e2 in
      chain-of-ok (h.encode password) _ encoded
      ∙ chain-of-ok (h.encode hashed) _ (law.encode_decode bytes hashed read)
      ∙ law.checkpw_hashpw pwd salt bytes made
