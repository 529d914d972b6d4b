-- ===== src/AuthService/DeadKeys.antt =====
-- The rows of the refresh tokens: which keys are live, and what revoking and adding does to that.
use mmo_backend_server.Prelude.{
  ℕ, ◌≤◌, String, ◌≡◌, refl, ap, inl, inr, Bool, true, false, List, [], ◌∷◌, ◌++◌, map, ◌==◌,
  eq_iff, arith, any, Bool-cases,
}
use mmo_backend_server.Repository.{RefreshToken, is_live}
use mmo_backend_server.Repository.Contract.{Tables, revoke_row}

-- No token with this key is live.
abbrev pub IsDead : String → ℕ → Tables → Type 0
IsDead jti now t = any (is_live jti now) t.tokens ≡ false

pub any-append :
    {A : Type 0} (p : A → Bool) (xs : List A) (y : A)
    → any p xs ≡ false
    → p y ≡ false
    → any p (xs ++ y ∷ []) ≡ false
any-append p [] y h k = rw k
any-append p (x ∷ xs) y h k = ground (arith, any-append p xs y)

-- No row that has been revoked under its key is live.
pub any-revoke_row :
    (jti : String) (now later : ℕ) (rows : List RefreshToken)
    → any (is_live jti later) (map (revoke_row jti now) rows) ≡ false
any-revoke_row jti now later [] = refl
any-revoke_row jti now later (t ∷ rows) = ground (arith, any-revoke_row jti now later rows)

-- Revoking changes no key.
pub any-jti-revoke_row :
    (jti key : String) (now : ℕ) (rows : List RefreshToken)
    → any (λ r. r.jti == key) (map (revoke_row jti now) rows) ≡ any (λ r. r.jti == key) rows
any-jti-revoke_row jti key now [] = refl
any-jti-revoke_row jti key now (t ∷ rows) = ground (arith, any-jti-revoke_row jti key now rows)

-- What has expired stays so.
pub is_live_later :
    (jti : String) (now later : ℕ) (rows : List RefreshToken)
    → now ≤ later
    → any (is_live jti now) rows ≡ false
    → any (is_live jti later) rows ≡ false
is_live_later jti now later [] le h = refl
is_live_later jti now later (t ∷ rows) le h = ground (arith, is_live_later jti now later rows)

pub is_live-jti :
    (jti : String) (now : ℕ) (t : RefreshToken) → is_live jti now t ≡ true → t.jti ≡ jti
is_live-jti jti now t h = ground (arith, eq_iff t.jti jti)

-- A row whose key no row has is not live under a key that some row has.
pub other_key-not-live :
    (jti : String) (later : ℕ) (new : RefreshToken) (rows : List RefreshToken)
    → any (λ row. row.jti == jti) rows ≡ true
    → any (λ row. row.jti == new.jti) rows ≡ false
    → is_live jti later new ≡ false
other_key-not-live jti later new rows known fresh = elim (Bool-cases (is_live jti later new)) [
  | inl live ↦
      let same : new.jti ≡ jti = is_live-jti jti later new live in
      cc (known, fresh, ap (λ k. any (λ row. row.jti == k) rows) same)
  | inr dead ↦ dead
]
