-- ===== src/AuthService/Spent.antt =====
-- Keys that are used up, and that nothing the service writes brings back.
use mmo_backend_server.Prelude.{
  ℕ, String, ◌≡◌, refl, ◌∙◌, Bool, true, false, List, [], ◌∷◌, ◌++◌, map, ◌==◌, arith, any,
}
use mmo_backend_server.Repository.{RefreshToken, is_live}
use mmo_backend_server.Repository.Contract.{revoke_row}
use mmo_backend_server.AuthService.DeadKeys.{any-append, any-jti-revoke_row, other_key-not-live}

-- The key belongs to a row, and no row is live under it.
abbrev pub Spent : String → ℕ → List RefreshToken → Type 0
Spent jti later rows =
    (any (λ row. row.jti == jti) rows ≡ true) × (any (is_live jti later) rows ≡ false)

any-append_left :
    {A : Type 0} (p : A → Bool) (xs : List A) (y : A)
    → any p xs ≡ true
    → any p (xs ++ y ∷ []) ≡ true
any-append_left p [] y h = cc
any-append_left p (x ∷ xs) y h = ground (arith, any-append_left p xs y)

-- Revoking any row makes no other live.
is_live-revoke_row :
    (jti key : String) (now later : ℕ) (rows : List RefreshToken)
    → any (is_live jti later) rows ≡ false
    → any (is_live jti later) (map (revoke_row key now) rows) ≡ false
is_live-revoke_row jti key now later [] h = refl
is_live-revoke_row jti key now later (t ∷ rows) h =
    ground (arith, is_live-revoke_row jti key now later rows)

pub Spent-append :
    (jti : String) (later : ℕ) (new : RefreshToken) (rows : List RefreshToken)
    → any (λ row. row.jti == new.jti) rows ≡ false
    → Spent jti later rows
    → Spent jti later (rows ++ new ∷ [])
Spent-append jti later new rows fresh (known, dead) = (
  any-append_left (λ row. row.jti == jti) rows new known,
  any-append (is_live jti later) rows new dead (other_key-not-live jti later new rows known fresh),
)

pub Spent-revoke :
    (jti key : String) (now later : ℕ) (rows : List RefreshToken)
    → Spent jti later rows
    → Spent jti later (map (revoke_row key now) rows)
Spent-revoke jti key now later rows (known, dead) =
    (any-jti-revoke_row key jti now rows ∙ known, is_live-revoke_row jti key now later rows dead)
