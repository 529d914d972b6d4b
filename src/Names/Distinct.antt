-- ===== src/Names/Distinct.antt =====
-- Two names that the code builds for different purposes differ.
use Prim.Native.String.{◌++◌}
use Prim.Native.Char.{code}
use text.Mathlib.TextLemmas.{append_cancel_left, append_cancel_right, nil-append, cons-append}
use mmo_backend_server.Prelude.{
  ℕ, zero, suc, String, ◌≡◌, ◌≢◌, ap, sym, [], ◌∷◌, ◌∙◌, Option, none, some, arith,
}
use mmo_backend_server.Names.{
  make_key, get_retry_queue_name, get_dlq_name, key_auth_failed_attempts, key_auth_ban,
}

-- The code point at a place of a text.
char_code : String → ℕ → Option ℕ
char_code String.[] i = none
char_code (String.◌∷◌ c s) zero = some (code c)
char_code (String.◌∷◌ c s) (suc i) = char_code s i

-- `++` by clauses, which runs through a literal in front of a variable.
append : String → String → String
append String.[] t = t
append (String.◌∷◌ c s) t = String.◌∷◌ c (append s t)

append-eq : (s t : String) → s ++ t ≡ append s t
unfolding append
append-eq String.[] t = nil-append t
append-eq (String.◌∷◌ c s) t = cons-append c s t ∙ ap (String.◌∷◌ c) (append-eq s t)

-- The first letter of the third part of a ban key and of an attempts key.
ban_letter : (user : String) → char_code (key_auth_ban user) 10 ≡ some b'b'
unfolding key_auth_ban char_code append
ban_letter user = simp append-eq

attempts_letter : (user : String) → char_code (key_auth_failed_attempts user) 10 ≡ some b'r'
unfolding key_auth_failed_attempts char_code append
attempts_letter user = simp append-eq

-- No user's ban key is any user's attempts key.
pub key_auth_ban-ne-key_auth_failed_attempts :
    (user other : String) → key_auth_ban user ≢ key_auth_failed_attempts other
key_auth_ban-ne-key_auth_failed_attempts user other e =
    let letters : ◌≡◌ {A = Option ℕ} (some 98) (some 114) =
      sym (ban_letter user) ∙ ap (λ k. char_code k 10) e ∙ attempts_letter other in
    ground arith

make_key-injective :
    (a b c u v : String) → make_key (a ∷ b ∷ c ∷ u ∷ []) ≡ make_key (a ∷ b ∷ c ∷ v ∷ []) → u ≡ v
unfolding make_key
make_key-injective a b c u v e =
    let e1 = append_cancel_left "core:" _ _ e in
    let e2 = append_cancel_left ":" _ _ (append_cancel_left a _ _ e1) in
    let e3 = append_cancel_left ":" _ _ (append_cancel_left b _ _ e2) in
    append_cancel_left ":" u v (append_cancel_left c _ _ e3)

-- Two users share a ban key only if they have one name.
pub key_auth_ban-injective :
    (user other : String) → key_auth_ban user ≡ key_auth_ban other → user ≡ other
unfolding key_auth_ban
key_auth_ban-injective user other e = make_key-injective "auth" "ban" "login" user other e

pub key_auth_failed_attempts-injective :
    (user other : String)
    → key_auth_failed_attempts user ≡ key_auth_failed_attempts other
    → user ≡ other
unfolding key_auth_failed_attempts
key_auth_failed_attempts-injective user other e =
    make_key-injective "auth" "rate" "login" user other e

-- Neither suffix makes the name of one queue that of another's dead-letter queue.
pub get_retry_queue_name-injective :
    (a b : String) → get_retry_queue_name a ≡ get_retry_queue_name b → a ≡ b
unfolding get_retry_queue_name
get_retry_queue_name-injective a b e = append_cancel_right a b ".retry" e

pub get_dlq_name-injective : (a b : String) → get_dlq_name a ≡ get_dlq_name b → a ≡ b
unfolding get_dlq_name
get_dlq_name-injective a b e = append_cancel_right a b ".dlq" e
