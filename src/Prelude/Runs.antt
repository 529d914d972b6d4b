-- ===== src/Prelude/Runs.antt =====
-- Calls that may not end: a call on fuel answers `none` where the fuel runs out.
use mathlib.Core.Path.{◌≡◌, refl}
use mathlib.Core.Bool.{true}
use mathlib.Core.Option.{Option, none, some}
use mmo_backend_server.Prelude.Tests.{is_some}
use mmo_backend_server.Prelude.Raises.{Result, ok, raised, Exec}

abbrev pub Run : Type 0 → Type 0 → Type 0
Run S A = S → Option (Result A × S)

module _ {S A : Type 0} where
  -- A call that ends.
  abbrev pub ended : Exec S A → Run S A
  ended m s = some (m s)

  abbrev pub Terminates : Run S A → S → Type 0
  Terminates m s = is_some (m s) ≡ true

module _ {S A B : Type 0} where
  abbrev pub continue : (A → Run S B) → Option (Result A × S) → Option (Result B × S)
  continue f none = none
  continue f (some (ok a, s)) = f a s
  continue f (some (raised e, s)) = some (raised e, s)

infixl 5 ◌>>=◌ ◌>>◌
abbrev pub ◌>>=◌ : {S A B : Type 0} → Run S A → (A → Run S B) → Run S B
◌>>=◌ m f s = continue f (m s)

abbrev pub ◌>>◌ : {S A B : Type 0} → Run S A → Run S B → Run S B
m >> k = m >>= λ _. k

module _ {S A B : Type 0} where
  continue-Terminates :
      (f : A → Run S B) (out : Option (Result A × S))
      → is_some out ≡ true
      → ((a : A) (s : S) → Terminates (f a) s)
      → is_some (continue f out) ≡ true
  continue-Terminates f none h hf = h
  continue-Terminates f (some (ok a, s)) h hf = hf a s
  continue-Terminates f (some (raised e, s)) h hf = refl

  -- A block ends if its parts do.
  pub Terminates-bind :
      (m : Run S A) (f : A → Run S B) (s : S)
      → Terminates m s
      → ((a : A) (v : S) → Terminates (f a) v)
      → Terminates (m >>= f) s
  Terminates-bind m f s h hf = continue-Terminates f (m s) h hf
