-- ===== src/Prelude/Triples.antt =====
-- Calls with a precondition, a postcondition where they return, and one where they raise.
use mathlib.Core.Bool.{Bool, true, false}
use mmo_backend_server.Prelude.Tests.{if◌then◌else◌}
use mmo_backend_server.Prelude.Raises.{Exception, Result, ok, raised, Exec, lift, ◌>>=◌, try_except}

-- A call from `P` ends in `R` if it returns, and in `Q` if it raises.
abbrev pub Ends {κ} : {S A : Type 0} → (S → Type κ) → (S → Type κ) → Result A × S → Type κ
Ends R Q (ok a, s) = R s
Ends R Q (raised e, s) = Q s

abbrev pub Triple {κ} :
    {S A : Type 0} → (S → Type κ) → (S → Type κ) → (S → Type κ) → Exec S A → Type κ
Triple P R Q m = (s : _) → P s → Ends R Q (m s)

-- Where both ends are alike, only the state counts.
module _ {κ} {S A : Type 0} (P : S → Type κ) where
  pub both-Ends : (out : Result A × S) → P out.1 → Ends P P out
  both-Ends (ok a, s) h = h
  both-Ends (raised e, s) h = h

  pub both-Ends-state : (out : Result A × S) → Ends P P out → P out.1
  both-Ends-state (ok a, s) h = h
  both-Ends-state (raised e, s) h = h

module _ {κ} {S A : Type 0} (P R T Q : S → Type κ) where
  result-Triple-bind :
      {B : Type 0} (f : A → Exec S B)
      → ((a : A) → Triple R T Q (f a))
      → (out : Result A × S) → Ends R Q out
      → Ends T Q ((lift out.0 >>= f) out.1)
  result-Triple-bind f kf (ok a, s) h = kf a s h
  result-Triple-bind f kf (raised e, s) h = h

  pub Triple-bind :
      {B : Type 0} (m : Exec S A) (f : A → Exec S B)
      → Triple P R Q m
      → ((a : A) → Triple R T Q (f a))
      → Triple P T Q (m >>= f)
  Triple-bind m f km kf s h = result-Triple-bind f kf (m s) (km s h)

  result-Triple-try :
      (handler : Exception → Exec S A)
      → ((e : Exception) → Triple Q R Q (handler e))
      → (out : Result A × S) → Ends R Q out
      → Ends R Q (try_except (λ (_ : S). out) handler out.1)
  result-Triple-try handler kh (ok a, s) h = h
  result-Triple-try handler kh (raised e, s) h = kh e s h

  pub Triple-try :
      (m : Exec S A) (handler : Exception → Exec S A)
      → Triple P R Q m
      → ((e : Exception) → Triple Q R Q (handler e))
      → Triple P R Q (try_except m handler)
  Triple-try m handler km kh s h = result-Triple-try handler kh (m s) (km s h)

  pub Triple-if :
      (b : Bool) (m k : Exec S A)
      → Triple P R Q m
      → Triple P R Q k
      → Triple P R Q (if b then m else k)
  Triple-if true m k hm hk = hm
  Triple-if false m k hm hk = hk
