-- ===== src/Prelude/Raises.antt =====
-- Python's exceptions and mutable objects: a call takes the state to a result and the new state.
-- What was written before a raise stays written, so the state comes back beside the exception too.
use mathlib.Core.Path.{◌≡◌, refl, ap}
use mathlib.Core.Bool.{Bool, true, false}
use mathlib.Core.Logic.{◌⊎◌, inl, inr}
use mmo_backend_server.Prelude.Tests.{if◌then◌else◌}

-- The exception classes that the program raises or catches by name; `other_error` is any other
-- subclass of `Exception`. A `jwt_…` is PyJWT's ExpiredSignatureError, InvalidAudienceError,
-- InvalidIssuerError, another InvalidTokenError, or another PyJWTError; `integrity_error` is
-- SQLAlchemy's IntegrityError, or `unique_violation` where its `orig` is a UniqueViolationError.
pub data Exception : Type 0 where
  validation_error json_error value_error assertion_error runtime_error websocket_disconnect :
      Exception
  connection_closed channel_closed connection_error timeout_error http_error : Exception
  integrity_error unique_violation jwt_expired jwt_bad_audience jwt_bad_issuer : Exception
  jwt_invalid jwt_error other_error : Exception

pub data Result {ℓ} (A : Type ℓ) : Type ℓ where
  ok : A → Result A
  raised : Exception → Result A

pub ok-injective {ℓ} : {A : Type ℓ} {a b : A} → ok a ≡ ok b → a ≡ b
ok-injective e = cc

abbrev pub Exec : Type 0 → Type 0 → Type 0
Exec S A = S → Result A × S

module _ {S A : Type 0} where
  abbrev pub pure : A → Exec S A
  pure a s = (ok a, s)

  abbrev pub raise : Exception → Exec S A
  raise e s = (raised e, s)

  abbrev pub gets : (S → A) → Exec S A
  gets f s = (ok (f s), s)

  abbrev pub lift : Result A → Exec S A
  lift r s = (r, s)

abbrev pub modify : {S : Type 0} → (S → S) → Exec S (Unit {0})
modify f s = (ok tt, f s)

infixl 5 ◌>>=◌ ◌>>◌
abbrev pub ◌>>=◌ : {S A B : Type 0} → Exec S A → (A → Exec S B) → Exec S B
◌>>=◌ m f s = let (r, s') = m s in elim r [ ok a ↦ f a s' | raised e ↦ (raised e, s') ]

abbrev pub ◌>>◌ : {S A B : Type 0} → Exec S A → Exec S B → Exec S B
m >> k = m >>= λ _. k

-- `try: m except ...: handler`, where the handler re-raises what it does not catch.
abbrev pub try_except : {S A : Type 0} → Exec S A → (Exception → Exec S A) → Exec S A
try_except m handler s = let (r, s') = m s in elim r [ ok a ↦ (ok a, s') | raised e ↦ handler e s' ]

-- What `finally: k` leaves, given how the block ended: an exception of `k` replaces the outcome.
abbrev pub finish : {S A : Type 0} → Result A → Result (Unit {0}) × S → Result A × S
finish r (ok _, s) = (r, s)
finish r (raised e, s) = (raised e, s)

-- `try: m finally: k`
abbrev pub try_finally : {S A : Type 0} → Exec S A → Exec S (Unit {0}) → Exec S A
try_finally m k s = let (r, s') = m s in finish r (k s')

-- A call keeps `P`, whether it returns or raises.
abbrev pub Keeps {κ} : {S A : Type 0} → (S → Type κ) → Exec S A → Type κ
Keeps P m = (s : _) → P s → P (m s).1

module _ {κ} {S A B : Type 0} (P : S → Type κ) where
  bind-result :
      (f : A → Exec S B)
      → ((a : A) → Keeps P (f a))
      → (r : Result A) (s : S) → P s
      → P ((lift r >>= f) s).1
  bind-result f kf (ok a) s h = kf a s h
  bind-result f kf (raised e) s h = h

  pub Keeps-bind :
      (m : Exec S A) (f : A → Exec S B) → Keeps P m → ((a : A) → Keeps P (f a)) → Keeps P (m >>= f)
  Keeps-bind m f km kf s h = bind-result f kf (m s).0 (m s).1 (km s h)

pub Keeps-if {κ} :
    {S A : Type 0} (P : S → Type κ) (b : Bool) (m k : Exec S A)
    → Keeps P m
    → Keeps P k
    → Keeps P (if b then m else k)
Keeps-if P true m k hm hk = hm
Keeps-if P false m k hm hk = hk

module _ {κ} {S A : Type 0} (P : S → Type κ) where
  try_result-keeps :
      (handler : Exception → Exec S A)
      → ((e : Exception) → Keeps P (handler e))
      → (r : Result A) (s : S) → P s
      → P (try_except (lift r) handler s).1
  try_result-keeps handler kh (ok a) s h = h
  try_result-keeps handler kh (raised e) s h = kh e s h

  pub Keeps-try :
      (m : Exec S A) (handler : Exception → Exec S A)
      → Keeps P m
      → ((e : Exception) → Keeps P (handler e))
      → Keeps P (try_except m handler)
  Keeps-try m handler km kh s h = try_result-keeps handler kh (m s).0 (m s).1 (km s h)

module _ {S A B : Type 0} where
  bind_result-eq-ok :
      (f : A → Exec S B) (r : Result A) (s : S) {b : B}
      → ((lift r >>= f) s).0 ≡ ok b
      → (a : A) × (r ≡ ok a) × ((f a s).0 ≡ ok b)
  bind_result-eq-ok f (ok a) s e = (a, refl, e)
  bind_result-eq-ok f (raised x) s e = cc

  bind_result-of-ok :
      (f : A → Exec S B) (r : Result A) (s : S) {a : A} → r ≡ ok a → (lift r >>= f) s ≡ f a s
  bind_result-of-ok f (ok a) s e = ap (λ x. f x s) (ok-injective e)
  bind_result-of-ok f (raised x) s e = cc

  -- A block goes on from a call that returned.
  pub bind-of-ok :
      (m : Exec S A) (f : A → Exec S B) (s : S) {a : A} → (m s).0 ≡ ok a → (m >>= f) s ≡ f a (m s).1
  bind-of-ok m f s e = bind_result-of-ok f (m s).0 (m s).1 e

  -- Inversion of a block that returned.
  pub bind-eq-ok :
      (m : Exec S A) (f : A → Exec S B) (s : S) {b : B}
      → ((m >>= f) s).0 ≡ ok b
      → (a : A) × ((m s).0 ≡ ok a) × ((f a (m s).1).0 ≡ ok b)
  bind-eq-ok m f s e = bind_result-eq-ok f (m s).0 (m s).1 e

-- What raised in a chain of two calls.
module _ {S A B : Type 0} where
  bind_result-eq-raised :
      (f : A → Exec S B) (r : Result A) (s : S) {e : Exception}
      → ((lift r >>= f) s).0 ≡ raised e
      → (r ≡ raised e) ⊎ ((a : A) × (r ≡ ok a) × ((f a s).0 ≡ raised e))
  bind_result-eq-raised f (ok a) s h = inr (a, refl, h)
  bind_result-eq-raised f (raised x) s h = inl (cc)

  pub bind-eq-raised :
      (m : Exec S A) (f : A → Exec S B) (s : S) {e : Exception}
      → ((m >>= f) s).0 ≡ raised e
      → ((m s).0 ≡ raised e) ⊎ ((a : A) × ((m s).0 ≡ ok a) × ((f a (m s).1).0 ≡ raised e))
  bind-eq-raised m f s h = bind_result-eq-raised f (m s).0 (m s).1 h

module _ {S A : Type 0} (handler : Exception → Exec S A) where
  try_result-ok :
      (r : Result A) (s : S) {a : A} → r ≡ ok a → try_except (lift r) handler s ≡ (ok a, s)
  try_result-ok (ok b) s e = ap (λ x. (ok x, s)) (ok-injective e)
  try_result-ok (raised x) s e = cc

  try_result-raised :
      (r : Result A) (s : S) {x : Exception}
      → r ≡ raised x
      → try_except (lift r) handler s ≡ handler x s
  try_result-raised (ok b) s e = cc
  try_result-raised (raised y) s e = cc

  -- A block that returns meets no handler, and one that raises goes on in the handler.
  pub try_except-ok :
      (m : Exec S A) (s : S) {a : A} → (m s).0 ≡ ok a → try_except m handler s ≡ (ok a, (m s).1)
  try_except-ok m s e = try_result-ok (m s).0 (m s).1 e

  pub try_except-raised :
      (m : Exec S A) (s : S) {x : Exception}
      → (m s).0 ≡ raised x
      → try_except m handler s ≡ handler x (m s).1
  try_except-raised m s e = try_result-raised (m s).0 (m s).1 e

  -- A block enters a `try` only by its outcome.
  pub try_except-congr :
      (m m' : Exec S A) (s : S) → m s ≡ m' s → try_except m handler s ≡ try_except m' handler s
  try_except-congr m m' s e = ap (λ out. try_except (λ (_ : S). out) handler s) e

finish-eq-ok :
    {S A : Type 0} (r : Result A) (out : Result (Unit {0}) × S) {a : A}
    → (finish r out).0 ≡ ok a
    → (r ≡ ok a) × (out.0 ≡ ok tt)
finish-eq-ok r (ok _, s) e = (e, refl)
finish-eq-ok r (raised x, s) e = cc

finish-state :
    {S A : Type 0} (r : Result A) (out : Result (Unit {0}) × S) → (finish r out).1 ≡ out.1
finish-state r (ok _, s) = refl
finish-state r (raised x, s) = refl

module _ {S A : Type 0} (m : Exec S A) (k : Exec S (Unit {0})) (s : S) where
  -- A block with a `finally` returns only if both parts do.
  pub try_finally-eq-ok :
      {a : A} → (try_finally m k s).0 ≡ ok a → ((m s).0 ≡ ok a) × ((k (m s).1).0 ≡ ok tt)
  try_finally-eq-ok e = finish-eq-ok (m s).0 (k (m s).1) e

  pub try_finally-state : (try_finally m k s).1 ≡ (k (m s).1).1
  try_finally-state = finish-state (m s).0 (k (m s).1)
