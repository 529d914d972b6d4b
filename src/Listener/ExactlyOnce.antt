-- ===== src/Listener/ExactlyOnce.antt =====
-- How often a message is settled.
use mmo_backend_server.Prelude.{
  ℕ, String, ◌≡◌, refl, subst, inl, inr, false, List, [], ◌∷◌, ◌++◌, arith, leb, Bool-cases,
  Exception, validation_error, Result, ok, raised, Exec, lift, ◌>>=◌, ◌>>◌, try_except,
}
use mmo_backend_server.Listener.{
  Message, Publication, Settlement, ack, nack, Port, Session, record_if_ok, settle_message,
  publish_message, process, retry_count, move_to_dlq, attempt, recover, on_message, validate_body,
}

-- What a call does to the settlements made so far: one more if it returns, none if it raises.
abbrev pub SettlesOnce :
    {W Json : Type 0} → List Settlement → Result (Unit {0}) × Session W Json → Type 0
SettlesOnce before (ok _, s') = (how : Settlement) × (s'.settled ≡ before ++ how ∷ [])
SettlesOnce before (raised e, s') = s'.settled ≡ before

-- A block settles once if its first call settles nothing and the rest settles once.
module _ {W Json A : Type 0} (f : A → Exec (Session W Json) (Unit {0})) where
  bind_result-SettlesOnce :
      (before : List Settlement) (r : Result A) (s : Session W Json)
      → s.settled ≡ before
      → ((a : A) (t : Session W Json) → SettlesOnce t.settled (f a t))
      → SettlesOnce before ((lift r >>= f) s)
  bind_result-SettlesOnce before (ok a) s e once = subst (λ l. SettlesOnce l (f a s)) e (once a s)
  bind_result-SettlesOnce before (raised x) s e once = e

  bind-SettlesOnce :
      (m : Exec (Session W Json) A) (s : Session W Json)
      → (m s).1.settled ≡ s.settled
      → ((a : A) (t : Session W Json) → SettlesOnce t.settled (f a t))
      → SettlesOnce s.settled ((m >>= f) s)
  bind-SettlesOnce m s e once = bind_result-SettlesOnce s.settled (m s).0 (m s).1 e once

module _ {W Body Json : Type 0} (port : Port W Body Json) where
  settle_message-SettlesOnce :
      (how : Settlement) (s : Session W Json) → SettlesOnce s.settled (settle_message port how s)
  settle_message-SettlesOnce how s = settles (port.settle how s.world)
    where
      settles :
          (out : Result (Unit {0}) × W)
          → SettlesOnce s.settled
              (record_if_ok port (λ s'. record s' { settled = s'.settled ++ how ∷ [] }) out s)
      settles (ok _, w) = (how, refl)
      settles (raised e, w) = refl

  publish_message-settled :
      (p : Publication Json) (s : Session W Json) → (publish_message port p s).1.settled ≡ s.settled
  publish_message-settled p s = ground arith

  process-settled :
      (json : Json) (msg : Message Body) (s : Session W Json)
      → (process port json msg s).1.settled ≡ s.settled
  process-settled json msg s = ground arith

  move_to_dlq-settled :
      (queue_name : String) (msg : Message Body) (s : Session W Json)
      → (move_to_dlq port queue_name msg s).1.settled ≡ s.settled
  unfolding move_to_dlq
  move_to_dlq-settled queue_name msg s = ground arith

  dead_letter-SettlesOnce :
      (queue_name : String) (msg : Message Body) (s : Session W Json)
      → SettlesOnce s.settled ((move_to_dlq port queue_name msg >> settle_message port ack) s)
  dead_letter-SettlesOnce queue_name msg s =
      bind-SettlesOnce (λ _. settle_message port ack) (move_to_dlq port queue_name msg) s
        (move_to_dlq-settled queue_name msg s) (λ _. settle_message-SettlesOnce ack)

  attempt-SettlesOnce :
      (max_retries : ℕ) (queue_name : String) (msg : Message Body) (s : Session W Json)
      → SettlesOnce s.settled (attempt port max_retries queue_name msg s)
  unfolding attempt
  attempt-SettlesOnce max_retries queue_name msg s =
      elim (Bool-cases (leb max_retries (retry_count msg.death_headers))) [
        | inl spent ↦ rw spent (dead_letter-SettlesOnce queue_name msg s)
        | inr left ↦ rw left (
            bind-SettlesOnce _ (lift (port.loads msg.body)) s refl λ body t.
              bind-SettlesOnce _ (lift (validate_body port port.validate body)) t refl λ json u.
                bind-SettlesOnce (λ _. settle_message port ack) (process port json msg) u
                  (process-settled json msg u) (λ _. settle_message-SettlesOnce ack))
      ]

  recover-SettlesOnce :
      (queue_name : String) (msg : Message Body) (e : Exception) (s : Session W Json)
      → SettlesOnce s.settled (recover port queue_name msg e s)
  unfolding recover
  recover-SettlesOnce queue_name msg validation_error s = dead_letter-SettlesOnce queue_name msg s
  recover-SettlesOnce queue_name msg _ s = settle_message-SettlesOnce (nack false) s

  try_except-SettlesOnce :
      (handler : Exception → Exec (Session W Json) (Unit {0})) (before : List Settlement)
      (out : Result (Unit {0}) × Session W Json)
      → SettlesOnce before out
      → ((e : Exception) (t : Session W Json) → SettlesOnce t.settled (handler e t))
      → SettlesOnce before (try_except (λ (_ : Session W Json). out) handler out.1)
  try_except-SettlesOnce handler before (ok _, s') once again = once
  try_except-SettlesOnce handler before (raised e, s') once again =
      subst (λ l. SettlesOnce l (handler e s')) once (again e s')

  -- A delivery that `_on_message` finishes is acknowledged or rejected exactly once; one that ends
  -- in an exception is not settled at all. This holds however parsing, validation, processing,
  -- publishing and settling end.
  pub on_message-SettlesOnce :
      (max_retries : ℕ) (queue_name : String) (msg : Message Body) (s : Session W Json)
      → SettlesOnce s.settled (on_message port max_retries queue_name msg s)
  unfolding on_message
  on_message-SettlesOnce max_retries queue_name msg s =
      try_except-SettlesOnce (recover port queue_name msg) s.settled
        (attempt port max_retries queue_name msg s)
        (attempt-SettlesOnce max_retries queue_name msg s) (recover-SettlesOnce queue_name msg)
