-- ===== src/Listener/Retries.antt =====
-- The life of one message over its redeliveries. A rejected delivery goes by the retry queue back to
-- its queue, and the broker counts that in the `x-death` header: this is the parameter `Redelivery`.
use mathlib.Core.List.{append-nil, append_assoc}
use mmo_backend_server.Prelude.{
  ℕ, zero, suc, ◌+◌, ◌≤◌, String, ◌≡◌, refl, ap, inl, inr, Bool, true, false, Option, none, some,
  List, [], ◌∷◌, ◌++◌, arith, Bool-cases, Exception, ok, raised, ◌∙◌, subst, replicate,
}
use mmo_backend_server.Listener.{
  Message, Settlement, ack, nack, Port, Session, retry_count, on_message,
}
use mmo_backend_server.Listener.Verdicts.{
  retried, settlement, judge, IsUp, Carried, on_message-Carried,
}

pub record Redelivery (Body : Type 0) : Type 0 where
  pub redeliver : Message Body → Message Body
  pub same_body : (m : Message Body) → (redeliver m).body ≡ m.body
  pub counts :
      (m : Message Body) → retry_count (redeliver m).death_headers ≡ retry_count m.death_headers + 1

abbrev pub is_nack : Settlement → Bool
is_nack ack = false
is_nack (nack _) = true

-- Whether the last settlement is a rejection.
abbrev pub rejected : List Settlement → Bool
rejected [] = false
rejected (how ∷ []) = is_nack how
rejected (how ∷ next ∷ l) = rejected (next ∷ l)

rejected-append : (l : List Settlement) (how : Settlement) → rejected (l ++ how ∷ []) ≡ is_nack how
rejected-append [] how = refl
rejected-append (x ∷ []) how = refl
rejected-append (x ∷ y ∷ l) how = rejected-append (y ∷ l) how

module _ {W Body Json : Type 0} (port : Port W Body Json) (r : Redelivery Body) (max_retries : ℕ)
    (queue_name : String) where
  -- The session after so many deliveries of a message that keeps coming back.
  unfoldable pub deliveries : ℕ → Message Body → Session W Json → Session W Json
  deliveries zero msg s = s
  deliveries (suc k) msg s =
      deliveries k (r.redeliver msg) (on_message port max_retries queue_name msg s).1

  -- The message is delivered until it is not rejected; `none` if it is rejected every time.
  unfoldable pub life : ℕ → Message Body → Session W Json → Option (Session W Json)
  life zero msg s = none
  life (suc k) msg s =
      let s' = (on_message port max_retries queue_name msg s).1 in
      elim (rejected s'.settled) [ true ↦ life k (r.redeliver msg) s' | false ↦ some s' ]

  module _ (up : IsUp port) where
    rejected-on_message :
        (msg : Message Body) (s : Session W Json)
        → rejected (on_message port max_retries queue_name msg s).1.settled
          ≡ is_nack (settlement (judge port max_retries msg s.world))
    rejected-on_message msg s =
        ap rejected (on_message-Carried port up queue_name msg max_retries s).settled
        ∙ rejected-append s.settled (settlement (judge port max_retries msg s.world))

    spent_is_buried :
        (msg : Message Body) (s : Session W Json) (body : Json)
        → port.loads msg.body ≡ ok body
        → max_retries ≤ retry_count msg.death_headers
        → is_nack (settlement (judge port max_retries msg s.world)) ≡ false
    spent_is_buried msg s body e h = ground arith

    spent-not-rejected :
        (msg : Message Body) (s : Session W Json) (body : Json)
        → port.loads msg.body ≡ ok body
        → max_retries ≤ retry_count msg.death_headers
        → rejected (on_message port max_retries queue_name msg s).1.settled ≡ false
    spent-not-rejected msg s body e h = rejected-on_message msg s ∙ spent_is_buried msg s body e h

    life-done :
        (k : ℕ) (msg : Message Body) (s : Session W Json)
        → rejected (on_message port max_retries queue_name msg s).1.settled ≡ false
        → life (suc k) msg s ≡ some (on_message port max_retries queue_name msg s).1
    unfolding life
    life-done k msg s done = rw (done, life)

    life-back :
        (k : ℕ) (msg : Message Body) (s : Session W Json)
        → rejected (on_message port max_retries queue_name msg s).1.settled ≡ true
        → life (suc k) msg s
          ≡ life k (r.redeliver msg) (on_message port max_retries queue_name msg s).1
    unfolding life
    life-back k msg s back = rw (back, life)

    -- A message whose body parses is rejected at most until its count reaches the limit: within
    -- `max_retries - count + 1` deliveries (`k + 1` with `max_retries ≤ count + k`) there is one
    -- that is not rejected, and with it the message's life ends. Conditions: every publication to the
    -- dead-letter exchange and every settlement succeeds, reading JSON raises no validation error of
    -- pydantic, and the broker brings a rejected message back with the same body and its count one
    -- higher.
    pub life_ends :
        (k : ℕ) (msg : Message Body) (s : Session W Json) (body : Json)
        → port.loads msg.body ≡ ok body
        → max_retries ≤ retry_count msg.death_headers + k
        → (s' : Session W Json) × (life (suc k) msg s ≡ some s') × (rejected s'.settled ≡ false)
    life_ends zero msg s body e h =
        let done = spent-not-rejected msg s body e (omega arith) in
        ((on_message port max_retries queue_name msg s).1, life-done zero msg s done, done)
    life_ends (suc k) msg s body e h =
        let s' : Session W Json = (on_message port max_retries queue_name msg s).1 in
        elim (Bool-cases (rejected s'.settled)) [
          | inl back ↦
              let (t, et, done) =
                life_ends k (r.redeliver msg) s' body (ap port.loads (r.same_body msg) ∙ e)
                  (omega (arith, r.counts msg)) in
              (t, life-back (suc k) msg s back ∙ et, done)
          | inr done ↦ (s', life-done (suc k) msg s done, done)
        ]

    unparsed_is_retried :
        (msg : Message Body) (s : Session W Json) (x : Exception)
        → port.loads msg.body ≡ raised x
        → judge port max_retries msg s.world ≡ retried
    unparsed_is_retried msg s x e = rw e

    -- A message whose body does not parse is rejected at every delivery, however often it has come
    -- back, and is never published to the dead-letter queue.
    pub deliveries-unparsed :
        (k : ℕ) (msg : Message Body) (s : Session W Json) (x : Exception)
        → port.loads msg.body ≡ raised x
        → ((deliveries k msg s).published ≡ s.published)
          × ((deliveries k msg s).settled ≡ s.settled ++ replicate k (nack false))
    unfolding deliveries
    deliveries-unparsed zero msg s x e = (refl, rw append-nil)
    deliveries-unparsed (suc k) msg s x e =
        let s' : Session W Json = (on_message port max_retries queue_name msg s).1 in
        let c : Carried port queue_name msg s retried
            (on_message port max_retries queue_name msg s) =
          subst
            (λ v. Carried port queue_name msg s v (on_message port max_retries queue_name msg s))
            (unparsed_is_retried msg s x e)
            (on_message-Carried port up queue_name msg max_retries s) in
        let (ep, es) =
          deliveries-unparsed k (r.redeliver msg) s' x (ap port.loads (r.same_body msg) ∙ e) in
        (
          ep ∙ c.published ∙ append-nil _,
          es
              ∙ ap (λ l. l ++ replicate k (nack false)) c.settled
              ∙ append_assoc s.settled (nack false ∷ []) (replicate k (nack false)),
        )
