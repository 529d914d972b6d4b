-- ===== src/Listener/Verdicts.antt =====
-- What `_on_message` decides about a delivery, against a description without exceptions or state.
use mathlib.Core.List.{append-nil}
use mmo_backend_server.Prelude.{
  ℕ, String, ◌≡◌, ◌≢◌, refl, ap, inl, inr, true, false, List, [], ◌∷◌, ◌++◌, arith, leb,
  if◌then◌else◌, Bool-cases, Exception, validation_error, Result, ok, raised, Exec, lift, ◌>>=◌,
  ◌>>◌, try_except, try_except-ok, try_except-congr, ◌∙◌,
}
use mmo_backend_server.Listener.{
  Message, Publication, Settlement, ack, nack, Port, Session, record_if_ok, settle_message, process,
  retry_count, move_to_dlq, attempt, recover, on_message, validate_body, dead_letter_of,
}

-- The fate of a delivery: processed, moved to the dead-letter queue with its parsed body, or
-- rejected into the retry queue.
pub data Verdict (Json : Type 0) : Type 0 where
  processed : Verdict Json
  buried : Json → Verdict Json
  retried : Verdict Json

abbrev pub settlement : {Json : Type 0} → Verdict Json → Settlement
settlement processed = ack
settlement (buried body) = ack
settlement retried = nack false

module _ {W Body Json : Type 0} (port : Port W Body Json) where
  abbrev judge_processing : Json → Result (Unit {0}) → Verdict Json
  judge_processing body (ok _) = processed
  judge_processing body (raised validation_error) = buried body
  judge_processing body (raised _) = retried

  abbrev judge_validation : Message Body → W → Json → Result Json → Verdict Json
  judge_validation msg w body (ok json) = judge_processing body (port.process_message json msg w).0
  judge_validation msg w body (raised validation_error) = buried body
  judge_validation msg w body (raised _) = retried

  abbrev judge_body : ℕ → Message Body → W → Result Json → Verdict Json
  judge_body max_retries msg w (ok body) =
      if leb max_retries (retry_count msg.death_headers)
      then buried body
      else judge_validation msg w body (validate_body port port.validate body)
  judge_body max_retries msg w (raised _) = retried

  -- A body that does not parse is retried whatever its count; any other is buried once its count
  -- has reached the limit, or when its content is invalid; other failures are retried.
  abbrev pub judge : ℕ → Message Body → W → Verdict Json
  judge max_retries msg w = judge_body max_retries msg w (port.loads msg.body)

  abbrev pub letters : String → Message Body → Verdict Json → List (Publication Json)
  letters queue_name msg (buried body) = dead_letter_of port queue_name msg body ∷ []
  letters queue_name msg _ = []

  -- The broker takes every publication and every settlement, and the JSON parser raises no
  -- `ValidationError`, which is a class of the validator.
  pub record IsUp : Type 0 where
    pub publishes : (p : Publication Json) (w : W) → (port.publish p w).0 ≡ ok tt
    pub settles : (how : Settlement) (w : W) → (port.settle how w).0 ≡ ok tt
    pub parses : (b : Body) → port.loads b ≢ raised validation_error

  -- `v` was carried out from the state `s`.
  pub record Carried (queue_name : String) (msg : Message Body) (s : Session W Json)
      (v : Verdict Json) (out : Result (Unit {0}) × Session W Json) : Type 0 where
    pub returned : out.0 ≡ ok tt
    pub settled : out.1.settled ≡ s.settled ++ settlement v ∷ []
    pub published : out.1.published ≡ s.published ++ letters queue_name msg v

  record_if_ok-returns :
      (note : Session W Json → Session W Json) (out : Result (Unit {0}) × W) (s : Session W Json)
      → out.0 ≡ ok tt
      → record_if_ok port note out s ≡ (ok tt, note (record s { world = out.1 }))
  record_if_ok-returns note (ok _, w) s e = refl
  record_if_ok-returns note (raised x, w) s e = cc

  module _ (up : IsUp) (queue_name : String) (msg : Message Body) where
    bury-Carried :
        (body : Json) (s : Session W Json)
        → port.loads msg.body ≡ ok body
        → Carried queue_name msg s
            (buried body)
            ((move_to_dlq port queue_name msg >> settle_message port ack) s)
    unfolding move_to_dlq
    bury-Carried body s e =
        let p : Publication Json = dead_letter_of port queue_name msg body in
        let w : W = (port.publish p s.world).1 in
        record {
          returned = ground (arith, up.publishes p s.world, up.settles ack w);
          settled = ground (arith, up.publishes p s.world, up.settles ack w);
          published = ground (arith, up.publishes p s.world, up.settles ack w);
        }

    -- What was carried out from `t` was so from any state with its settlements and letters.
    Carried-of-same :
        (s t : Session W Json) (v : Verdict Json) (out : Result (Unit {0}) × Session W Json)
        → t.settled ≡ s.settled
        → t.published ≡ s.published
        → Carried queue_name msg t v out
        → Carried queue_name msg s v out
    Carried-of-same s t v out es ep c = record {
      returned = c.returned;
      settled = c.settled ∙ ap (λ l. l ++ settlement v ∷ []) es;
      published = c.published ∙ ap (λ l. l ++ letters queue_name msg v) ep;
    }

    settle-Carried :
        (v : Verdict Json) (s : Session W Json)
        → letters queue_name msg v ≡ []
        → Carried queue_name msg s v (settle_message port (settlement v) s)
    settle-Carried v s none_sent = record {
      returned = ground (arith, up.settles (settlement v) s.world);
      settled = ground (arith, up.settles (settlement v) s.world);
      published = rw (none_sent, append-nil) (ground (arith, up.settles (settlement v) s.world));
    }

    recover-Carried :
        (body : Json) (x : Exception) (s t : Session W Json)
        → port.loads msg.body ≡ ok body
        → t.settled ≡ s.settled
        → t.published ≡ s.published
        → Carried queue_name msg s
            (judge_processing body (raised x))
            (recover port queue_name msg x t)
    unfolding recover
    recover-Carried body validation_error s t e es ep =
        Carried-of-same s t (buried body) _ es ep (bury-Carried body t e)
    recover-Carried body _ s t e es ep =
        Carried-of-same s t retried _ es ep (settle-Carried retried t refl)

    recover-Carried_retried :
        (x : Exception) (s : Session W Json)
        → x ≢ validation_error
        → Carried queue_name msg s retried (recover port queue_name msg x s)
    unfolding recover
    recover-Carried_retried validation_error s ne = absurd (ne refl)
    recover-Carried_retried _ s ne = settle-Carried retried s refl

    try-Carried :
        (v : Verdict Json) (m : Exec (Session W Json) (Unit {0})) (s t : Session W Json)
        → Carried queue_name msg s v (m t)
        → Carried queue_name msg s v (try_except m (recover port queue_name msg) t)
    try-Carried v m s t c =
        rw (try_except-ok (recover port queue_name msg) m t c.returned)
          (record { returned = refl; settled = c.settled; published = c.published })

    -- A block may be replaced by one with its outcome.
    Carried-congr :
        (v : Verdict Json) (m m' : Exec (Session W Json) (Unit {0})) (s : Session W Json)
        → m s ≡ m' s
        → Carried queue_name msg s v (try_except m' (recover port queue_name msg) s)
        → Carried queue_name msg s v (try_except m (recover port queue_name msg) s)
    Carried-congr v m m' s e c = rw (try_except-congr (recover port queue_name msg) m m' s e) c

    -- The part of `attempt` after the envelope is validated.
    processing-Carried :
        (body json : Json) (s : Session W Json) (r : Result (Unit {0}) × W)
        → port.loads msg.body ≡ ok body
        → Carried queue_name msg s (judge_processing body r.0) (
            try_except
              (record_if_ok port (λ s'. s') r >> settle_message port ack)
              (recover port queue_name msg)
              s)
    processing-Carried body json s (ok _, w) e =
        let t : Session W Json = record s { world = w } in
        try-Carried processed (settle_message port ack) s t
          (Carried-of-same s t processed _ refl refl (settle-Carried processed t refl))
    processing-Carried body json s (raised x, w) e =
        recover-Carried body x s (record s { world = w }) e refl refl

    validated-Carried :
        (body : Json) (s : Session W Json) (r : Result Json)
        → port.loads msg.body ≡ ok body
        → Carried queue_name msg s (judge_validation msg s.world body r) (
            try_except
              (lift r >>= λ json. process port json msg >> settle_message port ack)
              (recover port queue_name msg)
              s)
    validated-Carried body s (ok json) e =
        processing-Carried body json s (port.process_message json msg s.world) e
    validated-Carried body s (raised x) e = recover-Carried body x s s e refl refl

    -- `attempt` by the cases of its guards.
    attempt-spent :
        (max_retries : ℕ) (s : Session W Json)
        → leb max_retries (retry_count msg.death_headers) ≡ true
        → attempt port max_retries queue_name msg s
          ≡ (move_to_dlq port queue_name msg >> settle_message port ack) s
    unfolding attempt
    attempt-spent max_retries s spent = rw spent

    attempt-left :
        (max_retries : ℕ) (s : Session W Json) (body : Json)
        → leb max_retries (retry_count msg.death_headers) ≡ false
        → port.loads msg.body ≡ ok body
        → attempt port max_retries queue_name msg s
          ≡ (lift (validate_body port port.validate body) >>= λ json.
                process port json msg >> settle_message port ack)
              s
    unfolding attempt
    attempt-left max_retries s body left e = rw (left, e)

    move_to_dlq-unparsed :
        (s : Session W Json) (x : Exception)
        → port.loads msg.body ≡ raised x
        → move_to_dlq port queue_name msg s ≡ (raised x, s)
    unfolding move_to_dlq
    move_to_dlq-unparsed s x e = rw e

    attempt-unparsed :
        (max_retries : ℕ) (s : Session W Json) (x : Exception)
        → port.loads msg.body ≡ raised x
        → attempt port max_retries queue_name msg s ≡ (raised x, s)
    unfolding attempt
    attempt-unparsed max_retries s x e =
        elim (Bool-cases (leb max_retries (retry_count msg.death_headers))) [
          | inl spent ↦ rw spent (ground (arith, move_to_dlq-unparsed s x e))
          | inr left ↦ rw (left, e)
        ]

    parsed-Carried :
        (max_retries : ℕ) (s : Session W Json) (r : Result Json)
        → port.loads msg.body ≡ r
        → Carried queue_name msg s
            (judge_body max_retries msg s.world r)
            (try_except (attempt port max_retries queue_name msg) (recover port queue_name msg) s)
    parsed-Carried max_retries s (ok body) e =
        elim (Bool-cases (leb max_retries (retry_count msg.death_headers))) [
          | inl spent ↦ rw spent (
              Carried-congr (buried body) (attempt port max_retries queue_name msg)
                (move_to_dlq port queue_name msg >> settle_message port ack) s
                (attempt-spent max_retries s spent)
                (try-Carried (buried body)
                  (move_to_dlq port queue_name msg >> settle_message port ack) s s
                  (bury-Carried body s e)))
          | inr left ↦ rw left (
              Carried-congr
                (judge_validation msg s.world body (validate_body port port.validate body))
                (attempt port max_retries queue_name msg)
                (lift (validate_body port port.validate body) >>= λ json.
                  process port json msg >> settle_message port ack)
                s (attempt-left max_retries s body left e)
                (validated-Carried body s (validate_body port port.validate body) e))
        ]
    parsed-Carried max_retries s (raised x) e =
        Carried-congr retried (attempt port max_retries queue_name msg) (λ t. (raised x, t)) s
          (attempt-unparsed max_retries s x e)
          (recover-Carried_retried x s λ bad. up.parses msg.body (e ∙ ap raised bad))

    -- While the broker is up, `_on_message` returns, settles the delivery as its verdict says, and
    -- publishes the dead letter of a buried delivery and nothing else.
    pub on_message-Carried :
        (max_retries : ℕ) (s : Session W Json)
        → Carried queue_name msg s
            (judge max_retries msg s.world)
            (on_message port max_retries queue_name msg s)
    unfolding on_message
    on_message-Carried max_retries s = parsed-Carried max_retries s (port.loads msg.body) refl
