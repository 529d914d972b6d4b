-- ===== src/MessageBus/Connecting/Liveness.antt =====
-- The connect loop meets a broker that comes up in time.
use mmo_backend_server.Prelude.{
  ℕ, zero, suc, ◌+◌, ◌*◌, ◌≤◌, ◌<◌, ◌≡◌, ◌≢◌, ◌∙◌, ap, refl, sym, true, false, Bool, inl, inr, ◌⊎◌,
  Bool-cases, Option, none, some, arith, leb, if◌then◌else◌, Exception, connection_closed,
  channel_closed, Result, ok, raised, Exec, pure, ◌>>◌, try_except,
}
use mmo_backend_server.MessageBus.Broker.{AioPika, Config, Bus}
use mmo_backend_server.MessageBus.Broker.Laws.{Clock, Reachable}
use mmo_backend_server.MessageBus.Connecting.{
  connect_once, after_failure, turn, connect_loop, connect, deadline_of, is_past, raise_if_past,
  sleep,
}
use mmo_backend_server.MessageBus.Connecting.Termination.{connect_once-clock}
use mmo_backend_server.MessageBus.Connecting.Timing.{connect_once-By, connect_once-IsUp}

ok-ne-raised : {A : Type 0} {a : A} {e : Exception} → ok a ≢ raised e
ok-ne-raised e = cc

is_past-below :
    (deadline : Option ℕ) (t most : ℕ)
    → t ≤ most
    → is_past deadline most ≡ false
    → is_past deadline t ≡ false
is_past-below none t most le h = refl
is_past-below (some d) t most le h = ground arith

module _ {Br Json : Type 0} (aio : AioPika Br) (law : Clock aio) (cfg : Config)
    (up longest late : ℕ) (reach : Reachable aio up longest late) where
  abbrev clock : Bus Br Json → ℕ
  clock s = aio.monotonic s.broker

  abbrev after_sleep : Bus Br Json → Bus Br Json
  after_sleep s = record s { broker = aio.sleep cfg.reconnect_backoff s.broker }

  sleep_first-goes_on :
      (deadline : Option ℕ) (e : Exception) (s : Bus Br Json)
      → is_past deadline (clock (after_sleep s)) ≡ false
      → (sleep aio cfg >> raise_if_past aio cfg deadline e) s ≡ (ok tt, after_sleep s)
  sleep_first-goes_on deadline e s h = ground arith

  check_first-goes_on :
      (deadline : Option ℕ) (e : Exception) (s : Bus Br Json)
      → is_past deadline (clock s) ≡ false
      → (raise_if_past aio cfg deadline e >> sleep aio cfg) s ≡ (ok tt, after_sleep s)
  check_first-goes_on deadline e s h =
      let checked : Bool → Result (Unit {0}) × Bus Br Json =
        λ b. if b then (raised e, s) else (ok tt, s) in
      ap (λ b. ((λ (_ : Bus Br Json). checked b) >> sleep aio cfg) s) h

  -- A failure that leaves time goes on after a sleep.
  after_failure-goes_on :
      (deadline : Option ℕ) (e : Exception) (s : Bus Br Json) (most : ℕ)
      → clock s + cfg.reconnect_backoff + late ≤ most
      → is_past deadline most ≡ false
      → after_failure aio cfg deadline e s ≡ (ok tt, after_sleep s)
  unfolding after_failure
  after_failure-goes_on deadline connection_closed s most le h =
      sleep_first-goes_on deadline connection_closed s (
        is_past-below deadline (clock (after_sleep s)) most
          (omega (arith, le, reach.sleep_most cfg.reconnect_backoff s.broker)) h)
  after_failure-goes_on deadline channel_closed s most le h =
      sleep_first-goes_on deadline channel_closed s (
        is_past-below deadline (clock (after_sleep s)) most
          (omega (arith, le, reach.sleep_most cfg.reconnect_backoff s.broker)) h)
  after_failure-goes_on deadline e s most le h =
      check_first-goes_on deadline e s (is_past-below deadline (clock s) most (omega (arith, le)) h)

  abbrev Returns : Option (Result (Unit {0}) × Bus Br Json) → Type 0
  Returns out = (s : Bus Br Json) × (out ≡ some (ok tt, s))

  abbrev next : ℕ → Option ℕ → Result Bool × Bus Br Json → Option (Result (Unit {0}) × Bus Br Json)
  next n deadline (ok true, s) = some (ok tt, s)
  next n deadline (ok false, s) = connect_loop aio cfg n deadline s
  next n deadline (raised e, s) = some (raised e, s)

  connect_loop-next :
      (n : ℕ) (deadline : Option ℕ) (s : Bus Br Json)
      → connect_loop aio cfg (suc n) deadline s ≡ next n deadline (turn aio cfg deadline s)
  unfolding connect_loop
  connect_loop-next n deadline s = unpacked (turn aio cfg deadline s).0 (turn aio cfg deadline s).1
    where
      unpacked :
          (r : Result Bool) (s' : Bus Br Json)
          → elim r [
            | ok true ↦ some (ok tt, s')
            | ok false ↦ connect_loop aio cfg n deadline s'
            | raised e ↦ some (raised e, s')
          ]
            ≡ next n deadline (r, s')
      unpacked (ok true) s' = refl
      unpacked (ok false) s' = refl
      unpacked (raised e) s' = refl

  -- A turn from what the first part of it left.
  turn_from :
      (n : ℕ) (deadline : Option ℕ) (r : Result (Unit {0})) (s : Bus Br Json) (most : ℕ)
      → clock s + cfg.reconnect_backoff + late ≤ most ⊎ (r ≡ ok tt)
      → is_past deadline most ≡ false
      → ((e : Exception) → r ≡ raised e → Returns (connect_loop aio cfg n deadline (after_sleep s)))
      → Returns (
          next n deadline (
            try_except
              ((λ _. (r, s)) >> pure true)
              (λ e. after_failure aio cfg deadline e >> pure false)
              s))
  turn_from n deadline (ok tt) s most le h later = (s, refl)
  turn_from n deadline (raised e) s most (inr x) h later = cc
  turn_from n deadline (raised e) s most (inl le) h later =
      let failure : Exec (Bus Br Json) (Unit {0}) = after_failure aio cfg deadline e in
      let goes_on : failure s ≡ (ok tt, after_sleep s) =
        after_failure-goes_on deadline e s most le h in
      let (s', e') = later e refl in
      (
        s',
        ap
              (λ (out : Result (Unit {0}) × Bus Br Json).
                next n deadline (((λ _. out) >> pure false) s))
              goes_on
            ∙ e',
      )

  -- A turn that starts too early leaves time for the next.
  before_up :
      (s : Bus Br Json)
      → leb up (clock s) ≡ false
      → clock (connect_once aio cfg s).1 + cfg.reconnect_backoff + late
        ≤ up + 4 * longest + cfg.reconnect_backoff + late
  before_up s down =
      let by = connect_once-By aio law cfg up longest late reach s in ground (arith, by, down)

  loop_turn-Returns :
      (n : ℕ) (deadline : Option ℕ) (s : Bus Br Json)
      → is_past deadline (up + 4 * longest + cfg.reconnect_backoff + late) ≡ false
      → (clock s < up
          → Returns (connect_loop aio cfg n deadline (after_sleep (connect_once aio cfg s).1)))
      → Returns (connect_loop aio cfg (suc n) deadline s)
  loop_turn-Returns n deadline s h rest =
      let most : ℕ = up + 4 * longest + cfg.reconnect_backoff + late in
      let s1 : Bus Br Json = (connect_once aio cfg s).1 in
      let r : Result (Unit {0}) = (connect_once aio cfg s).0 in
      let in_time : (clock s1 + cfg.reconnect_backoff + late ≤ most) ⊎ (r ≡ ok tt) =
        elim (Bool-cases (leb up (clock s))) [
          | inl is_up ↦ inr (connect_once-IsUp aio law cfg up longest late reach s (reached is_up))
          | inr down ↦ inl (before_up s down)
        ] in
      let (s', e) =
        turn_from n deadline r s1 most in_time h (λ x raises. rest (too_early x raises)) in
      (s', connect_loop-next n deadline s ∙ e)
    where
      reached : leb up (clock s) ≡ true → up ≤ clock s
      reached e = ground arith

      too_early : (x : Exception) → (connect_once aio cfg s).0 ≡ raised x → clock s < up
      too_early x raises = elim (Bool-cases (leb up (clock s))) [
        | inl is_up ↦ absurd (
            ok-ne-raised (
              sym (connect_once-IsUp aio law cfg up longest late reach s (reached is_up)) ∙ raises))
        | inr down ↦ ground (arith, down)
      ]

  -- The loop returns if the broker comes up in time.
  connect_loop-Returns :
      1 ≤ cfg.reconnect_backoff
      → (n : ℕ) (deadline : Option ℕ) (s : Bus Br Json)
      → is_past deadline (up + 4 * longest + cfg.reconnect_backoff + late) ≡ false
      → up ≤ clock s + n
      → Returns (connect_loop aio cfg (suc n) deadline s)
  connect_loop-Returns waits zero deadline s h near =
      loop_turn-Returns zero deadline s h (λ early. absurd (not_before near early))
    where
      not_before : {m n : ℕ} → m ≤ n + 0 → n < m → ⊥
      not_before le lt = omega arith
  connect_loop-Returns waits (suc n) deadline s h near =
      let s1 : Bus Br Json = (connect_once aio cfg s).1 in
      let since : clock s ≤ clock s1 = connect_once-clock aio law cfg s in
      let least : clock s1 + cfg.reconnect_backoff ≤ clock (after_sleep s1) =
        law.sleep_least cfg.reconnect_backoff s1.broker in
      loop_turn-Returns (suc n) deadline s h (λ early.
        connect_loop-Returns waits n deadline (after_sleep s1) h
          (omega (arith, near, waits, since, least)))

  -- `connect` returns if the broker comes up in time: however its calls fail before the time `up`, if
  -- each of them answers from then on, and there is no timeout or the deadline lies past `up` by more
  -- than the four calls of a turn and the sleep after it, the call returns without raising. One turn
  -- for each millisecond until `up`, and one more, are enough. Conditions: the backoff is at least a
  -- millisecond, the clock does not go back, a call takes at most `longest`, and a sleep lasts at least
  -- as long as it should and is late by at most `late`.
  pub connect-Returns :
      (n : ℕ) (s : Bus Br Json)
      → 1 ≤ cfg.reconnect_backoff
      → is_past (deadline_of cfg (clock s)) (up + 4 * longest + cfg.reconnect_backoff + late)
        ≡ false
      → up ≤ clock s + n
      → (s' : Bus Br Json) × (connect aio cfg (suc n) s ≡ some (ok tt, s'))
  unfolding connect
  connect-Returns n s waits h near =
      connect_loop-Returns waits n (deadline_of cfg (clock s)) (record s { closing = false }) h near
