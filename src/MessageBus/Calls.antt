-- ===== src/MessageBus/Calls.antt =====
-- Which reply an RPC call gets.
use mmo_backend_server.Prelude.{
  ℕ, String, ◌≡◌, ◌≢◌, refl, ap, ◌∙◌, Bool, true, false, Option, none, some, List, [], ◌∷◌, ◌==◌,
  eq_refl, arith, nat_eq, is_some, if◌then◌else◌, Result, All,
}
use mmo_backend_server.Prelude.Dict.{lookup, lookup-insert, lookup-erase}
use mmo_backend_server.MessageBus.{
  Futures, start_call, end_call, on_rpc_reply, resolve, reply_for, set_outcome,
}
use mmo_backend_server.AuthService.{truthy}

-- What happens to the table of futures: calls start, replies arrive, calls end.
pub data Step (Body : Type 0) : Type 0 where
  starts : String → ℕ → Step Body
  replies : Option String → Result Body → Step Body
  ends : String → Step Body

nat_eq_refl : (n : ℕ) → nat_eq n n ≡ true
nat_eq_refl n = ground arith

module _ {Body : Type 0} where
  abbrev pub step : Step Body → Futures Body → Futures Body
  step (starts corr_id f) s = start_call corr_id f s
  step (replies correlation_id r) s = on_rpc_reply correlation_id r s
  step (ends corr_id) s = end_call corr_id s

  abbrev pub run : List (Step Body) → Futures Body → Futures Body
  run [] s = s
  run (x ∷ xs) s = run xs (step x s)

  -- A step that is not about the call with this ID and this future.
  abbrev pub IsElsewhere : String → ℕ → Step Body → Type 0
  IsElsewhere c f (starts corr_id g) = (corr_id == c ≡ false) × (nat_eq g f ≡ false)
  IsElsewhere c f (replies none r) = Unit
  IsElsewhere c f (replies (some corr_id) r) = corr_id == c ≡ false
  IsElsewhere c f (ends corr_id) = corr_id == c ≡ false

  -- The call is open, and no other call has its future.
  pub record IsWaiting (c : String) (f : ℕ) (s : Futures Body) : Type 0 where
    pub found : lookup c s.rpc_futures ≡ some f
    pub own : (k : String) → k == c ≡ false → lookup k s.rpc_futures ≢ some f
    pub pending : s.outcome f ≡ none

  start_call-IsWaiting :
      (c k : String) (f g : ℕ) (s : Futures Body)
      → k == c ≡ false
      → nat_eq g f ≡ false
      → IsWaiting c f s
      → IsWaiting c f (start_call k g s)
  unfolding start_call
  start_call-IsWaiting c k f g s other fresh h = record {
    found = ground (arith, other, h.found, lookup-insert k c g s.rpc_futures);
    own = λ j ne e. ground (arith, fresh, ne, h.own j ne, e, lookup-insert k j g s.rpc_futures);
    pending = h.pending;
  }

  end_call-IsWaiting :
      (c k : String) (f : ℕ) (s : Futures Body)
      → k == c ≡ false
      → IsWaiting c f s
      → IsWaiting c f (end_call k s)
  unfolding end_call
  end_call-IsWaiting c k f s other h = record {
    found = ground (arith, other, h.found, lookup-erase k c s.rpc_futures);
    own = λ j ne e. ground (arith, ne, h.own j ne, e, lookup-erase k j s.rpc_futures);
    pending = h.pending;
  }

  resolve-IsWaiting :
      (c : String) (f : ℕ) (r : Result Body) (o : Option ℕ) (s : Futures Body)
      → o ≢ some f
      → IsWaiting c f s
      → IsWaiting c f (resolve r o s)
  resolve-IsWaiting c f r none s ne h = h
  resolve-IsWaiting c f r (some g) s ne h = resolved (is_some (s.outcome g))
    where
      differ : nat_eq f g ≡ false
      differ = ground (arith, ne)

      resolved : (done : Bool) → IsWaiting c f (if done then s else set_outcome g r s)
      resolved true = h
      resolved false = record { found = h.found; own = h.own; pending = rw differ h.pending }

  on_rpc_reply-IsWaiting :
      (c : String) (f : ℕ) (id : Option String) (r : Result Body) (s : Futures Body)
      → IsElsewhere c f (replies id r)
      → IsWaiting c f s
      → IsWaiting c f (on_rpc_reply id r s)
  unfolding on_rpc_reply
  on_rpc_reply-IsWaiting c f none r s other h = h
  on_rpc_reply-IsWaiting c f (some k) r s other h = addressed (k == "")
    where
      addressed : (blank : Bool) → IsWaiting c f (reply_for (if blank then none else some k) r s)
      addressed true = h
      addressed false = resolve-IsWaiting c f r (lookup k s.rpc_futures) s (h.own k other) h

  step-IsWaiting :
      (c : String) (f : ℕ) (x : Step Body) (s : Futures Body)
      → IsElsewhere c f x
      → IsWaiting c f s
      → IsWaiting c f (step x s)
  step-IsWaiting c f (starts k g) s (other, fresh) h = start_call-IsWaiting c k f g s other fresh h
  step-IsWaiting c f (replies id r) s other h = on_rpc_reply-IsWaiting c f id r s other h
  step-IsWaiting c f (ends k) s other h = end_call-IsWaiting c k f s other h

  run-IsWaiting :
      (c : String) (f : ℕ) (xs : List (Step Body)) (s : Futures Body)
      → All (IsElsewhere c f) xs
      → IsWaiting c f s
      → IsWaiting c f (run xs s)
  run-IsWaiting c f [] s all h = h
  run-IsWaiting c f (x ∷ xs) s (other, all) h =
      run-IsWaiting c f xs (step x s) all (step-IsWaiting c f x s other h)

  -- What a future was set to stays, whatever happens.
  outcome-stays :
      (f : ℕ) (r : Result Body) (x : Step Body) (s : Futures Body)
      → s.outcome f ≡ some r
      → (step x s).outcome f ≡ some r
  unfolding start_call end_call on_rpc_reply
  outcome-stays f r (starts k g) s h = h
  outcome-stays f r (replies id r') s h = reply_for-stays (truthy id)
    where
      resolved :
          (g : ℕ) (o : Option (Result Body))
          → s.outcome g ≡ o
          → (if is_some o then s else set_outcome g r' s).outcome f ≡ some r
      resolved g none e = ground (arith, h, e)
      resolved g (some x) e = h

      found_or_not : (o : Option ℕ) → (resolve r' o s).outcome f ≡ some r
      found_or_not none = h
      found_or_not (some g) = resolved g (s.outcome g) refl

      reply_for-stays : (o : Option String) → (reply_for o r' s).outcome f ≡ some r
      reply_for-stays none = h
      reply_for-stays (some k) = found_or_not (lookup k s.rpc_futures)
  outcome-stays f r (ends k) s h = h

  run-outcome :
      (f : ℕ) (r : Result Body) (xs : List (Step Body)) (s : Futures Body)
      → s.outcome f ≡ some r
      → (run xs s).outcome f ≡ some r
  run-outcome f r [] s h = h
  run-outcome f r (x ∷ xs) s h = run-outcome f r xs (step x s) (outcome-stays f r x s h)

  on_rpc_reply-sets :
      (c : String) (f : ℕ) (r : Result Body) (s : Futures Body)
      → c == "" ≡ false
      → lookup c s.rpc_futures ≡ some f
      → s.outcome f ≡ none
      → on_rpc_reply (some c) r s ≡ set_outcome f r s
  unfolding on_rpc_reply
  on_rpc_reply-sets c f r s named found pending =
      ap (λ b. reply_for (if b then none else some c) r s) named
      ∙ ap (λ o. resolve r o s) found
      ∙ ap (λ o. if is_some o then s else set_outcome f r s) pending

  own_outcome :
      (f : ℕ) (r : Result Body) (s : Futures Body) → (set_outcome f r s).outcome f ≡ some r
  own_outcome f r s = rw (nat_eq_refl f) refl

  -- A call gets the first reply with its correlation ID, and only that one: other calls, replies
  -- and timeouts may come in any order before it, and anything at all after it. Conditions: the
  -- call is waiting with a future of its own, the ID is not empty, and the steps before the reply
  -- are about other IDs, with other futures.
  pub first-reply :
      (c : String) (f : ℕ) (before after : List (Step Body)) (r : Result Body) (s : Futures Body)
      → c == "" ≡ false
      → IsWaiting c f s
      → All (IsElsewhere c f) before
      → (run after (on_rpc_reply (some c) r (run before s))).outcome f ≡ some r
  first-reply c f before after r s named h others =
      let waiting : IsWaiting c f (run before s) = run-IsWaiting c f before s others h in
      run-outcome f r after (on_rpc_reply (some c) r (run before s)) (
        ap (λ t. t.outcome f)
          (on_rpc_reply-sets c f r (run before s) named waiting.found waiting.pending)
        ∙ own_outcome f r (run before s))

  -- When a second call starts under the ID of one that is waiting, the next reply with that ID is
  -- the second call's, and the first call's future stays unset. Conditions: the ID is not empty,
  -- and the second future is another one that is not done.
  pub start_call-replaces :
      (c : String) (f g : ℕ) (r : Result Body) (s : Futures Body)
      → c == "" ≡ false
      → IsWaiting c f s
      → nat_eq f g ≡ false
      → s.outcome g ≡ none
      → ((on_rpc_reply (some c) r (start_call c g s)).outcome f ≡ none)
        × ((on_rpc_reply (some c) r (start_call c g s)).outcome g ≡ some r)
  unfolding start_call
  start_call-replaces c f g r s named h differ unset =
      let s1 : Futures Body = start_call c g s in
      let sets : on_rpc_reply (some c) r s1 ≡ set_outcome g r s1 =
        on_rpc_reply-sets c g r s1 named
          (lookup-insert c c g s.rpc_futures
            ∙ ap (λ b. if b then some g else lookup c s.rpc_futures) (eq_refl c))
          unset in
      (
        ap (λ t. t.outcome f) sets ∙ ap (λ b. if b then some r else s.outcome f) differ ∙ h.pending,
        ap (λ t. t.outcome g) sets ∙ own_outcome g r s1,
      )
